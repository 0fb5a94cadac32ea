-- ===== src/CommandLine.antt =====
-- src/util.c: `parse_args`.
--
-- `getopt` is the C library's: the options that its calls return, each with `optarg`, the arguments
-- in the order in which it leaves them, and `optind` after the last call. A text is cut at its NUL.
pub mod Port
mod Tests
use lossless_transport.Common.{
  ℕ, ◌+◌, ◌-◌, ◌*◌, ◌/◌, ◌%◌, ◌^◌, Bool, true, false, not, ◌&&◌, ◌||◌, Option, none, some, List, [],
  ◌∷◌, ◌++◌, ltb, leb, ◌==◌, if◌then◌else◌, length, get_elem?, get_or, Text, codes,
}
use lossless_transport.Log.{Printer, Run, pure, ◌>>=◌, ◌>>◌, print, aborted, exit_usage}

pub record CommandLine : Type 0 where
  pub argv : List Text
  pub options : List (ℕ × Text)
  pub optind : ℕ

-- The three variables that `parse_args` sets; `filename` stays NULL if `-f` is not given.
pub record Arguments : Type 0 where
  pub hostname : Text
  pub port : ℕ
  pub filename : Option Text

-- The loop over the options; NUL ends a text, so a missing `argv [0]` prints nothing.
unfoldable pub parse_options : Text → List (ℕ × Text) → Option Text → Printer (Option Text)
parse_options program [] filename = pure filename
parse_options program ((c, optarg) ∷ options) filename =
    let rest = parse_options program options (some optarg) in
    if c == b'f' then rest else if c == b'h' || c == b'?' then exit_usage program else aborted

-- The digits at the front, after a number already read.
unfoldable pub atoi_from : ℕ → Text → ℕ
atoi_from n [] = n
atoi_from n (c ∷ s) =
    let rest = atoi_from (10 * n + (c - 48)) s in if leb b'0' c && leb c b'9' then rest else n

-- `atoi` of the C library, as the 32 bits of an `int`: blanks, a sign, digits.
unfoldable pub atoi : Text → ℕ
atoi [] = 0
atoi (c ∷ s) =
    let skipped = atoi s in
    if c == 32 || (leb 9 c && leb c 13)
    then skipped
    else if c == b'-'
    then (2 ^ 32 - atoi_from 0 s % 2 ^ 32) % 2 ^ 32
    else if c == b'+'
    then atoi_from 0 s % 2 ^ 32
    else atoi_from 0 (c ∷ s) % 2 ^ 32

-- `*port = atoi (argv [optind])`: the conversion to `uint16_t`.
abbrev pub to_port : Text → ℕ
to_port s = atoi s % 2 ^ 16

unfoldable pub parse_args : CommandLine → Printer Arguments
parse_args cl =
    let program = get_or cl.argv 0 [] in
    let port = to_port (get_or cl.argv (cl.optind + 1) []) in
    parse_options program cl.options none >>= λ filename.
    if not (cl.optind + 2 == length cl.argv)
    then print (program ++ codes ": wrong number of arguments\n") >> exit_usage program
    else if port == 0 || not (port / 2 ^ 16 == 0)
    then print (program ++ codes ": port must be an integer between 1 and 65535\n")
      >> exit_usage program
    else pure (record { hostname = get_or cl.argv cl.optind []; port = port; filename = filename })
