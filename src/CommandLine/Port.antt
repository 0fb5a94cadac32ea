-- ===== src/CommandLine/Port.antt =====
-- `parse_args` of src/util.c: how it ends, and the port that it reads.
use lossless_transport.Common.{
  ℕ, zero, suc, ◌+◌, ◌/◌, ◌%◌, ◌^◌, ◌<◌, ◌≤◌, ◌≡◌, ◌≢◌, Bool, ◌⊎◌, inl, inr, refl, sym, ap, ◌∙◌,
  true, false, not, ◌||◌, Option, none, some, List, [], ◌∷◌, ◌++◌, append_assoc, append-nil, ltb,
  ◌==◌, length, get_or, Text, digits, decimal, arith, dec_lt, Bool-cases, codes,
}
use lossless_transport.Log.{Run, runs, exited, Output, message, exit_usage, ◌>>=◌}
use lossless_transport.CommandLine.{
  CommandLine, Arguments, parse_options, atoi_from, atoi, to_port, parse_args,
}

-- `atoi` reads on after the digits of `n` with the value `n`.
atoi_from-digits :
    (k n : ℕ) (rest : Text) → n < k → atoi_from 0 (digits k n ++ rest) ≡ atoi_from n rest
unfolding atoi_from digits
atoi_from-digits zero n rest h = absurd (omega arith)
atoi_from-digits (suc k) n rest h = elim (dec_lt n 10) [
  | yes l ↦ ground arith
  | no m ↦
      let e = append_assoc (digits k (n / 10)) ((48 + n % 10) ∷ []) rest in
      let ih = atoi_from-digits k (n / 10) ((48 + n % 10) ∷ rest) (omega arith) in
      ground (arith, e, ih)
]

-- The first character of a number printed is a digit.
digits-head : (k n : ℕ) → n < k → (c : ℕ) × (s : Text) × (digits k n ≡ c ∷ s) × (48 ≤ c) × (c ≤ 57)
unfolding digits
digits-head zero n h = absurd (omega arith)
digits-head (suc k) n h = elim (Bool-cases (ltb n 10)) [
  | inl l ↦ (48 + n, [], rw l, omega arith, ground arith)
  | inr m ↦
      let (c, s, e, a, b) = digits-head k (n / 10) (ground arith) in
      (c, s ++ (48 + n % 10) ∷ [], rw (m, e), a, b)
]

atoi-digit : (c : ℕ) (s : Text) → 48 ≤ c → c ≤ 57 → atoi (c ∷ s) ≡ atoi_from 0 (c ∷ s) % 2 ^ 32
unfolding atoi
atoi-digit c s a b = ground arith

atoi_from-decimal : (n : ℕ) → atoi_from 0 (decimal n) ≡ n
unfolding decimal atoi_from
atoi_from-decimal n =
    ap (atoi_from 0) (sym (append-nil (digits (suc n) n)))
    ∙ atoi_from-digits (suc n) n [] (omega arith)

decimal-head : (n : ℕ) → (c : ℕ) × (s : Text) × (decimal n ≡ c ∷ s) × (48 ≤ c) × (c ≤ 57)
unfolding decimal
decimal-head n = digits-head (suc n) n (omega arith)

pub atoi-decimal : (n : ℕ) → n < 2 ^ 31 → atoi (decimal n) ≡ n
atoi-decimal n h =
    let (c, s, e, a, b) = decimal-head n in
    let f = ap atoi e ∙ atoi-digit c s a b in
    let g = ap (atoi_from 0) (sym e) ∙ atoi_from-decimal n in omega (arith, f, g)

-- The options that `getopt` returns for "f:h".
abbrev pub IsOption : ℕ × Text → Type 0
IsOption (c, optarg) = (c ≡ 102) ⊎ ((c ≡ 104) ⊎ (c ≡ 63))

abbrev pub Options : List (ℕ × Text) → Type 0
Options [] = Unit {0}
Options (o ∷ os) = IsOption o × Options os

-- The help is asked for by `-h`, or an option is unknown.
abbrev pub asks : List (ℕ × Text) → Bool
asks [] = false
asks ((c, optarg) ∷ os) = c == 104 || c == 63 || asks os

-- The file that the last `-f` names, or the one before.
abbrev pub last_file : Option Text → List (ℕ × Text) → Option Text
last_file file [] = file
last_file file ((c, optarg) ∷ os) = last_file (some optarg) os

-- What is printed about a command line that is refused: the usage, after the reason.
abbrev pub help : Text → Output
help program = message (codes "Usage: " ++ (program ++ codes " <hostname> <port> [-f FILE]\n"))

abbrev pub wrong_number : Text → Output
wrong_number program = message (program ++ codes ": wrong number of arguments\n")

abbrev pub bad_port : Text → Output
bad_port program = message (program ++ codes ": port must be an integer between 1 and 65535\n")

-- What `parse_args` gives for the options and the operands that `getopt` leaves.
pub data Parsed (cl : CommandLine) (log : List Output) : Run Arguments → Type 0 where
  helps : asks cl.options ≡ true → Parsed cl log (exited 2 (log ++ help (get_or cl.argv 0 []) ∷ []))
  miscounts :
      asks cl.options ≡ false
      → cl.optind + 2 ≢ length cl.argv
      → Parsed cl log
          (exited 2 (log ++ wrong_number (get_or cl.argv 0 []) ∷ help (get_or cl.argv 0 []) ∷ []))
  refuses :
      asks cl.options ≡ false
      → cl.optind + 2 ≡ length cl.argv
      → to_port (get_or cl.argv (cl.optind + 1) []) ≡ 0
      → Parsed cl log
          (exited 2 (log ++ bad_port (get_or cl.argv 0 []) ∷ help (get_or cl.argv 0 []) ∷ []))
  accepts :
      {a : Arguments}
      → asks cl.options ≡ false
      → cl.optind + 2 ≡ length cl.argv
      → a.hostname ≡ get_or cl.argv cl.optind []
      → a.port ≡ to_port (get_or cl.argv (cl.optind + 1) [])
      → 0 < a.port
      → a.port < 2 ^ 16
      → a.filename ≡ last_file none cl.options
      → Parsed cl log (runs a log)

parse_options-helps :
    (program : Text) (os : List (ℕ × Text)) (file : Option Text) (log : List Output)
    → Options os
    → asks os ≡ true
    → parse_options program os file log ≡ exited 2 (log ++ help program ∷ [])
unfolding parse_options exit_usage
parse_options-helps program [] file log h e = cc
parse_options-helps program ((c, optarg) ∷ os) file log (inl f, h) e =
    let other : (c == 104 || c == 63 || asks os) ≡ asks os = ground arith in
    let is_f : (c == b'f') ≡ true = ground arith in
    rw is_f (parse_options-helps program os (some optarg) log h (sym other ∙ e))
parse_options-helps program ((c, optarg) ∷ os) file log (inr f, h) e =
    let no_f : (c == b'f') ≡ false = ground arith in
    let is_help : (c == b'h' || c == b'?') ≡ true = ground arith in rw (no_f, is_help) refl

parse_options-runs :
    (program : Text) (os : List (ℕ × Text)) (file : Option Text) (log : List Output)
    → Options os
    → asks os ≡ false
    → parse_options program os file log ≡ runs (last_file file os) log
unfolding parse_options
parse_options-runs program [] file log h e = refl
parse_options-runs program ((c, optarg) ∷ os) file log (inl f, h) e =
    let other : (c == 104 || c == 63 || asks os) ≡ asks os = ground arith in
    let is_f : (c == b'f') ≡ true = ground arith in
    rw is_f (parse_options-runs program os (some optarg) log h (sym other ∙ e))
parse_options-runs program ((c, optarg) ∷ os) file log (inr f, h) e = absurd (ground arith)

-- `parse_args` ends in one of four ways, for the options that `getopt` can return. If `-h` or an
-- unknown option is among them, it prints the usage and exits with the code 2. Else it does that
-- after a message, if there are not just two operands, or else if the second is read as the port 0.
-- Else it prints nothing, and returns the two operands, with a port from 1 to 65535, and the file
-- that the last `-f` names.
pub parse_args-Parsed :
    (cl : CommandLine) (log : List Output) → Options cl.options → Parsed cl log (parse_args cl log)
unfolding parse_args exit_usage
parse_args-Parsed cl log h =
    let program = get_or cl.argv 0 [] in
    let port = to_port (get_or cl.argv (cl.optind + 1) []) in
    elim (Bool-cases (asks cl.options)) [
      | inl a ↦
          rw (parse_options-helps program cl.options none log h a, parse_args, ◌>>=◌) (helps a)
      | inr a ↦
          let goes_on = parse_options-runs program cl.options none log h a in
          elim (Bool-cases (cl.optind + 2 == length cl.argv)) [
            | inr m ↦
                rw (goes_on, parse_args, ◌>>=◌)
                  (rw (m, append_assoc) (miscounts a (ground (arith, m))))
            | inl m ↦ elim (Bool-cases (port == 0 || not (port / 2 ^ 16 == 0))) [
              | inl z ↦
                  rw (goes_on, parse_args, ◌>>=◌)
                    (rw (m, z, append_assoc) (refuses a (ground (arith, m)) (ground (arith, z))))
              | inr z ↦
                  rw (goes_on, parse_args, ◌>>=◌)
                    (rw (m, z)
                      (accepts a (ground (arith, m)) refl refl (ground (arith, z)) (omega arith)
                        refl))
            ]
          ]
    ]

parse_options-nil :
    (program : Text) (os : List (ℕ × Text)) (log : List Output)
    → os ≡ []
    → parse_options program os none log ≡ runs none log
unfolding parse_options
parse_options-nil program os log e = rw e

-- A port given as a decimal number below 2 ^ 31 is taken modulo 2 ^ 16: it is refused, with the
-- message and the usage, only if that is 0, and 65537 is taken for 1. No option is given, and two operands.
pub parse_args-decimal :
    (cl : CommandLine) (n : ℕ) (log : List Output)
    → cl.options ≡ []
    → cl.optind + 2 ≡ length cl.argv
    → get_or cl.argv (cl.optind + 1) [] ≡ decimal n
    → n < 2 ^ 31
    → ((n % 2 ^ 16 ≡ 0)
        × (parse_args cl log
            ≡ exited 2 (log ++ bad_port (get_or cl.argv 0 []) ∷ help (get_or cl.argv 0 []) ∷ [])))
      ⊎ ((0 < n % 2 ^ 16)
          × (parse_args cl log
              ≡ runs
                  (record {
                    hostname = get_or cl.argv cl.optind [];
                    port = n % 2 ^ 16;
                    filename = none;
                  })
                  log))
unfolding parse_args exit_usage
parse_args-decimal cl n log o h e l =
    let port : to_port (get_or cl.argv (cl.optind + 1) []) ≡ n % 2 ^ 16 =
      ap to_port e ∙ ap (λ m. m % 2 ^ 16) (atoi-decimal n l) in
    let two : (cl.optind + 2 == length cl.argv) ≡ true = ground (arith, h) in
    let program = get_or cl.argv 0 [] in
    let none_given = parse_options-nil program cl.options log o in
    elim (dec_lt 0 (n % 2 ^ 16)) [
      | yes p ↦
          let good : (n % 2 ^ 16 == 0 || not (n % 2 ^ 16 / 2 ^ 16 == 0)) ≡ false = ground arith in
          inr (p, rw (none_given, parse_args, ◌>>=◌) (rw two (rw (port, good))))
      | no z ↦
          let bad : (n % 2 ^ 16 == 0 || not (n % 2 ^ 16 / 2 ^ 16 == 0)) ≡ true = ground arith in
          inl (
            omega arith,
            rw (none_given, parse_args, ◌>>=◌)
                (rw two (rw (port, bad) (ap (exited 2) (append_assoc log _ _)))),
          )
    ]
