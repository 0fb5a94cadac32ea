-- ===== src/CommandLine/Tests.antt =====
-- `parse_args` at concrete command lines.
use lossless_transport.Common.{
  ◌%◌, ◌^◌, ◌<◌, ◌≡◌, ◌⊎◌, inl, refl, none, [], ◌∷◌, get_or, codes, decimal, digits, arith,
  ℕ_discrete, dec_lt,
}
use lossless_transport.Log.{runs, exited}
use lossless_transport.CommandLine.{CommandLine, atoi, atoi_from, parse_args}
use lossless_transport.CommandLine.Port.{
  Parsed, bad_port, help, parse_args-Parsed, parse_args-decimal,
}

-- `sender -f file ::1 12345`
abbrev with_file : CommandLine
with_file = record {
  argv = codes "sender" ∷ codes "-f" ∷ codes "file" ∷ codes "::1" ∷ codes "12345" ∷ [];
  options = (102, codes "file") ∷ [];
  optind = 3;
}

-- `sender ::1 65537`
abbrev large_port : CommandLine
large_port = record {
  argv = codes "sender" ∷ codes "::1" ∷ codes "65537" ∷ [];
  options = [];
  optind = 1;
}

atoi_blanks :
    (atoi (codes " +12x") ≡ 12) × (atoi (codes "-1") ≡ 4294967295) × (atoi (codes "x") ≡ 0)
unfolding atoi atoi_from ℕ_discrete dec_lt
atoi_blanks = (refl, refl, refl)

parse_args-Parsed_example : Parsed with_file [] (parse_args with_file [])
parse_args-Parsed_example = parse_args-Parsed with_file [] (inl refl, tt)

large_port_prints : get_or large_port.argv 2 [] ≡ decimal 65537
unfolding decimal digits ℕ_discrete dec_lt
large_port_prints = refl

parse_args-decimal_example :
    ((65537 % 2 ^ 16 ≡ 0)
      × (parse_args large_port []
          ≡ exited 2 (bad_port (codes "sender") ∷ help (codes "sender") ∷ [])))
    ⊎ ((0 < 65537 % 2 ^ 16)
        × (parse_args large_port []
            ≡ runs (record { hostname = codes "::1"; port = 1; filename = none }) []))
parse_args-decimal_example =
    parse_args-decimal large_port 65537 [] refl refl large_port_prints (omega arith)
