-- ===== src/Common/Printing.antt =====
-- Texts as the codes of their characters, and numbers printed in decimal, as by `%d` of `sprintf`.
use Prim.Native.Char.{code}
use Prim.Native.Nat.{ℕ, zero, suc, ◌+◌, ◌-◌, ◌*◌, ◌/◌, ◌%◌, ◌^◌, ◌<◌, ◌≤◌}
use Prim.Native.String.{String}
use mathlib.Core.List.{List, [], ◌∷◌, ◌++◌}
use native.Mathlib.Omega.{arith}
use lossless_transport.Common.Lists.{length, length-append}
use lossless_transport.Common.Tests.{ltb, if◌then◌else◌}

abbrev pub Text : Type 0
Text = List ℕ

-- The characters of a literal.
abbrev pub codes : String → Text
codes String.[] = []
codes (String.◌∷◌ c s) = code c ∷ codes s

-- At most the given number of digits, the last ones.
unfoldable pub digits : ℕ → ℕ → Text
digits zero n = []
digits (suc k) n =
    let rest = digits k (n / 10) ++ (48 + n % 10) ∷ [] in if ltb n 10 then (48 + n) ∷ [] else rest

-- `%d` of a value that is not negative.
unfoldable pub decimal : ℕ → Text
unfolding digits
decimal n = digits (suc n) n

-- `%d` of the 32 bits `n`.
unfoldable pub signed_decimal : ℕ → Text
unfolding decimal
signed_decimal n = if ltb n (2 ^ 31) then decimal n else 45 ∷ decimal (2 ^ 32 - n)

abbrev pub power10 : ℕ → ℕ
power10 zero = 1
power10 (suc j) = 10 * power10 j

length-digits : (j k n : ℕ) → n < power10 (suc j) → length (digits k n) ≤ suc j
unfolding digits
length-digits j zero n h = omega arith
length-digits zero (suc k) n h = ground arith
length-digits (suc j) (suc k) n h =
    ground
      (arith, length-digits j k (n / 10), length-append (digits k (n / 10)) ((48 + n % 10) ∷ []))

pub length-decimal : (j n : ℕ) → n < power10 (suc j) → length (decimal n) ≤ suc j
unfolding decimal
length-decimal j n h = length-digits j (suc n) n h

pub length-signed_decimal : (n : ℕ) → n < 2 ^ 32 → length (signed_decimal n) ≤ 11
unfolding signed_decimal
length-signed_decimal n h = ground (arith, length-decimal 9 n, length-decimal 9 (2 ^ 32 - n))
