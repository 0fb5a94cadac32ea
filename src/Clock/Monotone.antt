-- ===== src/Clock/Monotone.antt =====
-- The times of `get_monotime` of src/util.c, and their wrap.
use lossless_transport.Common.{
  ℕ, ap, ◌∙◌, ◌+◌, ◌-◌, ◌*◌, ◌/◌, ◌%◌, ◌^◌, ◌<◌, ◌≤◌, ◌≡◌, refl, true, false, arith, List, [], ◌∷◌,
}
use Prim.Native.Nat.{max}
use lossless_transport.Clock.{
  Timeval, Timespec, Clock, of_timespec, adjust, get_monotime, micro_to_timeval,
}

abbrev pub micros : Timeval → ℕ
micros tv = tv.tv_sec * 1000000 + tv.tv_usec

-- Times are normalized, and once started the last is not before the first.
pub record IsClock (c : Clock) : Type 0 where
  pub started : c.first_call ≡ false
  pub first_in : c.first.tv_usec < 1000000
  pub last_in : c.last.tv_usec < 1000000
  pub ordered : micros c.first ≤ micros c.last

-- The first call returns 0.
pub first-zero :
    (c : Clock) (tp : Timespec)
    → c.first_call ≡ true
    → tp.nsec < 1000000000
    → ((get_monotime c tp).0 ≡ 0) × IsClock (get_monotime c tp).1
unfolding get_monotime adjust
first-zero c tp f n = ground arith

-- A later call takes the reading, or one microsecond after the last time if that is later.
pub get_monotime-last :
    (c : Clock) (tp : Timespec)
    → IsClock c
    → tp.nsec < 1000000000
    → let (t, c') = get_monotime c tp in
      (micros c'.last ≡ max (micros (of_timespec tp)) (micros c.last + 1))
      × (t ≡ (micros c'.last - micros c.first) % 2 ^ 32)
      × (c'.first ≡ c.first)
      × IsClock c'
unfolding get_monotime adjust
get_monotime-last c tp v n = ground arith

abbrev pub Normal : List Timespec → Type 0
Normal [] = Unit {0}
Normal (tp ∷ tps) = (tp.nsec < 1000000000) × Normal tps

-- The results of calls in a row, and the clock after them.
pub times : Clock → List Timespec → List ℕ
times c [] = []
times c (tp ∷ tps) = (get_monotime c tp).0 ∷ times (get_monotime c tp).1 tps

unfoldable pub after : Clock → List Timespec → Clock
after c [] = c
after c (tp ∷ tps) = after (get_monotime c tp).1 tps

-- Each number is more than the one before it, the first more than `n`.
abbrev pub Increasing : ℕ → List ℕ → Type 0
Increasing n [] = Unit {0}
Increasing n (t ∷ ts) = (n < t) × Increasing t ts

after-first :
    (c : Clock) (tps : List Timespec) → IsClock c → Normal tps → (after c tps).first ≡ c.first
unfolding after
after-first c [] v n = refl
after-first c (tp ∷ tps) v n =
    let (l, t, f, w) = get_monotime-last c tp v n.0 in
    after-first (get_monotime c tp).1 tps w n.1 ∙ f

last-le-after :
    (c : Clock) (tps : List Timespec)
    → IsClock c
    → Normal tps
    → micros c.last ≤ micros (after c tps).last
unfolding after
last-le-after c [] v n = omega arith
last-le-after c (tp ∷ tps) v n =
    let (l, t, f, w) = get_monotime-last c tp v n.0 in
    omega (arith, l, last-le-after (get_monotime c tp).1 tps w n.1)

-- As long as less than 2 ^ 32 microseconds have passed since the first call, the results of a
-- started clock increase strictly, whatever the system's clock reads, even if it stands still or
-- goes back.
pub times-Increasing :
    (c : Clock) (tps : List Timespec)
    → IsClock c
    → Normal tps
    → micros (after c tps).last < micros c.first + 2 ^ 32
    → Increasing (micros c.last - micros c.first) (times c tps)
unfolding times after
times-Increasing c [] v n h = tt
times-Increasing c (tp ∷ tps) v n h =
    let (l, t, f, w) = get_monotime-last c tp v n.0 in
    let d = get_monotime c tp in
    let m = last-le-after d.1 tps w n.1 in
    let e : d.0 ≡ micros d.1.last - micros d.1.first =
      omega (arith, l, t, m, v.ordered, ap micros f) in
    (
      omega (arith, e, l, v.ordered, ap micros f),
      rw e (times-Increasing d.1 tps w n.1 (omega (arith, ap micros f))),
    )

-- If the system's clock has moved on, the result is the number of microseconds since the first
-- call modulo 2 ^ 32: it is less than 2 ^ 32, and with a multiple of 2 ^ 32 it leads from the
-- first call to the reading.
pub get_monotime_wraps :
    (c : Clock) (tp : Timespec)
    → IsClock c
    → tp.nsec < 1000000000
    → micros c.last < micros (of_timespec tp)
    → ((get_monotime c tp).0 < 2 ^ 32)
      × (wraps : ℕ) × (micros c.first + (get_monotime c tp).0 + 2 ^ 32 * wraps
          ≡ micros (of_timespec tp))
get_monotime_wraps c tp v n l =
    let (m, t, f, w) = get_monotime-last c tp v n in
    let since = micros (of_timespec tp) - micros c.first in
    (omega (arith, t), since / 2 ^ 32, omega (arith, m, t, v.ordered, l))

-- `micro_to_timeval` gives the normalized time of that many microseconds.
pub micro_to_timeval_lem :
    (us : ℕ) → (micros (micro_to_timeval us) ≡ us) × ((micro_to_timeval us).tv_usec < 1000000)
unfolding micro_to_timeval
micro_to_timeval_lem us = (omega arith, omega arith)
