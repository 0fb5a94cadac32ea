-- ===== src/Clock/Tests.antt =====
-- The clock's theorems at concrete readings.
use lossless_transport.Common.{
  ap, ℕ, ◌+◌, ◌*◌, ◌^◌, ◌<◌, ◌≡◌, refl, List, [], ◌∷◌, false, arith, ℕ_discrete, dec_lt,
}
use lossless_transport.Clock.{Timespec, Clock, adjust, get_monotime}
use lossless_transport.Clock.Monotone.{
  IsClock, Normal, Increasing, micros, times, after, times-Increasing, get_monotime_wraps,
}

abbrev running : Clock
running = record {
  first_call = false;
  first = record { tv_sec = 100; tv_usec = 999999 };
  last = record { tv_sec = 101; tv_usec = 5 };
}

running-IsClock : IsClock running
running-IsClock = record {
  started = refl;
  first_in = omega arith;
  last_in = omega arith;
  ordered = omega arith;
}

-- The system's clock stands still, goes back, and moves on.
abbrev readings : List Timespec
readings =
    record { sec = 101; nsec = 5000 }
    ∷ record { sec = 90; nsec = 0 }
    ∷ record { sec = 102; nsec = 0 }
    ∷ []

readings-Normal : Normal readings
readings-Normal = (omega arith, (omega arith, (omega arith, tt)))

after-readings :
    after running readings ≡ record running { last = record { tv_sec = 102; tv_usec = 0 } }
unfolding after get_monotime adjust ℕ_discrete dec_lt
after-readings = refl

times-Increasing_example : Increasing 6 (times running readings)
times-Increasing_example =
    times-Increasing running readings running-IsClock readings-Normal
      (omega (arith, ap (λ c. micros c.last) after-readings))

-- 2 ^ 32 + 5 microseconds after the first call
abbrev late : Timespec
late = record { sec = 4395; nsec = 967300000 }

get_monotime_wraps_example :
    ((get_monotime running late).0 < 2 ^ 32)
    × (wraps : ℕ) × (100999999 + (get_monotime running late).0 + 2 ^ 32 * wraps ≡ 4395967300)
get_monotime_wraps_example =
    get_monotime_wraps running late running-IsClock (omega arith) (omega arith)
