-- ===== src/Clock.antt =====
-- src/util.c: `get_monotime` and `micro_to_timeval`.
--
-- The static variables are the record `Clock`; what `clock_gettime` reads is an argument. The macros
-- of <sys/time.h> are written out; the subtraction is used only where its result is not negative.
-- A failure of `clock_gettime`, which ends the program, is not modelled.
pub mod Monotone
mod Tests
use lossless_transport.Common.{
  ℕ, ◌+◌, ◌-◌, ◌*◌, ◌/◌, ◌%◌, ◌^◌, Bool, true, false, not, ◌||◌, ltb, leb, ◌==◌, if◌then◌else◌,
}

pub record Timeval : Type 0 where
  pub tv_sec : ℕ
  pub tv_usec : ℕ

pub record Timespec : Type 0 where
  pub sec : ℕ
  pub nsec : ℕ

-- `timercmp (a, b, <)` and `timercmp (a, b, !=)`
abbrev pub timer_lt : Timeval → Timeval → Bool
timer_lt a b = if a.tv_sec == b.tv_sec then ltb a.tv_usec b.tv_usec else ltb a.tv_sec b.tv_sec

abbrev pub timer_ne : Timeval → Timeval → Bool
timer_ne a b =
    if a.tv_sec == b.tv_sec then not (a.tv_usec == b.tv_usec) else not (a.tv_sec == b.tv_sec)

abbrev pub timeradd : Timeval → Timeval → Timeval
timeradd a b =
    let usec = a.tv_usec + b.tv_usec in
    if leb 1000000 usec
    then record { tv_sec = a.tv_sec + b.tv_sec + 1; tv_usec = usec - 1000000 }
    else record { tv_sec = a.tv_sec + b.tv_sec; tv_usec = usec }

abbrev pub timersub : Timeval → Timeval → Timeval
timersub a b =
    if ltb a.tv_usec b.tv_usec
    then record { tv_sec = a.tv_sec - b.tv_sec - 1; tv_usec = a.tv_usec + 1000000 - b.tv_usec }
    else record { tv_sec = a.tv_sec - b.tv_sec; tv_usec = a.tv_usec - b.tv_usec }

pub record Clock : Type 0 where
  pub first_call : Bool
  pub first : Timeval
  pub last : Timeval

-- The statics before the first call.
abbrev pub initial : Clock
initial =
    let zero_time : Timeval = record { tv_sec = 0; tv_usec = 0 } in
    record { first_call = true; first = zero_time; last = zero_time }

abbrev pub of_timespec : Timespec → Timeval
of_timespec tp = record { tv_sec = tp.sec; tv_usec = tp.nsec / 1000 }

-- `now` after the test of `first_call` and of the last time.
unfoldable pub adjust : Clock → Timeval → Timeval
adjust c now =
    if c.first_call
    then now
    else if timer_lt now c.last || not (timer_ne now c.last)
    then timeradd c.last (record { tv_sec = 0; tv_usec = 1 })
    else now

-- The result is converted to `uint32_t`.
unfoldable pub get_monotime : Clock → Timespec → ℕ × Clock
get_monotime c tp =
    let now = of_timespec tp in
    let first = if c.first_call then now else c.first in
    let last = adjust c now in
    let res = timersub last first in
    (
      (res.tv_sec * 1000000 + res.tv_usec) % 2 ^ 32,
      record { first_call = false; first = first; last = last },
    )

unfoldable pub micro_to_timeval : ℕ → Timeval
micro_to_timeval us = record { tv_sec = us / 1000000; tv_usec = us % 1000000 }
