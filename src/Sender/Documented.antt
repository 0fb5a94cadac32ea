-- ===== src/Sender/Documented.antt =====
-- The rule of src/window.h for the time that src/sender.c waits in `select`.
use lossless_transport.Common.{
  ℕ, ◌-◌, ◌<◌, ◌≡◌, ◌⊎◌, inl, inr, false, not, ◌&&◌, ◌||◌, if◌then◌else◌, returns, arith, dec_lt,
  Bool-cases,
}
use lossless_transport.Packet.{Pkt, get_timestamp}
use lossless_transport.Window
use lossless_transport.Window.{peek_min_timestamp, find_min_timestamp}
use lossless_transport.Window.Least.{IsLeast}
use lossless_transport.Window.Buffer.{IsValid, pop_min_timestamp_lem}
use lossless_transport.Sender.{Sender, Answers, get_timeout, time_left, now}

-- The loop is left, `select` wakes up at the first timer, or it does not wait.
pub data Wait : Type 0 where
  breaks_out first_timer no_wait : Wait

unfoldable pub select_timeout : Sender → Wait
select_timeout s =
    if s.sent_eof && Window.empty s.w
    then breaks_out
    else if Window.full s.w || s.sent_eof
    then first_timer
    else no_wait

-- Where the loop of `main` goes on and the window is not closed, `get_timeout` follows the rule: it
-- returns the time until the least timestamp in the buffer, which is not empty, where the rule says to
-- wait for the first timer, and else 0.
pub get_timeout-documented :
    (io : Answers) (s : Sender)
    → IsValid s.w
    → 0 < s.w.size
    → (s.sent_eof ≡ false) ⊎ (0 < s.w.bufsize)
    → ((select_timeout s ≡ no_wait) × (get_timeout io s ≡ returns (0, s)))
      ⊎ ((i : ℕ) × (p : Pkt) × (select_timeout s ≡ first_timer)
          × IsLeast get_timestamp s.w.front i p
          × (get_timeout io s ≡ returns (get_timestamp p - (now io s).0, (now io s).1)))
unfolding select_timeout get_timeout time_left Window.full Window.empty
get_timeout-documented io s v o h = elim (dec_lt 0 s.w.bufsize) [
  | no z ↦ inl (ground arith, ground arith)
  | yes z ↦
      let (p, l, peeks, pops, perm) = pop_min_timestamp_lem s.w v z in
      elim (Bool-cases ((Window.full s.w && not (Window.empty s.w)) || s.sent_eof)) [
        | inl b ↦ inr (find_min_timestamp s.w, p, ground (arith, b), l, ground (arith, peeks))
        | inr b ↦ inl (ground (arith, b), ground (arith, b))
      ]
]
