-- ===== src/Sender.antt =====
-- src/sender.c: the sender's state and its handlers; the round itself is in the child `Loop`.
--
-- `Sender` holds the globals, the bytes of the file not yet read, the clock of `get_monotime` with the
-- number of its calls, and the datagrams handed to `send`. `Answers` is what the system answers in
-- one round. Loops take fuel. Logging and `free` are left out.
pub mod Loop
pub mod Resend
pub mod Nack
pub mod Data
pub mod Timer
pub mod Ack
pub mod Main
pub mod Respond
pub mod Expiry
pub mod Documented
pub mod Flight
pub mod Listen
pub mod Running
pub mod Round
mod Tests
use lossless_transport.Common.{
  ℕ, zero, suc, ◌+◌, ◌-◌, ◌%◌, ◌^◌, ◌==◌, Bool, true, false, not, ◌&&◌, ◌||◌, Option, none, some,
  List, [], ◌∷◌, ◌++◌, ltb, leb, if◌then◌else◌, take, drop, length, get_elem?, set, Outcome,
  returns, exits, aborts, faults, spins, ◌>>=◌, ◌>>◌, or_exit, deref, assert, check,
}
use lossless_transport.Clock.{Clock, Timespec, get_monotime}
use lossless_transport.Packet.{Pkt, get_seqnum, get_timestamp, set_timestamp}
use lossless_transport.Packet.Send.{send_packet}
use lossless_transport.Window
use lossless_transport.Window.{Window, done, failed}

-- The retransmission timer, in microseconds.
abbrev pub timer : ℕ
timer = 4500000

pub record Sender : Type 0 where
  pub w : Window
  pub next : ℕ
  pub sent_eof : Bool
  pub infile : List ℕ
  pub clock : Clock
  pub calls : ℕ
  pub sent : List (List ℕ)

-- `reading n` is what the system's clock shows at the call with number `n`; `ready` tells whether
-- `select` found the socket readable, and `received` what `recv` then gives.
pub record Answers : Type 0 where
  pub selected : Bool
  pub ready : Bool
  pub received : Option (List ℕ)
  pub packet_allocated : Bool
  pub node_allocated : Bool
  pub read_error : Bool
  pub send_succeeds : Bool
  pub reading : ℕ → Timespec
  pub scratch : List ℕ

-- `get_monotime ()`
unfoldable pub now : Answers → Sender → ℕ × Sender
now io s =
    let r = get_monotime s.clock (io.reading s.calls) in
    (r.0, record s { clock = r.1; calls = s.calls + 1 })

-- `uint32_t` addition
abbrev pub add32 : ℕ → ℕ → ℕ
add32 a b = (a + b) % 2 ^ 32

-- The time until the closest timer expires.
unfoldable pub time_left : Answers → Sender → Outcome (ℕ × Sender)
time_left io s = do
  p ← deref (Window.peek_min_timestamp s.w)
  let r = now io s
  returns (if ltb r.0 (get_timestamp p) then get_timestamp p - r.0 else 0, r.1)

unfoldable pub get_timeout : Answers → Sender → Outcome (ℕ × Sender)
get_timeout io s =
    if (Window.full s.w && not (Window.empty s.w)) || s.sent_eof
    then time_left io s
    else returns (0, s)

-- The loop of `handle_ack`: it removes the packets with numbers less than `acked`, and notes whether
-- one of them had the timestamp of the acknowledgement. Its assertion compares the packet removed,
-- which is at the position that `window_pop_min_seqnum` finds, with the one peeked at.
unfoldable pub pop_acked : ℕ → ℕ → ℕ → Window → Bool → Outcome (Window × Bool)
pop_acked zero acked time w popped = spins
pop_acked (suc fuel) acked time w popped = elim (Window.peek_min_seqnum w) [
  | none ↦ returns (w, popped)
  | some p ↦
      let peeked = Window.find_min_seqnum w in
      let rest =
        assert (Window.find_min_seqnum w == peeked)
        >> pop_acked fuel acked time (Window.pop_min_seqnum w).1
            (popped || get_timestamp p == time) in
      if ltb (get_seqnum p) acked then rest else returns (w, popped)
]

unfoldable pub handle_ack : Sender → Pkt → Outcome Sender
handle_ack s ack = do
  r ← pop_acked (suc (length s.w.front)) (get_seqnum ack) (get_timestamp ack) s.w false
  elim (Window.slide_to r.0 (get_seqnum ack)) [
    | none ↦ aborts
    | some w ↦
        returns (record s { w = if r.1 then w else (Window.pop_timestamp w (get_timestamp ack)).1 })
  ]

-- The timestamp of the packet in the buffer is set in place.
unfoldable pub handle_nack : Answers → Sender → Pkt → Outcome Sender
handle_nack io s nack =
    if not (Window.has s.w (get_seqnum nack))
    then returns s
    else elim (Window.find_seqnum s.w (get_seqnum nack)) [
      | none ↦ returns s
      | some i ↦ do
        p ← deref (get_elem? s.w.front i)
        let r = now io s
        let w = record s.w { front = set s.w.front i (set_timestamp p r.0).1 }
        returns (record r.1 { w = w })
    ]

module _ (crc32 : ℕ → List ℕ → ℕ) where
  -- `send_packet` and the exit where `send` fails.
  unfoldable pub transmit : Answers → Sender → Pkt → Outcome Sender
  transmit io s p = do
    bytes ← send_packet crc32 io.scratch p
    check io.send_succeeds
    returns (record s { sent = s.sent ++ bytes ∷ [] })

  -- One packet of the loop of `retransmit_packets`, at position `i`: it is rescheduled and then sent
  -- with its new timestamp.
  unfoldable pub retransmit : Answers → Sender → ℕ → Pkt → Outcome Sender
  retransmit io s i p =
      let r = now io s in
      let u = Window.update_timestamp s.w (get_timestamp p) (add32 r.0 timer) in
      elim u.0 [
        | failed ↦ exits
        | done ↦ deref (get_elem? u.1.front i) >>= λ q. transmit io (record r.1 { w = u.1 }) q
      ]

  -- The loop; `loop_now` is the time at its start.
  unfoldable pub retransmit_from : ℕ → Answers → ℕ → Sender → Outcome Sender
  retransmit_from zero io loop_now s = spins
  retransmit_from (suc fuel) io loop_now s = elim (Window.peek_min_timestamp s.w) [
    | none ↦ returns s
    | some p ↦
        let rest =
          retransmit io s (Window.find_min_timestamp s.w) p >>= retransmit_from fuel io loop_now in
        if leb (get_timestamp p) loop_now then rest else returns s
  ]

  unfoldable pub retransmit_packets : ℕ → Answers → Sender → Outcome Sender
  retransmit_packets fuel io s = let r = now io s in retransmit_from fuel io r.0 r.1
