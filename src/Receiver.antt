-- ===== src/Receiver.antt =====
-- src/receiver.c: the receiver's loop.
--
-- `Receiver` holds the window and the bytes written to the file so far. `main_loop` takes what `recv`
-- gives, NULL standing for its error, and what the system answers to the other calls, and returns
-- the new state with the datagrams that were sent. Logging and `free` are left out; `main` is in the
-- child `Main`.
pub mod Distinct
pub mod Deliver
pub mod Main
pub mod Reply
pub mod Store
pub mod Datagram
pub mod Handle
pub mod Keeps
pub mod Room
pub mod Tidy
pub mod Rounds
mod Tests
use lossless_transport.Common.{
  ℕ, zero, suc, ◌%◌, ◌==◌, Bool, not, ◌||◌, Option, none, some, List, [], ◌∷◌, ◌++◌, ltb,
  if◌then◌else◌, take, length, get_elem?, Outcome, returns, exits, spins, ◌>>=◌, ◌>>◌, or_exit,
  deref, assert, check,
}
use lossless_transport.Packet.{
  Pkt, pkt_ok, ptype_ack, ptype_nack, pkt_new, get_tr, get_seqnum, get_length, get_timestamp,
  get_payload, set_type, set_window, set_seqnum, set_timestamp, max_window_size,
}
use lossless_transport.Packet.Wire.{decode}
use lossless_transport.Packet.Send.{send_packet, ◌&then◌, filled}
use lossless_transport.Window
use lossless_transport.Window.{Window, done, failed}

pub record Receiver : Type 0 where
  pub w : Window
  pub out : List ℕ

-- What the system answers in one round: the allocations of the packet, the reply and the list node,
-- `fwrite`, `fflush` and `send`; and what happens to stand in the local buffer of `send_packet`.
pub record Answers : Type 0 where
  pub packet_allocated : Bool
  pub reply_allocated : Bool
  pub node_allocated : Bool
  pub written : Bool
  pub flushed : Bool
  pub sent : Bool
  pub scratch : List ℕ

-- The window of `main`.
unfoldable pub init : Bool → Outcome Receiver
init allocated = do
  w ← or_exit (Window.create max_window_size max_window_size 255 allocated)
  returns (record { w = w; out = [] })

-- The bytes of a packet that `fwrite` is given: none for a NULL payload, whose length is 0.
unfoldable pub written_bytes : Pkt → List ℕ
written_bytes p = elim (get_payload p) [ none ↦ [] | some bytes ↦ take (get_length p) bytes ]

-- One packet of the loop over in-sequence packets, at position `i` of the buffer: it is written,
-- removed, and the window slides unless the packet is the last one.
unfoldable pub deliver : Answers → Receiver → ℕ → Pkt → Outcome Receiver
deliver io r i p = do
  check (io.written || not (ltb 0 (get_length p)))
  assert (Window.match_timestamp r.w (get_timestamp p) == i)
  let w = (Window.pop_timestamp r.w (get_timestamp p)).1
  returns (record {
    w = if get_length p == 0 then w else Window.slide w;
    out = r.out ++ written_bytes p;
  })

-- The loop, on fuel.
unfoldable pub deliver_all : ℕ → Answers → Receiver → Outcome Receiver
deliver_all zero io r = spins
deliver_all (suc fuel) io r = elim (Window.find_seqnum r.w (Window.start r.w)) [
  | none ↦ returns r
  | some i ↦ deref (get_elem? r.w.front i) >>= λ p. deliver io r i p >>= deliver_all fuel io
]

-- The packet goes into the buffer, unless its number is there or no slot is free.
unfoldable pub store : Answers → Window → Pkt → Outcome Window
store io w p = elim (Window.find_seqnum w (get_seqnum p)) [
  | some i ↦ returns w
  | none ↦
      let r = Window.push w p io.node_allocated in
      elim r.0 [ done ↦ returns r.1 | failed ↦ if Window.full r.1 then returns r.1 else exits ]
]

-- Arguments are converted to `uint8_t`.
unfoldable pub fill_nack : Window → Pkt → Pkt → Outcome Pkt
fill_nack w p reply = filled (
    set_type reply ptype_nack &then (λ q. set_window q (Window.available w % 256)) &then λ q.
    set_seqnum q (get_seqnum p))

unfoldable pub fill_ack : Window → ℕ → Pkt → Outcome Pkt
fill_ack w timestamp reply = filled (
    set_type reply ptype_ack
    &then (λ q. set_window q (Window.available w % 256))
    &then (λ q. set_seqnum q (Window.start w % 256))
    &then λ q. set_timestamp q timestamp)

module _ (crc32 : ℕ → List ℕ → ℕ) where
  unfoldable pub handle_truncated :
      Answers → Receiver → Pkt → Pkt → Outcome (Receiver × List (List ℕ))
  handle_truncated io r p reply = do
    nack ← fill_nack r.w p reply
    bytes ← send_packet crc32 io.scratch nack
    check io.sent
    returns (r, bytes ∷ [])

  -- The fuel is one more than the number of packets in the buffer.
  unfoldable pub handle_complete :
      Answers → Receiver → Pkt → Pkt → Outcome (Receiver × List (List ℕ))
  handle_complete io r p reply = do
    w ← store io r.w p
    let ack_timestamp = get_timestamp p
    r' ← deliver_all (suc (length w.front)) io (record r { w = w })
    assert io.flushed
    ack ← fill_ack r'.w ack_timestamp reply
    bytes ← send_packet crc32 io.scratch ack
    check io.sent
    returns (r', bytes ∷ [])

  -- From the test of the window on.
  unfoldable pub handle_packet : Answers → Receiver → Pkt → Outcome (Receiver × List (List ℕ))
  handle_packet io r p = if not (Window.has r.w (get_seqnum p)) then returns (r, []) else do
    reply ← or_exit (pkt_new io.reply_allocated)
    if not (get_tr p == 0) then handle_truncated io r p reply else handle_complete io r p reply

  unfoldable pub main_loop :
      Answers → Receiver → Option (List ℕ) → Outcome (Receiver × List (List ℕ))
  main_loop io r received = do
    bytes ← or_exit received
    p ← or_exit (pkt_new io.packet_allocated)
    let d = decode crc32 (some bytes) (length bytes) p
    elim d.0 [ pkt_ok ↦ handle_packet io r d.1 | _ ↦ returns (r, []) ]
