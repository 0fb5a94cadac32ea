-- ===== src/Sender/Loop.antt =====
-- src/sender.c: `main_loop`, cut into its parts, and the start and the loop of `main`.
use lossless_transport.Common.{
  ℕ, ◌+◌, ◌%◌, ◌==◌, Bool, true, false, not, ◌&&◌, ◌||◌, some, List, [], ◌∷◌, ◌++◌, ltb,
  if◌then◌else◌, take, drop, length, replicate, Outcome, returns, exits, aborts, ◌>>=◌, ◌>>◌,
  or_exit, check,
}
use lossless_transport.Clock.{initial}
use lossless_transport.Packet.{
  Pkt, pkt_ok, ptype_data, ptype_ack, max_payload_size, max_window_size, pkt_new, get_type,
  get_window, set_type, set_seqnum, set_window, set_timestamp, set_payload,
}
use lossless_transport.Packet.Wire.{decode}
use lossless_transport.Packet.Send.{◌&then◌, filled}
use lossless_transport.Window
use lossless_transport.Window.{Window, done, failed}
use lossless_transport.Sender.{
  Sender, Answers, timer, now, add32, get_timeout, handle_ack, handle_nack, transmit,
  retransmit_packets,
}

unfoldable pub init : Bool → List ℕ → Outcome Sender
init allocated infile = do
  w ← or_exit (Window.create 1 max_window_size 255 allocated)
  returns (record {
    w = w;
    next = 0;
    sent_eof = false;
    infile = infile;
    clock = initial;
    calls = 0;
    sent = [];
  })

-- The wait: `select` with no timeout where nothing can be sent nor is in flight.
unfoldable pub wait : Answers → Sender → Outcome Sender
wait io s =
    if not s.sent_eof && (Window.buffer_size s.w == 0) && (Window.get_size s.w == 0)
    then check io.selected >> returns s
    else do r ← get_timeout io s; check io.selected; returns r.1

-- After an ACK or a NACK the window takes the size that the receiver announced.
unfoldable pub resize_window : Sender → Pkt → Outcome Sender
resize_window s resp =
    let swin = Window.get_max_size s.w in
    let rwin = get_window resp in
    let r = Window.resize s.w (if ltb swin rwin then swin else rwin) in
    elim r.0 [ done ↦ returns (record s { w = r.1 }) | failed ↦ aborts ]

-- A decoded response. The flag tells whether the round goes on: a DATA packet ends it.
unfoldable pub handle_response : Answers → Sender → Pkt → Outcome (Sender × Bool)
handle_response io s resp = if get_type resp == ptype_data then returns (s, false) else do
  t ← if get_type resp == ptype_ack then handle_ack s resp else handle_nack io s resp
  u ← resize_window t resp
  returns (u, true)

-- The new packet of `main_loop` is filled.
unfoldable pub fill_data : Pkt → ℕ → ℕ → List ℕ → ℕ → Outcome Pkt
fill_data p next time buf len = filled (
    set_type p ptype_data
    &then (λ q. set_seqnum q (next % 256))
    &then (λ q. set_window q 0)
    &then (λ q. set_timestamp q (add32 time timer))
    &then λ q. set_payload q (some buf) len)

module _ (crc32 : ℕ → List ℕ → ℕ) where
  -- What is done if the socket is readable.
  unfoldable pub receive : Answers → Sender → Outcome (Sender × Bool)
  receive io s = if not io.ready then returns (s, true) else do
    bytes ← or_exit io.received
    resp ← or_exit (pkt_new io.packet_allocated)
    let d = decode crc32 (some bytes) (length bytes) resp
    elim d.0 [ pkt_ok ↦ handle_response io s d.1 | _ ↦ returns (s, true) ]

  -- The next 512 bytes of the file, or what is left of them, are sent and kept in the buffer.
  unfoldable pub send_next : Answers → Sender → Outcome Sender
  send_next io s = do
    let bytes = take max_payload_size s.infile
    let len = length bytes
    let buf = bytes ++ drop len (replicate max_payload_size 0)
    check (not (ltb len max_payload_size && io.read_error))
    p ← or_exit (pkt_new io.packet_allocated)
    let r = now io s
    q ← fill_data p s.next r.0 buf len
    t ← transmit crc32 io (record r.1 { infile = drop max_payload_size s.infile }) q
    let pushed = Window.push t.w q io.node_allocated
    elim pushed.0 [
      | failed ↦ exits
      | done ↦ returns (record t {
        w = pushed.1;
        next = (s.next + 1) % 256;
        sent_eof = if len == 0 then true else t.sent_eof;
      })
    ]

  -- The rest of a round, after what was received.
  unfoldable pub finish : ℕ → Answers → Sender → Outcome Sender
  finish fuel io s = do
    t ← retransmit_packets crc32 fuel io s
    if not (Window.full t.w) && not t.sent_eof then send_next io t else returns t

  unfoldable pub main_loop : ℕ → Answers → Sender → Outcome Sender
  main_loop fuel io s = do
    s1 ← wait io s
    r ← receive io s1
    if r.1 then finish fuel io r.0 else returns r.0

  -- The loop of `main`, given the answers of its rounds; it goes on until all is acknowledged.
  unfoldable pub rounds : ℕ → List Answers → Sender → Outcome Sender
  rounds fuel [] s = returns s
  rounds fuel (io ∷ ios) s =
      let more = main_loop fuel io s >>= rounds fuel ios in
      if not s.sent_eof || not (Window.empty s.w) then more else returns s
