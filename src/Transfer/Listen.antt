-- ===== src/Transfer/Listen.antt =====
-- The sender of src/sender.c with at most one packet in flight: the wait, and the acknowledgement.
use lossless_transport.Common.{
  ℕ, ◌^◌, ◌<◌, ◌≤◌, ◌≡◌, ◌==◌, ◌||◌, refl, sym, ap, ap₂, ◌∙◌, subst, ◌⊎◌, inl, inr, true, false,
  not, ◌&&◌, some, none, List, [], ◌∷◌, length, returns, ◌>>◌, check, arith, Bool-cases, dec_lt,
  min,
}
use lossless_transport.Clock.{Clock}
use lossless_transport.Packet.{
  Pkt, pkt_ok, ptype_ack, ptype_data, pkt_new, get_type, get_seqnum, get_timestamp, get_window,
}
use lossless_transport.Packet.Wire.{decode}
use lossless_transport.Packet.Wire.Format.{datagram}
use lossless_transport.Packet.Wire.Decode.{received}
use lossless_transport.Window
use lossless_transport.Window.{Window, peek_min_seqnum, pop_min_seqnum}
use lossless_transport.Window.Buffer.{IsValid}
use lossless_transport.Receiver.Reply.{Answer, pkt_new-IsNew}
use lossless_transport.Receiver.Datagram.{decode_received}
use lossless_transport.Sender.{Sender, Answers, now, handle_ack}
use lossless_transport.Sender.Loop.{wait, receive, handle_response}
use lossless_transport.Sender.Timer.{get_timeout_safe}
use lossless_transport.Sender.Respond.{resize_window_lem}
use lossless_transport.Sender.Ack.{pop_acked_go, pop_acked_stop, pop_acked-none}
use lossless_transport.Transfer.{idle, heard}

-- One packet in flight.
abbrev pub flight : ℕ → ℕ → Pkt → Window
flight size pos q = record (idle size pos) { front = q ∷ []; bufsize = 1 }

-- The system fails nothing.
pub record IsFine (io : Answers) : Type 0 where
  pub selected : io.selected ≡ true
  pub packet : io.packet_allocated ≡ true
  pub node : io.node_allocated ≡ true
  pub file : io.read_error ≡ false
  pub socket : io.send_succeeds ≡ true

-- The wait changes the clock at most.
pub wait-clock :
    (io : Answers) (s : Sender)
    → IsValid s.w
    → (s.sent_eof ≡ false) ⊎ (0 < s.w.bufsize)
    → io.selected ≡ true
    → (c : Clock) × (n : ℕ) × (wait io s ≡ returns (record s { clock = c; calls = n }))
unfolding wait now
wait-clock io s v h e =
    elim (Bool-cases
      (not s.sent_eof && (Window.buffer_size s.w == 0) && (Window.get_size s.w == 0))) [
        | inl b ↦ (s.clock, s.calls, rw (b, wait) (ap (λ b. check b >> returns s) e))
        | inr b ↦ elim (get_timeout_safe io s v h) [
          | inl f ↦ (s.clock, s.calls, rw (b, wait) (rw (f, e)))
          | inr (i, p, l, f) ↦ ((now io s).1.clock, (now io s).1.calls, rw (b, wait) (rw (f, e)))
        ]
      ]

peek-flight : (size pos : ℕ) (q : Pkt) → peek_min_seqnum (flight size pos q) ≡ some q
unfolding peek_min_seqnum Window.find_min_seqnum Window.find_min Window.min_from
peek-flight size pos q = ground arith

pop-flight : (size pos : ℕ) (q : Pkt) → (pop_min_seqnum (flight size pos q)).1 ≡ idle size pos
unfolding pop_min_seqnum Window.find_min_seqnum Window.find_min Window.min_from Window.pop_node
pop-flight size pos q = ground arith

pop_timestamp-flight :
    (size pos time : ℕ) (q : Pkt)
    → (Window.pop_timestamp (flight size pos q) time).1 ≡ idle size pos
unfolding Window.pop_timestamp Window.match_timestamp Window.match_from Window.pop_node
pop_timestamp-flight size pos time q = ground arith

peek-idle : (size pos : ℕ) → peek_min_seqnum (idle size pos) ≡ none
unfolding peek_min_seqnum
peek-idle size pos = refl

-- An acknowledgement with the timestamp of the packet in flight removes it, by its number or by its
-- timestamp.
handle_ack-flight :
    (s : Sender) (size pos : ℕ) (q a : Pkt)
    → get_seqnum a < 256
    → get_timestamp a ≡ get_timestamp q
    → handle_ack (record s { w = flight size pos q }) a
      ≡ returns (record s { w = idle size (get_seqnum a) })
unfolding handle_ack Window.slide_to
handle_ack-flight s size pos q a l e =
    let n = get_seqnum a in
    let t = get_timestamp a in
    let w = flight size pos q in
    elim (dec_lt (get_seqnum q) n) [
      | yes k ↦
          let go =
            pop_acked_go 1 n t w (idle size pos) false (peek-flight size pos q)
              (pop-flight size pos q) k
            ∙ pop_acked-none 0 n t (idle size pos) (false || get_timestamp q == t)
                (peek-idle size pos) in
          let met : (false || get_timestamp q == t) ≡ true = ground (arith, e) in
          rw (go, handle_ack) (rw met (ground (arith, l)))
      | no k ↦
          let stop = pop_acked_stop 1 n t w false (peek-flight size pos q) (omega arith) in
          let pops = pop_timestamp-flight size n t q in
          rw (stop, handle_ack) (ground (arith, l, pops))
    ]

-- What is in flight: nothing, and no acknowledgement; or a packet, and the acknowledgement that
-- answers it.
pub data Line (crc32 : ℕ → List ℕ → ℕ) : Window → List (List ℕ) → Type 0 where
  quiet : {size pos : ℕ} → 0 < size → size ≤ 31 → pos < 256 → Line crc32 (idle size pos) []
  answered :
      {size pos seqnum : ℕ} {q a : Pkt}
      → pos < 256
      → size ≤ 31
      → seqnum < 256
      → Answer a ptype_ack seqnum 31 (get_timestamp q)
      → Line crc32 (flight size pos q) (datagram crc32 a ∷ [])

module _ (crc32 : ℕ → List ℕ → ℕ) (bounded : (bytes : List ℕ) → crc32 0 bytes < 2 ^ 32) where
  handle_response-ack :
      (io : Answers) (s t : Sender) (a : Pkt)
      → get_type a ≡ ptype_ack
      → handle_ack s a ≡ returns t
      → handle_response io s a
        ≡ returns (record t { w = record t.w { size = min t.w.capacity (get_window a) } }, true)
  unfolding handle_response
  handle_response-ack io s t a e f =
      let other : (get_type a == ptype_data) ≡ false = ground (arith, e) in
      let ack : (get_type a == ptype_ack) ≡ true = ground (arith, e) in
      rw (other, handle_response) (rw (ack, f) (rw (resize_window_lem t a) refl))

  receive_go :
      (io : Answers) (s : Sender) (bytes : List ℕ) (q p : Pkt)
      → io.ready ≡ true
      → io.received ≡ some bytes
      → pkt_new io.packet_allocated ≡ some q
      → decode crc32 (some bytes) (length bytes) q ≡ (pkt_ok, p)
      → receive crc32 io s ≡ handle_response io s p
  unfolding receive
  receive_go io s bytes q p r b n d = cc

  receive-flight :
      (io : Answers) (s : Sender) (size pos n : ℕ) (q a : Pkt)
      → io.packet_allocated ≡ true
      → n < 256
      → Answer a ptype_ack n 31 (get_timestamp q)
      → receive crc32 (heard io (datagram crc32 a ∷ [])) (record s { w = flight size pos q })
        ≡ returns (record s { w = idle 31 n }, true)
  unfolding get_type get_seqnum get_timestamp get_window
  receive-flight io s size pos n q a m l y =
      let (reply, e, new) = pkt_new-IsNew in
      let u = received crc32 bounded a in
      let t : Sender = record s { w = flight size pos q } in
      let acks = handle_ack-flight s size pos q u (omega (arith, l, y.numbered)) y.timed in
      receive_go (heard io (datagram crc32 a ∷ [])) t (datagram crc32 a) reply u refl refl
        (ap pkt_new m ∙ e) (decode_received crc32 bounded a reply y.sendable e)
      ∙ handle_response-ack (heard io (datagram crc32 a ∷ [])) t _ u y.typed acks
      ∙ ap₂ (λ r k. returns (record s { w = idle (min 31 r) k }, true)) y.announced y.numbered

  -- Up to the response, a round changes the window and the clock alone: the acknowledgement removes
  -- the packet in flight.
  pub listens :
      (io : Answers) (s : Sender) (acks : List (List ℕ))
      → IsFine io
      → Line crc32 s.w acks
      → (s.sent_eof ≡ false) ⊎ (0 < s.w.bufsize)
      → (s1 : Sender) × (size pos n : ℕ) × (c : Clock) × (0 < size)
        × (size ≤ 31)
        × (pos < 256)
        × (wait (heard io acks) s ≡ returns s1)
        × (receive crc32 (heard io acks) s1
            ≡ returns (record s { w = idle size pos; clock = c; calls = n }, true))
  unfolding receive
  listens io s acks fine line h = go s.w acks line refl
    where
      go :
          (w : Window) (acks : List (List ℕ))
          → Line crc32 w acks
          → s.w ≡ w
          → (s1 : Sender) × (size pos n : ℕ) × (c : Clock) × (0 < size)
            × (size ≤ 31)
            × (pos < 256)
            × (wait (heard io acks) s ≡ returns s1)
            × (receive crc32 (heard io acks) s1
                ≡ returns (record s { w = idle size pos; clock = c; calls = n }, true))
      go w acks (quiet {size} {pos} a b d) e =
          let valid : IsValid s.w = subst IsValid (sym e) (omega arith) in
          let (c, n, f) = wait-clock (heard io []) s valid h fine.selected in
          (
            record s { clock = c; calls = n },
            size,
            pos,
            n,
            c,
            a,
            b,
            d,
            f,
            ap (λ (u : Window). returns (record s { w = u; clock = c; calls = n }, true)) e,
          )
      go w acks (answered {size} {pos} {seqnum} {q} {a} d b l y) e =
          let valid : IsValid s.w = subst IsValid (sym e) (omega arith) in
          let (c, n, f) = wait-clock (heard io (datagram crc32 a ∷ [])) s valid h fine.selected in
          let same =
            ap
              (λ (u : Window).
                receive crc32 (heard io (datagram crc32 a ∷ []))
                  (record s { w = u; clock = c; calls = n }))
              e in
          (
            record s { clock = c; calls = n },
            31,
            seqnum,
            n,
            c,
            omega arith,
            omega arith,
            l,
            f,
            same
                ∙ receive-flight io (record s { clock = c; calls = n }) size pos seqnum q a
                    fine.packet l y,
          )
