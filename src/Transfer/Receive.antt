-- ===== src/Transfer/Receive.antt =====
-- The receiver of src/receiver.c with an empty buffer, and the packet that it waits for.
use lossless_transport.Common.{
  ℕ, zero, suc, get_elem?, ◌+◌, ◌%◌, ◌^◌, ◌<◌, ◌≤◌, ◌≡◌, ◌==◌, refl, sym, ap, ap₂, ◌∙◌, subst, true,
  inl, inr, some, List, [], ◌∷◌, ◌++◌, length, take, replicate, if◌then◌else◌, returns, arith,
  htonl, htonl-htonl, htonl-lt, Bool-cases, length-take, length-zero, ◌-◌, take-append,
}
use lossless_transport.Packet.{
  Pkt, ptype_ack, get_tr, get_seqnum, get_timestamp, get_length, get_payload, max_payload_size,
}
use lossless_transport.Packet.Wire.Format.{datagram}
use lossless_transport.Packet.Wire.Decode.{received}
use lossless_transport.Window
use lossless_transport.Window.{Window, find_seqnum, push, available}
use lossless_transport.Window.Invariant.{IsSound}
use lossless_transport.Window.Range.{has-nth}
use lossless_transport.Sender.Data.{Carries}
use lossless_transport.Receiver.{Receiver, Answers, main_loop, store, deliver_all, written_bytes}
use lossless_transport.Receiver.Reply.{
  Answer, pkt_new-IsNew, reply_packet, reply_packet-Answer, fill_ack_lem,
}
use lossless_transport.Receiver.Deliver.{DistinctTimes, after_packet, deliver_lem, deliver_all_go}
use lossless_transport.Receiver.Datagram.{
  IsWell, handle_complete_go, handle_packet_whole, main_loop-datagram,
}
use lossless_transport.Transfer.{idle}

-- The receiver with an empty buffer.
abbrev pub awaiting : ℕ → List ℕ → Receiver
awaiting pos out = record { w = idle 31 pos; out = out }

-- The receiver's start of the window after a packet of `n` bytes.
abbrev pub next_start : ℕ → ℕ → ℕ
next_start pos n = if n == 0 then pos else (pos + 1) % 256

abbrev holding : ℕ → Pkt → Window
holding pos p = record (idle 31 pos) { front = p ∷ []; bufsize = 1 }

store-awaiting :
    (io : Answers) (pos : ℕ) (p : Pkt)
    → io.node_allocated ≡ true
    → store io (idle 31 pos) p ≡ returns (holding pos p)
unfolding store find_seqnum Window.find_from push Window.full
store-awaiting io pos p e = rw e (ground arith)

position-zero : (p q : Pkt) (i : ℕ) → get_elem? (p ∷ []) i ≡ some q → i ≡ 0
position-zero p q zero e = refl
position-zero p q (suc i) e = cc

one-DistinctTimes : (p : Pkt) → DistinctTimes (p ∷ [])
one-DistinctTimes p = record {
  one = λ i j q r e f g. position-zero p q i e ∙ sym (position-zero p r j f);
}

holding-IsSound : (pos : ℕ) (p : Pkt) → pos < 256 → IsSound (holding pos p)
holding-IsSound pos p l = omega arith

after-holding :
    (pos : ℕ) (p : Pkt)
    → pos < 256
    → after_packet (holding pos p) 0 p ≡ idle 31 (next_start pos (get_length p))
unfolding Window.slide
after-holding pos p l = ground arith

find-holding : (pos : ℕ) (p : Pkt) → get_seqnum p ≡ pos → find_seqnum (holding pos p) pos ≡ some 0
unfolding find_seqnum Window.find_from
find-holding pos p n = ground (arith, n)

deliver-idle :
    (io : Answers) (pos : ℕ) (out : List ℕ)
    → deliver_all 1 io (awaiting pos out) ≡ returns (awaiting pos out)
unfolding deliver_all find_seqnum Window.find_from
deliver-idle io pos out = refl

deliver-one :
    (io : Answers) (pos : ℕ) (p : Pkt) (out : List ℕ)
    → io.written ≡ true
    → pos < 256
    → get_seqnum p ≡ pos
    → deliver_all 2 io (record { w = holding pos p; out = out })
      ≡ returns (awaiting (next_start pos (get_length p)) (out ++ written_bytes p))
unfolding Window.start
deliver-one io pos p out e l n =
    let r : Receiver = record { w = holding pos p; out = out } in
    let r' : Receiver = record {
      w = after_packet (holding pos p) 0 p;
      out = out ++ written_bytes p;
    } in
    deliver_all_go 1 io r r' 0 p (find-holding pos p n) refl
      (deliver_lem io r 0 p (holding-IsSound pos p l) (one-DistinctTimes p) e refl)
    ∙ ap (λ (w : Window). deliver_all 1 io (record { w = w; out = out ++ written_bytes p }))
        (after-holding pos p l)
    ∙ deliver-idle io (next_start pos (get_length p)) (out ++ written_bytes p)

available-idle : (pos : ℕ) → available (idle 31 pos) ≡ 31
unfolding available
available-idle pos = refl

has-idle : (size pos : ℕ) → 0 < size → size ≤ 31 → pos < 256 → Window.has (idle size pos) pos ≡ true
has-idle size pos a b l =
    (has-nth (idle size pos) pos (omega arith) (omega arith)).1 (0, a, omega arith)

module _ (crc32 : ℕ → List ℕ → ℕ) (bounded : (bytes : List ℕ) → crc32 0 bytes < 2 ^ 32) where
  pub written-received :
      (q : Pkt) (k time : ℕ) (bytes : List ℕ)
      → Carries q k time bytes
      → written_bytes (received crc32 bounded q) ≡ bytes
  unfolding written_bytes get_payload get_length
  written-received q k time bytes c =
      let len = get_length q in
      let n = length-take len q.payload in
      let loaded : take len q.payload ≡ bytes =
        subst (λ m. take m q.payload ≡ bytes) (sym c.sized) c.loaded in
      let short : len ≡ length (take len q.payload) = c.sized ∙ ap length (sym loaded) in
      elim (Bool-cases (len == 0)) [
        | inl z ↦
            let zero_bytes : bytes ≡ [] = length-zero bytes (ground (arith, z, c.sized)) in
            rw (z, written_bytes, get_payload) (sym zero_bytes)
        | inr z ↦
            rw (z, written_bytes, get_payload)
              (take-append len (take len q.payload) (replicate (max_payload_size - len) 0) short
                ∙ loaded)
      ]

  sized-received :
      (q : Pkt) (k time : ℕ) (bytes : List ℕ)
      → Carries q k time bytes
      → get_length (received crc32 bounded q) ≡ length bytes
  unfolding get_length
  sized-received q k time bytes c = c.sized

  -- The receiver with an empty buffer that is sent the packet with the number that it waits for:
  -- it writes the bytes, and acknowledges them.
  pub main_loop-awaited :
      (io : Answers) (k : ℕ) (out : List ℕ) (q : Pkt) (time : ℕ) (bytes : List ℕ)
      → IsWell io
      → k < 256
      → Carries q k time bytes
      → (a : Pkt) × Answer a ptype_ack (next_start k (length bytes)) 31 time
        × (main_loop crc32 io (awaiting k out) (some (datagram crc32 q))
            ≡ returns
                (awaiting (next_start k (length bytes)) (out ++ bytes), datagram crc32 a ∷ []))
  unfolding get_timestamp get_seqnum get_tr
  main_loop-awaited io k out q time bytes w l c =
      let (reply, e, n) = pkt_new-IsNew in
      let u = received crc32 bounded q in
      let k' = next_start k (length bytes) in
      let l' : k' < 256 = ground arith in
      let stores = store-awaiting io k u w.node in
      let a = reply_packet reply ptype_ack k' 31 (htonl time) in
      let t : time < 2 ^ 32 = subst (λ n. n < 2 ^ 32) c.timed (htonl-lt q.timestamp) in
      let x =
        reply_packet-Answer reply ptype_ack k' 31 (htonl time) n (omega arith) (omega arith) l'
          (omega arith) (htonl-lt time) in
      let y = subst (Answer a ptype_ack k' 31) (htonl-htonl time t) x in
      let here =
        subst (λ n. Window.has (idle 31 k) n ≡ true) (sym c.numbered)
          (has-idle 31 k (omega arith) (omega arith) l) in
      let delivers : deliver_all 2 io (record { w = holding k u; out = out })
          ≡ returns (awaiting k' (out ++ bytes)) =
        deliver-one io k u out w.file l c.numbered
        ∙ ap₂ (λ n bs. returns (awaiting (next_start k n) (out ++ bs)))
            (sized-received q k time bytes c) (written-received q k time bytes c) in
      (
        a,
        y,
        main_loop-datagram crc32 bounded io (awaiting k out) q w.packet c.sendable
            ∙ handle_packet_whole crc32 io (awaiting k out) u reply w.reply e here c.whole
            ∙ handle_complete_go crc32 io (awaiting k out) (awaiting k' (out ++ bytes)) u reply a
                (holding k u) w stores delivers
                (fill_ack_lem (idle 31 k') (get_timestamp u) reply
                    (omega (arith, available-idle k')) l'
                  ∙ ap₂ (λ m t. returns (reply_packet reply ptype_ack k' m (htonl t)))
                      (available-idle k') c.timed)
                y.sendable,
      )
