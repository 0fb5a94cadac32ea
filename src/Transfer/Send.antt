-- ===== src/Transfer/Send.antt =====
-- The sender of src/sender.c with no packet in flight: the rest of a round.
use lossless_transport.Common.{
  ℕ, zero, suc, ◌+◌, ◌%◌, ◌<◌, ◌≤◌, ◌≡◌, ◌==◌, refl, sym, ap, ap₂, ◌∙◌, subst, Bool, true, false,
  not, ◌&&◌, List, [], ◌∷◌, ◌++◌, length, take, drop, if◌then◌else◌, returns, arith,
}
use lossless_transport.Clock.{Clock}
use lossless_transport.Packet.{Pkt, max_payload_size}
use lossless_transport.Packet.Wire.Format.{datagram}
use lossless_transport.Window
use lossless_transport.Window.{Window}
use lossless_transport.Window.Buffer.{IsValid}
use lossless_transport.Sender.{Sender, Answers, now, add32, timer, retransmit_packets}
use lossless_transport.Sender.Loop.{finish, send_next}
use lossless_transport.Sender.Data.{Carries, send_next_lem}
use lossless_transport.Sender.Resend.{resend_none, peek_min-nil}
use lossless_transport.Transfer.{idle}
use lossless_transport.Transfer.Listen.{IsFine, flight}

full-idle : (size pos : ℕ) → 0 < size → Window.full (idle size pos) ≡ false
unfolding Window.full
full-idle size pos h = ground arith

if-same : (b : Bool) → (if b then true else false) ≡ b
if-same true = refl
if-same false = refl

module _ (crc32 : ℕ → List ℕ → ℕ) where
  retransmit_packets-idle :
      (fuel : ℕ) (io : Answers) (s : Sender) (size pos : ℕ)
      → s.w ≡ idle size pos
      → 0 < fuel
      → retransmit_packets crc32 fuel io s ≡ returns (now io s).1
  unfolding retransmit_packets now
  retransmit_packets-idle zero io s size pos e h = absurd (omega arith)
  retransmit_packets-idle (suc fuel) io s size pos e h =
      resend_none crc32 fuel io (now io s).0 (now io s).1
        (peek_min-nil s.w (ap (λ (w : Window). w.front) e))

  -- Once the last packet was sent, a round sends nothing more.
  pub finish-eof :
      (fuel : ℕ) (io : Answers) (s : Sender) (size pos : ℕ)
      → s.w ≡ idle size pos
      → 0 < size
      → s.sent_eof ≡ true
      → 0 < fuel
      → finish crc32 fuel io s ≡ returns (now io s).1
  unfolding finish now
  finish-eof fuel io s size pos e a eof h =
      let full = ap Window.full e ∙ full-idle size pos a in
      rw (retransmit_packets-idle fuel io s size pos e h, finish) (rw (full, eof) refl)

  finish-more :
      (fuel : ℕ) (io : Answers) (s u : Sender)
      → retransmit_packets crc32 fuel io s ≡ returns u
      → Window.full u.w ≡ false
      → u.sent_eof ≡ false
      → finish crc32 fuel io s ≡ send_next crc32 io u
  unfolding finish
  finish-more fuel io s u r full eof =
      let go : (not (Window.full u.w) && not u.sent_eof) ≡ true = ground (arith, full, eof) in
      rw (r, finish) (rw go refl)

  -- Otherwise it sends a packet with the next bytes of the file.
  pub finish-sends :
      (fuel : ℕ) (io : Answers) (s : Sender) (size pos : ℕ)
      → IsFine io
      → s.w ≡ idle size pos
      → 0 < size
      → size ≤ 31
      → s.next < 256
      → s.sent_eof ≡ false
      → 0 < fuel
      → let bytes = take max_payload_size s.infile in
        (q : Pkt) × (time : ℕ) × (c : Clock) × (n : ℕ) × Carries q s.next (add32 time timer) bytes
        × (finish crc32 fuel io s
            ≡ returns (record s {
              w = flight size pos q;
              next = (s.next + 1) % 256;
              sent_eof = length bytes == 0;
              infile = drop max_payload_size s.infile;
              clock = c;
              calls = n;
              sent = s.sent ++ datagram crc32 q ∷ [];
            }))
  unfolding now
  finish-sends fuel io s size pos fine e a b l eof h =
      let full = ap Window.full e ∙ full-idle size pos a in
      let u = (now io s).1 in
      let valid : IsValid s.w = subst IsValid (sym e) (omega arith) in
      let bytes = take max_payload_size s.infile in
      let (q, carries, f) =
        send_next_lem crc32 io u valid full l fine.packet fine.node fine.file fine.socket in
      let state : Window → Bool → Sender = λ w b'. record (now io u).1 {
        w = w;
        next = (s.next + 1) % 256;
        sent_eof = b';
        infile = drop max_payload_size s.infile;
        sent = s.sent ++ datagram crc32 q ∷ [];
      } in
      let pushed =
        ap (λ (w : Window). record w { front = q ∷ w.front; bufsize = w.bufsize + 1 }) e in
      let end =
        ap (λ b'. if length bytes == 0 then true else b') eof ∙ if-same (length bytes == 0) in
      (
        q,
        (now io u).0,
        (now io u).1.clock,
        (now io u).1.calls,
        carries,
        finish-more fuel io s u (retransmit_packets-idle fuel io s size pos e h) full eof
            ∙ f
            ∙ ap₂ (λ w b'. returns (state w b')) pushed end,
      )
