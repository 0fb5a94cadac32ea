-- ===== src/Transfer/Network/Prefix.antt =====
-- What src/receiver.c writes of the file that src/sender.c reads, over any network.
use lossless_transport.Common.{
  ℕ, ◌*◌, ◌^◌, ◌<◌, ◌≤◌, ◌≡◌, refl, sym, ap, ◌∙◌, subst, inr, Bool, true, false, some, List, [],
  length, take, arith, returns, OnReturn-elim,
}
use lossless_transport.Packet.{
  Pkt, pkt_ok, pkt_new, get_tr, get_seqnum, get_length, get_timestamp, max_payload_size,
}
use lossless_transport.Packet.Wire.{decode}
use lossless_transport.Packet.Wire.Format.{datagram}
use lossless_transport.Packet.Wire.Decode.{received}
use lossless_transport.Window
use lossless_transport.Receiver
use lossless_transport.Receiver.{Receiver}
use lossless_transport.Receiver.Datagram.{decode_received}
use lossless_transport.Sender.{Sender}
use lossless_transport.Sender
use lossless_transport.Sender.Loop
use lossless_transport.Clock.{initial}
use lossless_transport.Transfer.{idle}
use lossless_transport.Transfer.Receive.{awaiting, written-received}
use lossless_transport.Transfer.Network.{
  Reached, starts, sender_round, receiver_round, Arrives, whole, unusable, chunk,
}
use lossless_transport.Transfer.Network.Keeping.{IsSourced, IsSending}
use lossless_transport.Transfer.Network.Reading.{main_loop-Sends}
use lossless_transport.Transfer.Network.Writing.{IsGenuine, IsPrefix, IsPrefix-IsKept}
use lossless_transport.Receiver.Keeps.{main_loop-keeps}

pkt_new-allocated : (b : Bool) {q : Pkt} → pkt_new b ≡ some q → pkt_new true ≡ some q
unfolding pkt_new
pkt_new-allocated true e = e
pkt_new-allocated false e = cc

start-Sends :
    (crc32 : ℕ → List ℕ → ℕ) (infile : List ℕ) {s : Sender}
    → Sender.Loop.init true infile ≡ returns s
    → IsSending crc32 infile s
unfolding Sender.Loop.init Window.create
start-Sends crc32 infile {s} e =
    let s0 : Sender = record {
      w = idle 1 0;
      next = 0;
      sent_eof = false;
      infile = infile;
      clock = initial;
      calls = 0;
      sent = [];
    } in
    let same : s0 ≡ s = cc in
    subst (IsSending crc32 infile) same
      (record { buffer = tt; sent = λ i d f. cc; reading = inr (refl, omega arith) })

start-IsPrefix :
    (infile : List ℕ) {r : Receiver} → Receiver.init true ≡ returns r → IsPrefix infile r
unfolding Receiver.init Window.create
start-IsPrefix infile {r} e =
    let r0 : Receiver = awaiting 0 [] in
    let same : r0 ≡ r = cc in
    subst (IsPrefix infile) same (record {
      window = record { circle = refl; within = omega arith; buffer = tt };
      written = refl;
    })

module _ (crc32 : ℕ → List ℕ → ℕ) (bounded : (bytes : List ℕ) → crc32 0 bytes < 2 ^ 32)
    (infile : List ℕ) where
  received-IsGenuine : (q : Pkt) → IsSourced infile q → IsGenuine infile (received crc32 bounded q)
  unfolding get_seqnum get_length get_tr
  received-IsGenuine q c = record {
    loaded =
        written-received crc32 bounded q (get_seqnum q) (get_timestamp q)
          (chunk infile (get_seqnum q)) c;
    sized = c.sized;
  }

  -- What arrives is a packet of the file, or is not used.
  Arrives-IsGenuine :
      (s : Sender) (d : List ℕ)
      → IsSending crc32 infile s
      → Arrives crc32 s.sent d
      → (q p : Pkt) → pkt_new true ≡ some q
      → decode crc32 (some d) (length d) q ≡ (pkt_ok, p)
      → get_tr p ≡ 0
      → IsGenuine infile p
  Arrives-IsGenuine s d v (unusable u) q p n e t = absurd (u.truncated q p n e t)
  Arrives-IsGenuine s d v (whole i f) q p n e t =
      let (x, c, same) = v.sent i d f in
      let g : decode crc32 (some (datagram crc32 x)) (length (datagram crc32 x)) q ≡ (pkt_ok, p) =
        subst (λ b. decode crc32 (some b) (length b) q ≡ (pkt_ok, p)) same e in
      let h = sym (decode_received crc32 bounded x q c.sendable n) ∙ g in
      let k : received crc32 bounded x ≡ p = ap (λ r. r.1) h in
      subst (IsGenuine infile) k (received-IsGenuine x c)

  Reached-IsPrefix :
      {s : Sender} {r : Receiver}
      → length infile ≤ 255 * max_payload_size
      → Reached crc32 infile s r
      → IsSending crc32 infile s × IsPrefix infile r
  Reached-IsPrefix small (starts e f) = (start-Sends crc32 infile e, start-IsPrefix infile f)
  Reached-IsPrefix small (sender_round {s} fuel io z e) =
      let (v, u) = Reached-IsPrefix small z in
      (
        OnReturn-elim (IsSending crc32 infile) _ (main_loop-Sends crc32 infile fuel io s small v) e,
        u,
      )
  Reached-IsPrefix small (receiver_round {s} {r} {d} io z a e) =
      let (v, u) = Reached-IsPrefix small z in
      (
        v,
        OnReturn-elim (λ y. IsPrefix infile y.0) _
            (main_loop-keeps (IsPrefix-IsKept infile small) crc32 io r d u λ q p n f t.
              Arrives-IsGenuine s d v a q p (pkt_new-allocated io.packet_allocated n) f t)
            e,
      )

  -- The network may lose, repeat, delay, reorder and cut datagrams, and damage them so that a check
  -- fails; what the sender receives may be anything. At every moment the receiver has written just
  -- the bytes of the file that come before the packet with the number at which its window starts.
  -- It holds if the file fits 255 packets, so that no number is used twice for bytes of the file,
  -- and the results of `crc32` fit 32 bits.
  pub Reached-prefix :
      {s : Sender} {r : Receiver}
      → length infile ≤ 255 * max_payload_size
      → Reached crc32 infile s r
      → r.out ≡ take (max_payload_size * r.w.pos) infile
  Reached-prefix small z = (Reached-IsPrefix small z).1.written
