-- ===== src/Receiver/Rounds.antt =====
-- The receiver's buffer in every state that the rounds of `main` reach: there is always room for a
-- packet of the window.
use lossless_transport.Common.{
  ℕ, ◌+◌, ◌<◌, ◌≡◌, refl, ap, ◌∙◌, subst, inl, inr, Bool, true, false, Option, none, some, List, [],
  ◌∷◌, length, arith, returns, OnReturn, OnReturn-bind, OnReturn-elim,
}
use lossless_transport.Packet.{Pkt, pkt_ok, pkt_new, get_seqnum}
use lossless_transport.Packet.Fields.{IsWellFormed}
use lossless_transport.Packet.Wire.{decode}
use lossless_transport.Packet.Wire.Checks.{Bytes, decode-IsWellFormed}
use lossless_transport.Window
use lossless_transport.Window.{Window, slide, done}
use lossless_transport.Window.Search.{IsAbsent}
use lossless_transport.Window.Buffer.{push-cases, find_seqnum_lem}
use lossless_transport.Receiver.{Receiver, Answers, init, store, main_loop}
use lossless_transport.Receiver.Main.{rounds}
use lossless_transport.Receiver.Keeps.{main_loop-keeps}
use lossless_transport.Sender.Data.{pkt_new-IsNew}
use lossless_transport.Receiver.Room.{IsTidy-room}
use lossless_transport.Receiver.Tidy.{IsReceiving, IsByte, IsReceiving-IsKept}

-- What is received is made of bytes.
abbrev pub Received : List (Answers × Option (List ℕ)) → Type 0
Received [] = Unit {0}
Received ((io, none) ∷ ios) = Received ios
Received ((io, some bytes) ∷ ios) = Bytes bytes × Received ios

init-IsReceiving : (allocated : Bool) → OnReturn IsReceiving (init allocated)
unfolding init Window.create
init-IsReceiving true = record {
  tidy = record {
    sound = omega arith;
    distinct = record { one = λ i j p q e f g. cc };
    inside = λ j q e. cc;
  };
  circle = refl;
}
init-IsReceiving false = tt

module _ (crc32 : ℕ → List ℕ → ℕ) where
  decoded-IsByte :
      (bytes : List ℕ) (allocated : Bool) (q p : Pkt)
      → Bytes bytes
      → pkt_new allocated ≡ some q
      → decode crc32 (some bytes) (length bytes) q ≡ (pkt_ok, p)
      → IsByte p
  unfolding get_seqnum
  decoded-IsByte bytes allocated q p b n e =
      let w =
        decode-IsWellFormed crc32 bytes (length bytes) q b (omega arith)
          (pkt_new-IsNew allocated n).fits in
      let same : (decode crc32 (some bytes) (length bytes) q).1 ≡ p = ap (λ d. d.1) e in
      let w' = subst IsWellFormed same w in omega (arith, w'.seqnum_fits)

  rounds-IsReceiving :
      (ios : List (Answers × Option (List ℕ))) (r : Receiver)
      → Received ios
      → IsReceiving r
      → OnReturn (λ y. IsReceiving y.0) (rounds crc32 ios r)
  unfolding rounds
  rounds-IsReceiving [] r b v = v
  rounds-IsReceiving ((io, none) ∷ ios) r b v = unfold main_loop in tt
  rounds-IsReceiving ((io, some bytes) ∷ ios) r b v =
      OnReturn-bind (λ y. IsReceiving y.0) (λ y. IsReceiving y.0)
        (main_loop crc32 io r (some bytes)) _
        (main_loop-keeps IsReceiving-IsKept crc32 io r bytes v
          λ q p n e t. decoded-IsByte bytes io.packet_allocated q p b.0 n e)
        λ one x.
          OnReturn-bind (λ y. IsReceiving y.0) (λ y. IsReceiving y.0) (rounds crc32 ios one.0) _
            (rounds-IsReceiving ios one.0 b.1 x) λ rest y. y

  -- In every state that the receiver reaches from its start, whatever bytes it receives and however
  -- the system answers, a packet of the window whose number is not in the buffer is put into the
  -- buffer, if the node can be allocated: the window is never full for it.
  pub rounds-stores :
      (allocated : Bool) (ios : List (Answers × Option (List ℕ))) (r r' : Receiver)
      (sent : List (List ℕ)) (io : Answers) (p : Pkt)
      → init allocated ≡ returns r
      → Received ios
      → rounds crc32 ios r ≡ returns (r', sent)
      → get_seqnum p < 256
      → Window.has r'.w (get_seqnum p) ≡ true
      → IsAbsent get_seqnum (get_seqnum p) r'.w.front
      → io.node_allocated ≡ true
      → store io r'.w p
        ≡ returns (record r'.w { front = p ∷ r'.w.front; bufsize = r'.w.bufsize + 1 })
  unfolding store
  rounds-stores allocated ios r r' sent io p e b f s h a n =
      let v0 = OnReturn-elim IsReceiving (init allocated) (init-IsReceiving allocated) e in
      let v =
        OnReturn-elim (λ y. IsReceiving y.0) (rounds crc32 ios r) (rounds-IsReceiving ios r b v0)
          f in
      let free = IsTidy-room r'.w p v.tidy (omega (arith, v.circle)) h a in
      elim (find_seqnum_lem r'.w (get_seqnum p)) [
        | inr (i, q, first, g) ↦ absurd (a.absent i q first.here first.matches)
        | inl (a', g) ↦ elim (push-cases r'.w p true v.tidy.sound.buffer) [
          | inl (inl z, k) ↦ absurd (omega arith)
          | inl (inr z, k) ↦ cc
          | inr (z, t, k, y) ↦ let k' = ap (Window.push r'.w p) n ∙ k in rw (g, store) (rw (k', k'))
        ]
      ]
