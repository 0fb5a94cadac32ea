-- ===== src/Transfer/Repeat.antt =====
-- A packet that src/sender.c sends again after src/receiver.c has written it.
use lossless_transport.Common.{
  ℕ, ◌+◌, ◌%◌, ◌^◌, ◌<◌, ◌≤◌, ◌≡◌, refl, sym, ap, ◌∙◌, subst, inl, inr, false, some, List, [], ◌∷◌,
  ◌++◌, length, returns, arith, Bool-cases,
}
use lossless_transport.Packet.{Pkt, ptype_ack}
use lossless_transport.Packet.Wire.Format.{datagram}
use lossless_transport.Window
use lossless_transport.Window.{Window}
use lossless_transport.Window.Range.{has-nth}
use lossless_transport.Sender.Data.{Carries}
use lossless_transport.Receiver.{Receiver, Answers, main_loop}
use lossless_transport.Receiver.Main.{rounds}
use lossless_transport.Receiver.Reply.{Answer}
use lossless_transport.Receiver.Datagram.{IsWell, main_loop-silent}
use lossless_transport.Transfer.{idle}
use lossless_transport.Transfer.Receive.{awaiting, next_start, main_loop-awaited}

before_start : (k j : ℕ) → k < 256 → j < 31 → ((k + 1) % 256 + j) % 256 ≡ k → 1 ≤ 0
before_start k j l h e = omega arith

-- The number before the start of the window is not in it.
has-before : (k : ℕ) → k < 256 → Window.has (idle 31 ((k + 1) % 256)) k ≡ false
has-before k l = elim (Bool-cases (Window.has (idle 31 ((k + 1) % 256)) k)) [
  | inr f ↦ f
  | inl t ↦
      let (j, h, e) = (has-nth (idle 31 ((k + 1) % 256)) k (omega arith) (omega arith)).0 t in
      absurd (omega (arith, before_start k j l h e))
]

module _ (crc32 : ℕ → List ℕ → ℕ) (bounded : (bytes : List ℕ) → crc32 0 bytes < 2 ^ 32) where
  rounds_two :
      (io io' : Answers) (r r' : Receiver) (d d' : List ℕ) (replies : List (List ℕ))
      → main_loop crc32 io r (some d) ≡ returns (r', replies)
      → main_loop crc32 io' r' (some d') ≡ returns (r', [])
      → rounds crc32 ((io, some d) ∷ (io', some d') ∷ []) r ≡ returns (r', replies ++ [])
  unfolding rounds
  rounds_two io io' r r' d d' replies e f = rw (e, rounds) (rw f refl)

  -- The receiver, with an empty buffer and a system that fails nothing, writes and acknowledges a
  -- packet with data that it waits for; but when the same data is sent again under the same
  -- number, as it is with another timestamp after the acknowledgement was lost, it writes nothing
  -- and answers nothing, since the number is out of its window.
  pub rounds-repeated :
      (io io' : Answers) (k : ℕ) (out : List ℕ) (q q' : Pkt) (time time' : ℕ) (bytes : List ℕ)
      → IsWell io
      → IsWell io'
      → k < 256
      → Carries q k time bytes
      → Carries q' k time' bytes
      → 0 < length bytes
      → (a : Pkt) × Answer a ptype_ack ((k + 1) % 256) 31 time
        × (rounds crc32
              ((io, some (datagram crc32 q)) ∷ (io', some (datagram crc32 q')) ∷ [])
              (awaiting k out)
            ≡ returns (awaiting ((k + 1) % 256) (out ++ bytes), datagram crc32 a ∷ []))
  rounds-repeated io io' k out q q' time time' bytes w w' l c c' some_bytes =
      let moved : next_start k (length bytes) ≡ (k + 1) % 256 = ground (arith, some_bytes) in
      let (a, answer, e) = main_loop-awaited crc32 bounded io k out q time bytes w l c in
      let r' = awaiting ((k + 1) % 256) (out ++ bytes) in
      let out_of_window =
        subst (λ n. Window.has (idle 31 ((k + 1) % 256)) n ≡ false) (sym c'.numbered)
          (has-before k l) in
      let f = main_loop-silent crc32 bounded io' r' q' w'.packet c'.sendable out_of_window in
      (
        a,
        subst (λ n. Answer a ptype_ack n 31 time) moved answer,
        rounds_two io io' (awaiting k out) r' (datagram crc32 q) (datagram crc32 q')
            (datagram crc32 a ∷ [])
            (e ∙ ap (λ n. returns (awaiting n (out ++ bytes), datagram crc32 a ∷ [])) moved) f,
      )
