-- ===== src/Transfer/Complete.antt =====
-- Whole transfers from src/sender.c to src/receiver.c.
use lossless_transport.Common.{
  ℕ, ◌+◌, ◌-◌, ◌*◌, ◌^◌, ◌<◌, ◌≤◌, ◌≡◌, ◌==◌, refl, sym, ap, ◌∙◌, subst, inl, inr, true, false, not,
  ◌||◌, List, [], ◌∷◌, ◌++◌, length, take, drop, returns, min, arith, Bool-cases, append-nil,
  append_assoc, length-drop, length-take, take-append-drop, length-zero,
}
use lossless_transport.Packet.{max_payload_size}
use lossless_transport.Window
use lossless_transport.Window.{Window}
use lossless_transport.Receiver
use lossless_transport.Receiver.{Receiver}
use lossless_transport.Sender.{Sender, Answers, now}
use lossless_transport.Sender
use lossless_transport.Sender.Loop.{main_loop, wait, receive, finish}
use lossless_transport.Sender.Loop
use lossless_transport.Transfer.{Transfer, Turn, turn, turns, transfer}
use lossless_transport.Transfer.Receive.{awaiting, next_start}
use lossless_transport.Transfer.Listen.{Line, quiet}
use lossless_transport.Transfer.Exchange.{Faultless, turn-Sent, turn-ends}

-- Where nothing is read, nothing is left; else one turn less is enough for the rest.
chunk-zero : (n m : ℕ) → (m == 0) ≡ true → m ≡ min max_payload_size n → n - max_payload_size ≤ 0
chunk-zero n m z e = ground arith

chunk-left :
    (k n m : ℕ)
    → (m == 0) ≡ false
    → m ≡ min max_payload_size n
    → n ≤ max_payload_size * k
    → (1 ≤ k) × (n - max_payload_size ≤ max_payload_size * (k - 1))
chunk-left k n m z e l = ground arith

-- What the transfer comes to.
pub record IsComplete (y : Transfer) (out : List ℕ) : Type 0 where
  pub ended : y.sender.sent_eof ≡ true
  pub emptied : y.sender.w.bufsize ≡ 0
  pub written : y.receiver.out ≡ out

module _ (crc32 : ℕ → List ℕ → ℕ) (bounded : (bytes : List ℕ) → crc32 0 bytes < 2 ^ 32) where
  turns_go :
      (fuel : ℕ) (io : Turn) (ios : List Turn) (y y' : Transfer)
      → (not y.sender.sent_eof || not (Window.empty y.sender.w)) ≡ true
      → turn crc32 fuel io y ≡ returns y'
      → turns crc32 fuel (io ∷ ios) y ≡ turns crc32 fuel ios y'
  unfolding turns
  turns_go fuel io ios y y' more e = rw (more, turns) (rw e refl)

  turns_stop :
      (fuel : ℕ) (ios : List Turn) (y : Transfer)
      → (not y.sender.sent_eof || not (Window.empty y.sender.w)) ≡ false
      → turns crc32 fuel ios y ≡ returns y
  unfolding turns
  turns_stop fuel [] y stop = refl
  turns_stop fuel (io ∷ ios) y stop = rw (stop, turns) refl

  -- From the turn after which the end of the file was sent.
  turns-last :
      (fuel : ℕ) (ios : List Turn) (y : Transfer) (out : List ℕ)
      → 0 < fuel
      → Faultless ios
      → 0 < length ios
      → y.sender.sent_eof ≡ true
      → 0 < y.sender.w.bufsize
      → Line crc32 y.sender.w y.acks
      → y.receiver.out ≡ out
      → (y' : Transfer) × (turns crc32 fuel ios y ≡ returns y') × IsComplete y' out
  unfolding Window.empty
  turns-last fuel [] y out h fine l eof full line rec = absurd (omega arith)
  turns-last fuel (io ∷ ios) y out h fine l eof full line rec =
      let (y', e, eof', empty, same) = turn-ends crc32 bounded fuel io y h fine.0 eof full line in
      let go : (not y.sender.sent_eof || not (Window.empty y.sender.w)) ≡ true =
        ground (arith, full) in
      let stop : (not y'.sender.sent_eof || not (Window.empty y'.sender.w)) ≡ false =
        ground (arith, eof', empty) in
      (
        y',
        turns_go fuel io ios y y' go e ∙ turns_stop fuel ios y' stop,
        record { ended = eof'; emptied = empty; written = ap (λ (r : Receiver). r.out) same ∙ rec },
      )

  -- `k` turns are enough for 512 * `k` bytes, and two more for the end of the file and its
  -- acknowledgement.
  turns-IsComplete :
      (k fuel : ℕ) (ios : List Turn) (y : Transfer) (out : List ℕ)
      → 0 < fuel
      → Faultless ios
      → k + 2 ≤ length ios
      → length y.sender.infile ≤ max_payload_size * k
      → y.sender.next < 256
      → y.sender.sent_eof ≡ false
      → Line crc32 y.sender.w y.acks
      → y.receiver ≡ awaiting y.sender.next out
      → (y' : Transfer) × (turns crc32 fuel ios y ≡ returns y')
        × IsComplete y' (out ++ y.sender.infile)
  turns-IsComplete k fuel [] y out h fine m l n eof line rec = absurd (omega arith)
  turns-IsComplete k fuel (io ∷ ios) y out h fine m l n eof line rec =
      let infile = y.sender.infile in
      let bytes = take max_payload_size infile in
      let (y1, e, d) = turn-Sent crc32 bounded fuel io y out h fine.0 n eof line rec in
      let go : (not y.sender.sent_eof || not (Window.empty y.sender.w)) ≡ true =
        ground (arith, eof) in
      let first = turns_go fuel io ios y y1 go e in
      let join : (out ++ bytes) ++ drop max_payload_size infile ≡ out ++ infile =
        append_assoc out bytes (drop max_payload_size infile)
        ∙ ap (◌++◌ out) (take-append-drop max_payload_size infile) in
      let short = length-take max_payload_size infile in
      let left = length-drop max_payload_size infile in
      let written = ap (λ (r : Receiver). r.out) d.receiver in
      elim (Bool-cases (length bytes == 0)) [
        | inl z ↦
            let nothing : drop max_payload_size infile ≡ [] =
              length-zero (drop max_payload_size infile)
                (omega (arith, left, chunk-zero (length infile) (length bytes) z short)) in
            let all : out ++ bytes ≡ out ++ infile =
              sym (append-nil (out ++ bytes)) ∙ ap (◌++◌ (out ++ bytes)) (sym nothing) ∙ join in
            let (y', f, c) =
              turns-last fuel ios y1 (out ++ infile) h fine.1 (omega arith) (d.ended ∙ z)
                d.in_flight d.line (written ∙ all) in
            (y', first ∙ f, c)
        | inr z ↦
            let next : next_start y.sender.next (length bytes) ≡ y1.sender.next =
              rw z (sym d.next) in
            let (some_turn, fewer) = chunk-left k (length infile) (length bytes) z short l in
            let l1 = ap (λ (xs : List ℕ). length xs) d.infile in
            let (y', f, c) =
              turns-IsComplete (k - 1) fuel ios y1 (out ++ bytes) h fine.1
                (omega (arith, some_turn)) (omega (arith, left, l1, fewer)) (omega (arith, d.next))
                (d.ended ∙ z) d.line (d.receiver ∙ ap (λ m. awaiting m (out ++ bytes)) next) in
            (y', first ∙ f, subst (IsComplete y') (ap (◌++◌ (out ++ bytes)) d.infile ∙ join) c)
      ]

  -- A file of any length is transferred, if the system fails nothing, the results of `crc32` fit
  -- 32 bits, there is fuel, and the network delivers every datagram at once and whole: within one
  -- turn for every 512 bytes, and two more, the end of the file was sent, nothing is left
  -- unacknowledged, and the receiver has written just the bytes of the file.
  pub transfer-IsComplete :
      (fuel : ℕ) (ios : List Turn) (infile : List ℕ)
      → 0 < fuel
      → Faultless ios
      → length infile ≤ max_payload_size * (length ios - 2)
      → 2 ≤ length ios
      → (y : Transfer) × (transfer crc32 fuel ios infile ≡ returns y) × IsComplete y infile
  unfolding transfer Sender.Loop.init Receiver.init Window.create
  transfer-IsComplete fuel ios infile h fine l m =
      turns-IsComplete (length ios - 2) fuel ios _ [] h fine (omega arith) l (omega arith) refl
        (quiet (omega arith) (omega arith) (omega arith)) refl
