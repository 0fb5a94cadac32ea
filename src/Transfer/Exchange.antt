-- ===== src/Transfer/Exchange.antt =====
-- One turn of src/sender.c and src/receiver.c.
use lossless_transport.Common.{
  ℕ, ◌+◌, ◌%◌, ◌^◌, ◌<◌, ◌≡◌, ◌==◌, refl, sym, ap, ◌∙◌, subst, inl, inr, true, false, some, List,
  [], ◌∷◌, ◌++◌, map, length, take, drop, returns, arith, append-nil, drop-append,
}
use lossless_transport.Packet.{ptype_ack, max_payload_size}
use lossless_transport.Packet.Wire.Format.{datagram}
use lossless_transport.Window.{Window}
use lossless_transport.Receiver
use lossless_transport.Receiver.{Receiver}
use lossless_transport.Receiver.Main
use lossless_transport.Receiver.Datagram.{IsWell}
use lossless_transport.Receiver.Reply.{Answer}
use lossless_transport.Sender.{Sender, Answers, now}
use lossless_transport.Sender.Loop.{main_loop, wait, receive, finish}
use lossless_transport.Transfer.{Transfer, Turn, idle, heard, turn}
use lossless_transport.Transfer.Receive.{awaiting, next_start, main_loop-awaited}
use lossless_transport.Transfer.Listen.{IsFine, Line, quiet, answered, flight, listens}
use lossless_transport.Transfer.Send.{finish-eof, finish-sends}

-- The system fails nothing in a turn.
pub record IsFaultless (io : Turn) : Type 0 where
  pub sends : IsFine io.sends
  pub receives : IsWell io.receives

heard-IsFine : (io : Answers) (acks : List (List ℕ)) → IsFine io → IsFine (heard io acks)
heard-IsFine io [] v = record {
  selected = v.selected;
  packet = v.packet;
  node = v.node;
  file = v.file;
  socket = v.socket;
}
heard-IsFine io (bytes ∷ acks) v = record {
  selected = v.selected;
  packet = v.packet;
  node = v.node;
  file = v.file;
  socket = v.socket;
}

next_start-lt : (pos n : ℕ) → pos < 256 → next_start pos n < 256
next_start-lt pos n l = ground arith

abbrev pub Faultless : List Turn → Type 0
Faultless [] = Unit {0}
Faultless (io ∷ ios) = IsFaultless io × Faultless ios

module _ (crc32 : ℕ → List ℕ → ℕ) (bounded : (bytes : List ℕ) → crc32 0 bytes < 2 ^ 32) where
  main_loop_go :
      (fuel : ℕ) (io : Answers) (s s1 s2 s3 : Sender)
      → wait io s ≡ returns s1
      → receive crc32 io s1 ≡ returns (s2, true)
      → finish crc32 fuel io s2 ≡ returns s3
      → main_loop crc32 fuel io s ≡ returns s3
  unfolding main_loop
  main_loop_go fuel io s s1 s2 s3 a b c = rw (a, main_loop) (rw b c)

  turn_go :
      (fuel : ℕ) (io : Turn) (y : Transfer) (s : Sender) (new : List (List ℕ)) (r : Receiver)
      (acks : List (List ℕ))
      → main_loop crc32 fuel (heard io.sends y.acks) y.sender ≡ returns s
      → drop (length y.sender.sent) s.sent ≡ new
      → Receiver.Main.rounds crc32 (map (λ d. (io.receives, some d)) new) y.receiver
        ≡ returns (r, acks)
      → turn crc32 fuel io y
        ≡ returns (record { sender = s; receiver = r; acks = drop 1 y.acks ++ acks })
  unfolding turn
  turn_go fuel io y s new r acks a b c = rw (a, turn) (rw (b, c) refl)

  rounds-one :
      (io : Receiver.Answers) (d : List ℕ) (r r' : Receiver) (acks : List (List ℕ))
      → Receiver.main_loop crc32 io r (some d) ≡ returns (r', acks)
      → Receiver.Main.rounds crc32 ((io, some d) ∷ []) r ≡ returns (r', acks)
  unfolding Receiver.Main.rounds
  rounds-one io d r r' acks e =
      rw (e, Receiver.Main.rounds) (ap (λ x. returns (r', x)) (append-nil acks))

  Line-drop : {w : Window} {acks : List (List ℕ)} → Line crc32 w acks → drop 1 acks ≡ []
  Line-drop (quiet a b c) = refl
  Line-drop (answered a b c d) = refl

  -- What a turn has done before the end of the file was sent.
  pub record Sent (y y' : Transfer) (out : List ℕ) : Type 0 where
    pub next : y'.sender.next ≡ (y.sender.next + 1) % 256
    pub ended : y'.sender.sent_eof ≡ (length (take max_payload_size y.sender.infile) == 0)
    pub infile : y'.sender.infile ≡ drop max_payload_size y.sender.infile
    pub receiver :
        y'.receiver
        ≡ awaiting
            (next_start y.sender.next (length (take max_payload_size y.sender.infile)))
            (out ++ take max_payload_size y.sender.infile)
    pub line : Line crc32 y'.sender.w y'.acks
    pub in_flight : 0 < y'.sender.w.bufsize

  pub turn-Sent :
      (fuel : ℕ) (io : Turn) (y : Transfer) (out : List ℕ)
      → 0 < fuel
      → IsFaultless io
      → y.sender.next < 256
      → y.sender.sent_eof ≡ false
      → Line crc32 y.sender.w y.acks
      → y.receiver ≡ awaiting y.sender.next out
      → (y' : Transfer) × (turn crc32 fuel io y ≡ returns y') × Sent y y' out
  turn-Sent fuel io y out h fine l eof line rec =
      let s = y.sender in
      let bytes = take max_payload_size s.infile in
      let (s1, size, pos, n, c, a, b, p, waits, hears) =
        listens crc32 bounded io.sends s y.acks fine.sends line (inl eof) in
      let s2 : Sender = record s { w = idle size pos; clock = c; calls = n } in
      let (q, time, c', n', carries, sends) =
        finish-sends crc32 fuel (heard io.sends y.acks) s2 size pos
          (heard-IsFine io.sends y.acks fine.sends) refl a b l eof h in
      let (ack, answer, receives) =
        main_loop-awaited crc32 bounded io.receives s.next out q _ bytes fine.receives l carries in
      let one = rounds-one io.receives (datagram crc32 q) y.receiver _ _ (
        ap (λ r. Receiver.main_loop crc32 io.receives r (some (datagram crc32 q))) rec
        ∙ receives) in
      let new = drop-append (length s.sent) s.sent (datagram crc32 q ∷ []) refl in
      (
        _,
        turn_go fuel io y _ _ _ _ (main_loop_go fuel _ s s1 s2 _ waits hears sends) new one,
        record {
          next = refl;
          ended = refl;
          infile = refl;
          receiver = refl;
          line =
              subst (λ acks. Line crc32 (flight size pos q) (acks ++ datagram crc32 ack ∷ []))
                (sym (Line-drop line))
                (answered p b (next_start-lt s.next (length bytes) l) (
                  subst (Answer ack ptype_ack (next_start s.next (length bytes)) 31)
                    (sym carries.timed) answer));
          in_flight = omega arith;
        },
      )

  -- The last turn: the end of the file was sent, and its acknowledgement arrives.
  pub turn-ends :
      (fuel : ℕ) (io : Turn) (y : Transfer)
      → 0 < fuel
      → IsFaultless io
      → y.sender.sent_eof ≡ true
      → 0 < y.sender.w.bufsize
      → Line crc32 y.sender.w y.acks
      → (y' : Transfer) × (turn crc32 fuel io y ≡ returns y')
        × (y'.sender.sent_eof ≡ true)
        × (y'.sender.w.bufsize ≡ 0)
        × (y'.receiver ≡ y.receiver)
  unfolding now Receiver.Main.rounds
  turn-ends fuel io y h fine eof full line =
      let s = y.sender in
      let (s1, size, pos, n, c, a, b, p, waits, hears) =
        listens crc32 bounded io.sends s y.acks fine.sends line (inr full) in
      let s2 : Sender = record s { w = idle size pos; clock = c; calls = n } in
      let ends = finish-eof crc32 fuel (heard io.sends y.acks) s2 size pos refl a eof h in
      let new : drop (length s.sent) s.sent ≡ [] =
        ap (drop (length s.sent)) (sym (append-nil s.sent))
        ∙ drop-append (length s.sent) s.sent [] refl in
      (
        _,
        turn_go fuel io y _ _ _ _ (main_loop_go fuel _ s s1 s2 _ waits hears ends) new refl,
        eof,
        refl,
        refl,
      )
