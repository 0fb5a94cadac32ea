-- ===== src/Sender/Resend.antt =====
-- The loop of `retransmit_packets` in src/sender.c.
use lossless_transport.Common.{
  length-zero, ℕ, zero, suc, ◌+◌, ◌-◌, ◌^◌, ◌<◌, ◌≤◌, ◌≡◌, refl, sym, ◌∙◌, true, none, some, List,
  [], ◌∷◌, ◌++◌, map, length, get_elem?, set, returns, arith, dec_lt, le→leb, lt→leb, length-set,
}
use lossless_transport.Packet.{Pkt, get_seqnum, get_timestamp, set_timestamp}
use lossless_transport.Packet.Wire.Format.{datagram}
use lossless_transport.Packet.Wire.RoundTrip.{IsSendable, send_packet-datagram}
use lossless_transport.Clock.Monotone.{IsClock}
use lossless_transport.Window.{Window, peek_min_timestamp, find_min_timestamp}
use lossless_transport.Window.Least.{IsLeast}
use lossless_transport.Window.Buffer.{IsValid, pop_min_timestamp_lem}
use lossless_transport.Sender.{
  Sender, Answers, now, retransmit, transmit, retransmit_from, retransmit_packets, add32, timer,
}
use lossless_transport.Sender.Ack.{All, All-intro, All-elim}
use lossless_transport.Sender.Timer.{retransmit_lem}
use lossless_transport.Sender.Expiry.{
  expired, expired-set, expired-pos, expired-le, All-set, map-set, restamp, elapsed, IsTimely,
  now-IsTimely, IsTimely-clock,
}

pub peek_min-nil : (w : Window) → w.front ≡ [] → peek_min_timestamp w ≡ none
unfolding peek_min_timestamp
peek_min-nil w e = rw e

-- What the loop has done when it ends.
pub record Resent (n : ℕ) (s s' : Sender) : Type 0 where
  pub late : All (λ p. n < get_timestamp p) s'.w.front
  pub sendable : All IsSendable s'.w.front
  pub numbers : map get_seqnum s'.w.front ≡ map get_seqnum s.w.front
  pub valid : IsValid s'.w
  pub rest : s'.w ≡ record s.w { front = s'.w.front }
  pub next : s'.next ≡ s.next
  pub sent_eof : s'.sent_eof ≡ s.sent_eof
  pub infile : s'.infile ≡ s.infile
  pub running : IsClock s'.clock

Resent-nil :
    (n : ℕ) (s : Sender)
    → IsValid s.w
    → All IsSendable s.w.front
    → All (λ p. n < get_timestamp p) s.w.front
    → IsClock s.clock
    → Resent n s s
Resent-nil n s v a l c = record {
  late = l;
  sendable = a;
  numbers = refl;
  valid = v;
  rest = refl;
  next = refl;
  sent_eof = refl;
  infile = refl;
  running = c;
}

module _ (crc32 : ℕ → List ℕ → ℕ) where
  transmit-datagram :
      (io : Answers) (s : Sender) (q : Pkt)
      → io.send_succeeds ≡ true
      → IsSendable q
      → transmit crc32 io s q ≡ returns (record s { sent = s.sent ++ datagram crc32 q ∷ [] })
  unfolding transmit
  transmit-datagram io s q k v = rw (send_packet-datagram crc32 io.scratch q v, k, transmit)

  pub resend_none :
      (fuel : ℕ) (io : Answers) (n : ℕ) (s : Sender)
      → peek_min_timestamp s.w ≡ none
      → retransmit_from crc32 (suc fuel) io n s ≡ returns s
  unfolding retransmit_from
  resend_none fuel io n s e = rw (e, retransmit_from)

  pub resend_stop :
      (fuel : ℕ) (io : Answers) (n : ℕ) (s : Sender) (p : Pkt)
      → peek_min_timestamp s.w ≡ some p
      → n < get_timestamp p
      → retransmit_from crc32 (suc fuel) io n s ≡ returns s
  unfolding retransmit_from
  resend_stop fuel io n s p e h = rw (e, retransmit_from) (rw (lt→leb n (get_timestamp p) h))

  pub resend_go :
      (fuel : ℕ) (io : Answers) (n : ℕ) (s s' : Sender) (p : Pkt)
      → peek_min_timestamp s.w ≡ some p
      → get_timestamp p ≤ n
      → retransmit crc32 io s (find_min_timestamp s.w) p ≡ returns s'
      → retransmit_from crc32 (suc fuel) io n s ≡ retransmit_from crc32 fuel io n s'
  unfolding retransmit_from
  resend_go fuel io n s s' p e h f = rw (e, retransmit_from) (rw (le→leb (get_timestamp p) n h, f))

  -- The state after one packet of the loop.
  abbrev pub resent : Answers → Sender → ℕ → Pkt → Sender
  resent io s i q =
      let t = (now io s).1 in
      record t {
        w = record s.w { front = set s.w.front i q };
        sent = s.sent ++ datagram crc32 q ∷ [];
      }

  pub retransmit-resent :
      (io : Answers) (s : Sender) (i : ℕ) (p : Pkt)
      → IsLeast get_timestamp s.w.front i p
      → io.send_succeeds ≡ true
      → IsSendable (set_timestamp p (add32 (now io s).0 timer)).1
      → retransmit crc32 io s i p
        ≡ returns (resent io s i (set_timestamp p (add32 (now io s).0 timer)).1)
  unfolding now
  retransmit-resent io s i p l k v =
      let q = (set_timestamp p (add32 (now io s).0 timer)).1 in
      retransmit_lem crc32 io s i p l ∙ transmit-datagram io _ q k v

  Resent-cons :
      (n : ℕ) (io : Answers) (s : Sender) (i : ℕ) (p q : Pkt) (s' : Sender)
      → get_elem? s.w.front i ≡ some p
      → get_seqnum q ≡ get_seqnum p
      → Resent n (resent io s i q) s'
      → Resent n s s'
  unfolding now
  Resent-cons n io s i p q s' e f r = record {
    late = r.late;
    sendable = r.sendable;
    numbers = r.numbers ∙ map-set s.w.front i p q e f;
    valid = r.valid;
    rest = r.rest;
    next = r.next;
    sent_eof = r.sent_eof;
    infile = r.infile;
    running = r.running;
  }

  -- The loop ends, if it has more fuel than timers have expired, the clock does not come near the
  -- wrap of its 32 bits, and `send` fails nowhere. Every timer in the buffer then lies in the future,
  -- and the buffer holds the same packets, by their numbers and in their order.
  pub retransmit_from-Resent :
      (fuel : ℕ) (io : Answers) (n : ℕ) (s : Sender)
      → IsValid s.w
      → All IsSendable s.w.front
      → io.send_succeeds ≡ true
      → expired n s.w.front < fuel
      → IsTimely io (expired n s.w.front) s
      → n ≤ elapsed s.clock
      → (s' : Sender) × (retransmit_from crc32 fuel io n s ≡ returns s') × Resent n s s'
  retransmit_from-Resent zero io n s v a h t e u = absurd (omega arith)
  retransmit_from-Resent (suc fuel) io n s v a h t e u = elim (dec_lt 0 s.w.bufsize) [
    | no z ↦
        let f = length-zero s.w.front (omega arith) in
        (s, resend_none fuel io n s (peek_min-nil s.w f), Resent-nil n s v a (rw f tt) e.running)
    | yes z ↦
        let (p, l, peeks, pops, perm) = pop_min_timestamp_lem s.w v z in
        elim (dec_lt n (get_timestamp p)) [
          | yes late ↦ (
            s,
            resend_stop fuel io n s p peeks late,
            Resent-nil n s v a
                (All-intro (λ q. n < get_timestamp q) s.w.front
                  (λ j q g. omega (arith, l.least j q g)))
                e.running,
          )
          | no due ↦
              let i = find_min_timestamp s.w in
              let due : get_timestamp p ≤ n = omega arith in
              let pos = expired-pos n s.w.front i p l.here due in
              let k = expired n s.w.front - 1 in
              let one : expired n s.w.front ≡ suc k = omega (arith, pos) in
              let y =
                IsTimely-clock io (expired n s.w.front) (suc k) s s refl (omega (arith, one)) e in
              let (after, room, same, timely) = now-IsTimely io k s y in
              let new = add32 (now io s).0 timer in
              let fits : new ≡ (now io s).0 + timer = omega (arith, room) in
              let new_lt : new < 2 ^ 32 = omega (arith, room, fits) in
              let q = (set_timestamp p new).1 in
              let (good, stamp, number) =
                restamp p new (All-elim IsSendable s.w.front i a l.here) new_lt in
              let r = resent io s i q in
              let future : n < get_timestamp q = omega (arith, stamp, fits, after) in
              let left = expired-set n s.w.front i p q l.here due future in
              let more : k ≡ expired n r.w.front = omega (arith, left, one) in
              let valid : IsValid r.w = record {
                small = v.small;
                size_in = v.size_in;
                counted = v.counted ∙ sym (length-set s.w.front i q);
                buffered = v.buffered;
              } in
              let (s', ends, done) =
                retransmit_from-Resent fuel io n r valid (All-set IsSendable s.w.front i q a good) h
                  (omega (arith, more, one, t))
                  (IsTimely-clock io k (expired n r.w.front) (now io s).1 r refl
                    (omega (arith, more)) timely)
                  (omega (arith, same, after, u)) in
              (
                s',
                resend_go fuel io n s r p peeks due (retransmit-resent io s i p l h good) ∙ ends,
                Resent-cons n io s i p q s' l.here number done,
              )
        ]
  ]

  -- `retransmit_packets` ends, if it has more fuel than there are packets in the buffer, every
  -- packet may be sent, the clock stays far enough from the wrap of its 32 bits for each of them,
  -- and `send` does not fail. Every timer in the buffer is then later than the time at its start;
  -- the buffer holds the same packets, by their numbers and in their order; and the file, the
  -- next number, the note that the last packet was sent and the rest of the window are untouched,
  -- and the clock still runs.
  pub retransmit_packets-Resent :
      (fuel : ℕ) (io : Answers) (s : Sender)
      → IsValid s.w
      → All IsSendable s.w.front
      → io.send_succeeds ≡ true
      → length s.w.front < fuel
      → IsTimely io (suc (length s.w.front)) s
      → (s' : Sender) × (retransmit_packets crc32 fuel io s ≡ returns s') × Resent (now io s).0 s s'
  unfolding retransmit_packets now
  retransmit_packets-Resent fuel io s v a h f e =
      let (time, t) = now io s in
      let (after, room, same, timely) = now-IsTimely io (length s.w.front) s e in
      let le = expired-le time s.w.front in
      let (s', ends, r) =
        retransmit_from-Resent fuel io time t v a h (omega (arith, le, f))
          (IsTimely-clock io (length s.w.front) (expired time s.w.front) t t refl le timely)
          (omega (arith, same)) in
      (
        s',
        ends,
        record {
          late = r.late;
          sendable = r.sendable;
          numbers = r.numbers;
          valid = r.valid;
          rest = r.rest;
          next = r.next;
          sent_eof = r.sent_eof;
          infile = r.infile;
          running = r.running;
        },
      )
