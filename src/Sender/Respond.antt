-- ===== src/Sender/Respond.antt =====
-- Single responses in src/sender.c: an ACK that covers nothing, a NACK, and the announced window.
use lossless_transport.Common.{
  ℕ, ◌-◌, ◌≤◌, ◌≡◌, ◌⊎◌, inl, inr, true, false, List, ◌∷◌, length, set, returns, arith, min,
  Bool-cases,
}
use lossless_transport.Packet.{Pkt, get_seqnum, get_timestamp, get_window, set_timestamp}
use lossless_transport.Window
use lossless_transport.Window.{
  Window, done, failed, peek_min_seqnum, pop_min_seqnum, find_min_seqnum,
}
use lossless_transport.Window.Search.{IsAbsent, IsFirst}
use lossless_transport.Window.Buffer.{
  IsValid, pop_min_seqnum_lem, pop_timestamp-cases, find_seqnum_lem,
}
use lossless_transport.Sender.{Sender, Answers, handle_ack, handle_nack, now}
use lossless_transport.Sender.Loop.{resize_window}
use lossless_transport.Sender.Ack.{All, All-elim, pop_acked_stop}

pop_timestamp_absent :
    (w : Window) (t : ℕ) (p : Pkt) (ps : List Pkt)
    → IsValid w
    → IsAbsent get_timestamp t w.front
    → w.front ≡ p ∷ ps
    → (Window.pop_timestamp w t).1 ≡ record w { front = ps; bufsize = w.bufsize - 1 }
pop_timestamp_absent w t p ps v a f = elim (pop_timestamp-cases w t v) [
  | inl (i, q, g, e) ↦ absurd (a.absent i q g.here g.matches)
  | inr (inl (q, qs, b, g, e)) ↦ ground (arith, e, g, f)
  | inr (inr (g, e)) ↦ absurd (cc)
]

-- An ACK that covers no packet in flight, with a timestamp that none of them has, such as a
-- duplicate of an earlier ACK, removes the packet sent last from the buffer, though it is not
-- acknowledged.
pub handle_ack_drops :
    (s : Sender) (ack p : Pkt) (ps : List Pkt)
    → IsValid s.w
    → get_seqnum ack ≤ s.w.max_seqnum
    → s.w.front ≡ p ∷ ps
    → All (λ q. get_seqnum ack ≤ get_seqnum q) s.w.front
    → IsAbsent get_timestamp (get_timestamp ack) s.w.front
    → handle_ack s ack
      ≡ returns (record s {
        w = record s.w { pos = get_seqnum ack; front = ps; bufsize = s.w.bufsize - 1 };
      })
unfolding handle_ack Window.slide_to
handle_ack_drops s ack p ps v h f k a =
    let (q, l, peeks, pops, perm) = pop_min_seqnum_lem s.w v (ground arith) in
    let stop =
      pop_acked_stop (length s.w.front) (get_seqnum ack) (get_timestamp ack) s.w false peeks
        (All-elim (λ r. get_seqnum ack ≤ get_seqnum r) s.w.front (find_min_seqnum s.w) k l.here) in
    let u = record s.w { pos = get_seqnum ack } in
    let w : IsValid u = record {
      small = v.small;
      size_in = v.size_in;
      counted = v.counted;
      buffered = v.buffered;
    } in
    rw stop (ground (arith, pop_timestamp_absent u (get_timestamp ack) p ps w a f))

-- `handle_nack` gives the first packet with the number the current time as its timestamp; out of
-- the window, or with no such packet, it does nothing.
pub handle_nack_lem :
    (io : Answers) (s : Sender) (nack : Pkt)
    → ((i : ℕ) × (p : Pkt) × (Window.has s.w (get_seqnum nack) ≡ true)
        × IsFirst get_seqnum (get_seqnum nack) s.w.front i p
        × (handle_nack io s nack
            ≡ returns (record (now io s).1 {
              w = record s.w { front = set s.w.front i (set_timestamp p (now io s).0).1 };
            })))
      ⊎ (((Window.has s.w (get_seqnum nack) ≡ false)
            ⊎ IsAbsent get_seqnum (get_seqnum nack) s.w.front)
          × (handle_nack io s nack ≡ returns s))
unfolding handle_nack
handle_nack_lem io s nack = elim (Bool-cases (Window.has s.w (get_seqnum nack))) [
  | inr o ↦ inr (inl o, rw o)
  | inl o ↦ elim (find_seqnum_lem s.w (get_seqnum nack)) [
    | inl (a, e) ↦ inr (inr a, rw (o, e, handle_nack))
    | inr (i, p, f, e) ↦ inl (i, p, o, f, rw (o, e, handle_nack) (rw f.here))
  ]
]

-- The window size that a receiver announces never fails the assertion: the size becomes the
-- smaller of the announced one and the capacity.
pub resize_window_lem :
    (s : Sender) (resp : Pkt)
    → resize_window s resp
      ≡ returns (record s { w = record s.w { size = min s.w.capacity (get_window resp) } })
unfolding resize_window Window.resize Window.get_max_size
resize_window_lem s resp = ground arith
