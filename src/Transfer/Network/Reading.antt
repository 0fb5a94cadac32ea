-- ===== src/Transfer/Network/Reading.antt =====
-- src/sender.c over any network: each datagram that it sends holds the bytes of the file that belong
-- under its number.
use lossless_transport.Common.{
  ℕ, zero, suc, ◌+◌, ◌*◌, ◌%◌, ◌<◌, ◌≤◌, ◌≡◌, ◌==◌, refl, sym, ap, ◌∙◌, subst, ◌⊎◌, inl, inr, false,
  not, ◌&&◌, some, List, [], ◌∷◌, ◌++◌, ltb, leb, length, take, drop, replicate, get_elem?, set,
  arith, Bool-cases, Option-cases, returns, exits, check, deref, or_exit, OnReturn, OnReturn-bind,
  OnReturn-after, OnReturn-if, OnReturn-or_exit, OnReturn-deref, length-take,
}
use lossless_transport.Packet.{
  Pkt, pkt_new, get_seqnum, get_timestamp, set_timestamp, max_payload_size,
}
use lossless_transport.Packet.Wire.Format.{datagram}
use lossless_transport.Packet.Wire.RoundTrip.{send_packet-datagram}
use lossless_transport.Window
use lossless_transport.Window.{Window, Code, done, failed}
use lossless_transport.Window.Buffer.{update_timestamp_lem, push-either}
use lossless_transport.Sender.{
  Sender, Answers, timer, now, add32, transmit, retransmit, retransmit_from, retransmit_packets,
}
use lossless_transport.Sender.Ack.{All, All-elim}
use lossless_transport.Sender.Data.{
  data_packet, data_packet-Carries, fill_data_lem, pkt_new-IsNew, IsNew,
}
use lossless_transport.Sender.Expiry.{All-set}
use lossless_transport.Sender.Loop.{wait, receive, finish, send_next, main_loop}
use lossless_transport.Transfer.Network.{chunk}
use lossless_transport.Transfer.Network.Chunks.{drop-chunk, chunk-start}
use lossless_transport.Transfer.Network.Keeping.{
  IsSourced, IsSending, stamped-IsSourced, wait-IsSending, receive-IsSending,
}

last-append :
    (xs : List (List ℕ)) (x : List ℕ) (i : ℕ) {y : List ℕ}
    → get_elem? (xs ++ x ∷ []) i ≡ some y
    → (get_elem? xs i ≡ some y) ⊎ (y ≡ x)
last-append [] x zero {y} e = let s : x ≡ y = ground arith in inr (sym s)
last-append [] x (suc i) e = cc
last-append (z ∷ xs) x zero e = inl e
last-append (z ∷ xs) x (suc i) e = last-append xs x i e

module _ (crc32 : ℕ → List ℕ → ℕ) (infile : List ℕ) where
  abbrev Sends : Sender → Type 0
  Sends = IsSending crc32 infile

  -- A datagram more was sent.
  sent-append :
      (s : Sender) (q : Pkt) (i : ℕ) (d : List ℕ)
      → Sends s
      → IsSourced infile q
      → get_elem? (s.sent ++ datagram crc32 q ∷ []) i ≡ some d
      → (p : Pkt) × IsSourced infile p × (d ≡ datagram crc32 p)
  sent-append s q i d v c e = elim (last-append s.sent (datagram crc32 q) i e) [
    | inl f ↦ v.sent i d f
    | inr f ↦ (q, c, f)
  ]

  transmit-either :
      (io : Answers) (s : Sender) (q : Pkt)
      → IsSourced infile q
      → (transmit crc32 io s q ≡ exits)
        ⊎ (transmit crc32 io s q ≡ returns (record s { sent = s.sent ++ datagram crc32 q ∷ [] }))
  unfolding transmit
  transmit-either io s q c =
      let e = send_packet-datagram crc32 io.scratch q c.sendable in
      elim (Bool-cases io.send_succeeds) [ inl f ↦ inr (rw (e, f)) | inr f ↦ inl (rw (e, f)) ]

  retransmit-Sends :
      (io : Answers) (s : Sender) (i : ℕ) (p : Pkt)
      → Sends s
      → OnReturn Sends (retransmit crc32 io s i p)
  unfolding retransmit now
  retransmit-Sends io s i p v =
      let time = add32 (now io s).0 timer in
      elim (update_timestamp_lem s.w (get_timestamp p) time) [
        | inl (a, e) ↦ rw (e, retransmit) tt
        | inr (j, r, f, e) ↦
            let c = All-elim (IsSourced infile) s.w.front j v.buffer f.here in
            let all : All (IsSourced infile) (set s.w.front j (set_timestamp r time).1) =
              All-set (IsSourced infile) s.w.front j (set_timestamp r time).1 v.buffer
                (stamped-IsSourced infile r time c) in
            let front = set s.w.front j (set_timestamp r time).1 in
            let t : Sender = record (now io s).1 { w = record s.w { front = front } } in
            rw (e, retransmit)
              (rw e (
                OnReturn-bind (λ q. get_elem? front i ≡ some q) Sends (deref (get_elem? front i)) _
                  (OnReturn-deref (get_elem? front i))
                  λ q g.
                    let c' = All-elim (IsSourced infile) front i all g in
                    elim (transmit-either io t q c') [
                      | inl k ↦ rw k tt
                      | inr k ↦ rw k (record {
                        buffer = all;
                        sent = λ n d. sent-append s q n d v c';
                        reading = v.reading;
                      })
                    ]))
      ]

  retransmit_from-Sends :
      (fuel : ℕ) (io : Answers) (loop_now : ℕ) (s : Sender)
      → Sends s
      → OnReturn Sends (retransmit_from crc32 fuel io loop_now s)
  unfolding retransmit_from
  retransmit_from-Sends zero io loop_now s v = tt
  retransmit_from-Sends (suc fuel) io loop_now s v =
      elim (Option-cases (Window.peek_min_timestamp s.w)) [
        | inl e ↦ rw (e, retransmit_from) v
        | inr (p, e) ↦
            rw (e, retransmit_from)
              (OnReturn-if Sends (leb (get_timestamp p) loop_now) _ _
                (λ h.
                  OnReturn-bind Sends Sends
                    (retransmit crc32 io s (Window.find_min_timestamp s.w) p) _
                    (retransmit-Sends io s (Window.find_min_timestamp s.w) p v)
                    (retransmit_from-Sends fuel io loop_now))
                (λ h. v))
      ]

  retransmit_packets-Sends :
      (fuel : ℕ) (io : Answers) (s : Sender)
      → Sends s
      → OnReturn Sends (retransmit_packets crc32 fuel io s)
  unfolding retransmit_packets now
  retransmit_packets-Sends fuel io s v =
      retransmit_from-Sends fuel io (now io s).0 (now io s).1
        (record { buffer = v.buffer; sent = v.sent; reading = v.reading })

  new_packet :
      (p : Pkt) (next time : ℕ) (bytes rest : List ℕ)
      → IsNew p
      → next < 256
      → length bytes ≤ max_payload_size
      → bytes ≡ chunk infile next
      → IsSourced infile (data_packet p next time (bytes ++ rest) (length bytes))
  new_packet p next time bytes rest v n l e =
      let c = data_packet-Carries p next time bytes rest v n l in
      let q = data_packet p next time (bytes ++ rest) (length bytes) in
      let k : bytes ≡ chunk infile (get_seqnum q) = e ∙ ap (chunk infile) (sym c.numbered) in
      record {
        sendable = c.sendable;
        numbered = refl;
        timed = refl;
        whole = c.whole;
        sized = c.sized ∙ ap (λ (xs : List ℕ). length xs) k;
        loaded = subst (λ xs. take (length xs) q.payload ≡ xs) k c.loaded;
      }

  -- The next packet is of the file, and the one after it is the next.
  send_next-Sends :
      (io : Answers) (s : Sender)
      → length infile ≤ 255 * max_payload_size
      → s.sent_eof ≡ false
      → Sends s
      → OnReturn Sends (send_next crc32 io s)
  unfolding send_next now
  send_next-Sends io s small more v = elim v.reading [
    | inl e ↦ cc
    | inr (rest_of_file, within) ↦
        let bytes = take max_payload_size s.infile in
        let len = length bytes in
        let buf = bytes ++ drop len (replicate max_payload_size 0) in
        let time = (now io s).0 in
        let t : Sender = record (now io s).1 { infile = drop max_payload_size s.infile } in
        let l : len ≤ max_payload_size = omega (arith, length-take max_payload_size s.infile) in
        let n : s.next < 256 = omega (arith, within, small) in
        OnReturn-after Sends (check (not (ltb len max_payload_size && io.read_error))) _ λ u.
          OnReturn-bind (λ p. pkt_new io.packet_allocated ≡ some p) Sends
            (or_exit (pkt_new io.packet_allocated)) _
            (OnReturn-or_exit (pkt_new io.packet_allocated))
            λ p e.
              let q = data_packet p s.next time buf len in
              let here : bytes ≡ chunk infile s.next = ap (take max_payload_size) rest_of_file in
              let c : IsSourced infile q =
                new_packet p s.next time bytes (drop len (replicate max_payload_size 0))
                  (pkt_new-IsNew io.packet_allocated e) n l here in
              rw (fill_data_lem p s.next time buf len n l) (elim (transmit-either io t q c) [
                | inl k ↦ rw k tt
                | inr k ↦ rw k (elim (push-either s.w q io.node_allocated) [
                  | inl f ↦ rw (OnReturn, f) tt
                  | inr f ↦
                      rw (OnReturn, f, f)
                        (record {
                          buffer = (c, v.buffer);
                          sent = λ i d. sent-append s q i d v c;
                          reading = elim (Bool-cases (len == 0)) [
                            | inl z ↦ inl (rw z)
                            | inr z ↦
                                let more_left =
                                  chunk-start infile s.next
                                    (ap (λ (xs : List ℕ). length xs == 0) (sym here) ∙ z) in
                                let next : (s.next + 1) % 256 ≡ s.next + 1 =
                                  omega (arith, more_left, small) in
                                inr (
                                  rw next (
                                    ap (drop max_payload_size) rest_of_file
                                        ∙ drop-chunk infile s.next,
                                    omega (arith, more_left),
                                  ))
                          ];
                        })
                ])
              ])
  ]

  finish-Sends :
      (fuel : ℕ) (io : Answers) (s : Sender)
      → length infile ≤ 255 * max_payload_size
      → Sends s
      → OnReturn Sends (finish crc32 fuel io s)
  unfolding finish
  finish-Sends fuel io s small v =
      OnReturn-bind Sends Sends (retransmit_packets crc32 fuel io s) _
        (retransmit_packets-Sends fuel io s v)
        λ t k.
          OnReturn-if Sends (not (Window.full t.w) && not t.sent_eof) _ _
            (λ h. send_next-Sends io t small (ground arith) k) (λ h. k)

  -- A round of the sender, whatever it receives.
  pub main_loop-Sends :
      (fuel : ℕ) (io : Answers) (s : Sender)
      → length infile ≤ 255 * max_payload_size
      → Sends s
      → OnReturn Sends (main_loop crc32 fuel io s)
  unfolding main_loop
  main_loop-Sends fuel io s small v =
      OnReturn-bind Sends Sends (wait io s) _ (wait-IsSending crc32 infile io s v) λ s1 k.
        OnReturn-bind (λ r. Sends r.0) Sends (receive crc32 io s1) _
          (receive-IsSending crc32 infile io s1 k)
          λ (t, goes_on) x.
            OnReturn-if Sends goes_on _ _ (λ h. finish-Sends fuel io t small x) (λ h. x)
