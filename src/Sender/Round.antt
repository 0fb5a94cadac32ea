-- ===== src/Sender/Round.antt =====
-- `main_loop` of src/sender.c: how every round ends, whatever the system answers.
use lossless_transport.Common.{
  ℕ, suc, ◌+◌, ◌-◌, ◌%◌, ◌<◌, ◌≤◌, ◌≡◌, ◌⊎◌, refl, sym, ◌∙◌, subst, inl, inr, false, not, ◌&&◌,
  some, List, [], ◌∷◌, ◌++◌, length, take, drop, replicate, exits, Ends, ends, stops, Ends-bind,
  Ends-check, Ends-or_exit, Ends-eq, Ends-if, check, or_exit, arith, Bool-cases, dec_lt, ltb,
  length-take, le→leb, length-zero,
}
use lossless_transport.Packet.{Pkt, pkt_new, max_payload_size, get_timestamp}
use lossless_transport.Packet.Wire.Checks.{Bytes}
use lossless_transport.Packet.Wire.Format.{datagram}
use lossless_transport.Packet.Wire.RoundTrip.{IsSendable, send_packet-datagram}
use lossless_transport.Window
use lossless_transport.Window.{
  Window, Code, done, failed, push, peek_min_timestamp, find_min_timestamp,
}
use lossless_transport.Window.Least.{IsLeast}
use lossless_transport.Window.Buffer.{pop_min_timestamp_lem}
use lossless_transport.Sender.{
  Sender, Answers, now, add32, timer, transmit, retransmit_from, retransmit_packets,
}
use lossless_transport.Sender.Loop.{wait, receive, send_next, finish, main_loop}
use lossless_transport.Sender.Timer.{retransmit_lem}
use lossless_transport.Sender.Data.{pkt_new-IsNew, data_packet, fill_data_lem, data_packet-Carries}
use lossless_transport.Sender.Ack.{All-elim}
use lossless_transport.Sender.Expiry.{IsTimely, IsTimely-clock, restamp}
use lossless_transport.Sender.Resend.{
  retransmit_packets-Resent, resend_stop, resend_none, peek_min-nil,
}
use lossless_transport.Sender.Listen.{IsReady, wait-Ends, receive-Ends}
use lossless_transport.Sender.Running.{
  IsRunning, push-IsFlying, kept-Ends, Resent-IsRunning, now-IsRunning,
}

module _ (crc32 : ℕ → List ℕ → ℕ) where
  transmit-Ends :
      (io : Answers) (s : Sender) (q : Pkt)
      → IsSendable q
      → Ends (λ t. t ≡ record s { sent = s.sent ++ datagram crc32 q ∷ [] }) (transmit crc32 io s q)
  unfolding transmit
  transmit-Ends io s q h =
      rw (send_packet-datagram crc32 io.scratch q h)
        (Ends-bind (check io.send_succeeds) _ (Ends-check io.send_succeeds) λ u e. ends refl)

  transmit-fails :
      (io : Answers) (s : Sender) (q : Pkt)
      → io.send_succeeds ≡ false
      → IsSendable q
      → transmit crc32 io s q ≡ exits
  unfolding transmit
  transmit-fails io s q e h = rw (send_packet-datagram crc32 io.scratch q h, e, transmit) refl

  -- Where `send` fails, the first packet that is due ends the program.
  due-exits :
      (io : Answers) (n : ℕ) (s : Sender) (fuel i : ℕ) (p : Pkt)
      → IsLeast get_timestamp s.w.front i p
      → peek_min_timestamp s.w ≡ some p
      → find_min_timestamp s.w ≡ i
      → get_timestamp p ≤ n
      → io.send_succeeds ≡ false
      → IsSendable p
      → retransmit_from crc32 (suc fuel) io n s ≡ exits
  unfolding retransmit_from
  due-exits io n s fuel i p l peeks found due e h =
      let (good, stamp, number) = restamp p (add32 (now io s).0 timer) h (omega arith) in
      let sends = retransmit_lem crc32 io s i p l ∙ transmit-fails io _ _ e good in
      rw (peeks, retransmit_from) (rw (le→leb (get_timestamp p) n due, found, sends) refl)

  retransmit_from-failing :
      (fuel : ℕ) (io : Answers) (n : ℕ) (s : Sender)
      → IsRunning s
      → io.send_succeeds ≡ false
      → Ends IsRunning (retransmit_from crc32 (suc fuel) io n s)
  retransmit_from-failing fuel io n s v e = elim (dec_lt 0 s.w.bufsize) [
    | no z ↦
        let empty = length-zero s.w.front (omega (arith, v.flying.window.buffer)) in
        Ends-eq IsRunning (resend_none crc32 fuel io n s (peek_min-nil s.w empty)) (ends v)
    | yes z ↦
        let (p, l, peeks, pops, perm) = pop_min_timestamp_lem s.w v.flying.window.buffer z in
        elim (dec_lt n (get_timestamp p)) [
          | yes late ↦ Ends-eq IsRunning (resend_stop crc32 fuel io n s p peeks late) (ends v)
          | no due ↦
              let h =
                All-elim IsSendable s.w.front (find_min_timestamp s.w) v.flying.sendable l.here in
              Ends-eq IsRunning (due-exits io n s fuel _ p l peeks refl (omega arith) e h) stops
        ]
  ]

  retransmit_packets-Ends :
      (fuel : ℕ) (io : Answers) (s : Sender)
      → IsReady io 33 s
      → 31 < fuel
      → Ends IsRunning (retransmit_packets crc32 fuel io s)
  unfolding retransmit_packets
  retransmit_packets-Ends fuel io s r h = elim (Bool-cases io.send_succeeds) [
    | inr e ↦
        let g =
          retransmit_from-failing (fuel - 1) io (now io s).0 (now io s).1
            (now-IsRunning io s r.timely.normal r.flying r.next_lt r.timely.running) e in
        let one : fuel ≡ suc (fuel - 1) = omega arith in
        subst (λ m. Ends IsRunning (retransmit_from crc32 m io (now io s).0 (now io s).1)) (sym one)
          g
    | inl e ↦
        let v = r.flying.window.buffer in
        let n : length s.w.front ≤ 31 = omega (arith, v, r.flying.few) in
        let (s', f, d) =
          retransmit_packets-Resent crc32 fuel io s v r.flying.sendable e (omega arith)
            (IsTimely-clock io 33 (suc (length s.w.front)) s s refl (omega arith) r.timely) in
        Ends-eq IsRunning f (ends (Resent-IsRunning s s' _ r.flying r.next_lt d))
  ]

  send_next-Ends :
      (io : Answers) (s : Sender)
      → ((n : ℕ) → (io.reading n).nsec < 1000000000)
      → IsRunning s
      → Ends IsRunning (send_next crc32 io s)
  unfolding send_next
  send_next-Ends io s h v =
      let bytes = take max_payload_size s.infile in
      let len = length bytes in
      let l : len ≤ max_payload_size = omega (arith, length-take max_payload_size s.infile) in
      let rest = drop len (replicate max_payload_size 0) in
      let fine = not (ltb len max_payload_size && io.read_error) in
      let new = pkt_new io.packet_allocated in
      Ends-bind (check fine) _ (Ends-check fine) λ u a.
        Ends-bind (or_exit new) _ (Ends-or_exit new) λ p e.
          let q = data_packet p s.next (now io s).0 (bytes ++ rest) len in
          let c =
            data_packet-Carries p s.next (now io s).0 bytes rest
              (pkt_new-IsNew io.packet_allocated e) v.next_lt l in
          rw (fill_data_lem p s.next (now io s).0 (bytes ++ rest) len v.next_lt l) (
            Ends-bind (transmit crc32 io _ q) _ (transmit-Ends io _ q c.sendable) λ t f.
              let m = now-IsRunning io s h v.flying v.next_lt v.running in
              let u : IsRunning t =
                subst IsRunning (sym f)
                  (record { flying = m.flying; next_lt = m.next_lt; running = m.running }) in
              kept-Ends t ((s.next + 1) % 256) _ (push t.w q io.node_allocated) u (omega arith)
                (push-IsFlying t.w q io.node_allocated u.flying c.sendable))

  finish-Ends :
      (fuel : ℕ) (io : Answers) (s : Sender)
      → IsReady io 33 s
      → 31 < fuel
      → Ends IsRunning (finish crc32 fuel io s)
  unfolding finish
  finish-Ends fuel io s r h =
      Ends-bind (retransmit_packets crc32 fuel io s) _ (retransmit_packets-Ends fuel io s r h)
        λ t v.
          Ends-if IsRunning (not (Window.full t.w) && not t.sent_eof) _ _
            (λ b. send_next-Ends io t r.timely.normal v) λ b. ends v

  -- If the clock was started, at most 31 packets are in flight, in a sound window and all fit to
  -- be sent, and the next number is below 256, then a round of the sender never fails an
  -- assertion, dereferences NULL or runs out of fuel, whatever the system answers and whatever
  -- bytes are received: it exits with an error, or ends in such a state again. The loop of `main`
  -- goes on before it; the fuel is more than 31; and the clock can be read 35 times before a
  -- timer would reach the wrap of its 32 bits.
  pub main_loop-Ends :
      (fuel : ℕ) (io : Answers) (s : Sender)
      → IsRunning s
      → IsTimely io 35 s
      → ((bytes : List ℕ) → io.received ≡ some bytes → Bytes bytes)
      → (s.sent_eof ≡ false) ⊎ (0 < s.w.bufsize)
      → 31 < fuel
      → Ends IsRunning (main_loop crc32 fuel io s)
  unfolding main_loop
  main_loop-Ends fuel io s v t bytes more h =
      let ready : IsReady io 35 s = record { flying = v.flying; next_lt = v.next_lt; timely = t } in
      Ends-bind (wait io s) _ (wait-Ends io 34 s ready more) λ s1 r1.
        Ends-bind (receive crc32 io s1) _ (receive-Ends crc32 io 33 s1 r1 bytes) λ r r2.
          Ends-if IsRunning r.1 _ _ (λ b. finish-Ends fuel io r.0 r2 h)
            λ b.
              ends
                (record { flying = r2.flying; next_lt = r2.next_lt; running = r2.timely.running })
