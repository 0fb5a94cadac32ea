-- ===== src/Sender/Listen.antt =====
-- `main_loop` of src/sender.c up to the response: the wait, and what is done with what is received.
use lossless_transport.Common.{
  ℕ, suc, ◌<◌, ◌≡◌, ◌⊎◌, refl, inl, inr, true, false, not, ◌==◌, some, List, length, if◌then◌else◌,
  Outcome, returns, Ends, ends, Ends-bind, Ends-check, Ends-or_exit, Ends-eq, Ends-if, check,
  or_exit, arith,
}
use lossless_transport.Packet.{
  Pkt, Status, pkt_ok, pkt_new, ptype_data, ptype_ack, get_type, get_seqnum, get_window,
}
use lossless_transport.Packet.Fields.{IsWellFormed}
use lossless_transport.Packet.Wire.{decode}
use lossless_transport.Packet.Wire.Checks.{Bytes, decode-IsWellFormed}
use lossless_transport.Window.{Window}
use lossless_transport.Sender.{Sender, Answers, now, get_timeout, handle_ack, handle_nack}
use lossless_transport.Sender.Loop.{wait, resize_window, handle_response, receive}
use lossless_transport.Sender.Timer.{get_timeout_safe}
use lossless_transport.Sender.Respond.{resize_window_lem}
use lossless_transport.Sender.Expiry.{IsTimely, now-IsTimely, IsTimely-clock}
use lossless_transport.Sender.Data.{pkt_new-IsNew}
use lossless_transport.Sender.Flight.{
  IsFlying, handle_ack-IsFlying, handle_nack-IsFlying, resize-IsFlying,
}

-- The packets in flight can be sent, the next number is one of 256, and the clock can be read `k`
-- times before a timer would reach the wrap of its 32 bits.
pub record IsReady (io : Answers) (k : ℕ) (s : Sender) : Type 0 where
  pub flying : IsFlying s.w
  pub next_lt : s.next < 256
  pub timely : IsTimely io k s

now-IsReady : (io : Answers) (k : ℕ) (s : Sender) → IsReady io (suc k) s → IsReady io k (now io s).1
unfolding now
now-IsReady io k s r =
    let (after, room, same, timely) = now-IsTimely io k s r.timely in
    record { flying = r.flying; next_lt = r.next_lt; timely = timely }

less-IsReady : (io : Answers) (k : ℕ) (s : Sender) → IsReady io (suc k) s → IsReady io k s
less-IsReady io k s r = record {
  flying = r.flying;
  next_lt = r.next_lt;
  timely = IsTimely-clock io (suc k) k s s refl (omega arith) r.timely;
}

seqnum-lt : (p : Pkt) → IsWellFormed p → get_seqnum p < 256
unfolding get_seqnum
seqnum-lt p v = v.seqnum_fits

window-IsReady :
    (io : Answers) (k : ℕ) (s : Sender) (w : Window)
    → IsReady io k s
    → IsFlying w
    → IsReady io k (record s { w = w })
window-IsReady io k s w r v = record {
  flying = v;
  next_lt = r.next_lt;
  timely = IsTimely-clock io k k s (record s { w = w }) refl (omega arith) r.timely;
}

get_timeout-Ends :
    (io : Answers) (k : ℕ) (s : Sender)
    → IsReady io (suc k) s
    → (s.sent_eof ≡ false) ⊎ (0 < s.w.bufsize)
    → Ends (λ r. IsReady io k r.1) (get_timeout io s)
get_timeout-Ends io k s r h = elim (get_timeout_safe io s r.flying.window.buffer h) [
  | inl e ↦ Ends-eq _ e (ends (less-IsReady io k s r))
  | inr (i, p, l, e) ↦ Ends-eq _ e (ends (now-IsReady io k s r))
]

pub wait-Ends :
    (io : Answers) (k : ℕ) (s : Sender)
    → IsReady io (suc k) s
    → (s.sent_eof ≡ false) ⊎ (0 < s.w.bufsize)
    → Ends (IsReady io k) (wait io s)
unfolding wait
wait-Ends io k s r h =
    Ends-if (IsReady io k) _ _ _
      (λ b.
        Ends-bind (check io.selected) _ (Ends-check io.selected)
          λ u e. ends (less-IsReady io k s r))
      (λ b.
        Ends-bind (get_timeout io s) _ (get_timeout-Ends io k s r h)
          λ t v. Ends-bind (check io.selected) _ (Ends-check io.selected) λ u e. ends v)

react-Ends :
    (io : Answers) (k : ℕ) (s : Sender) (resp : Pkt)
    → IsReady io (suc k) s
    → get_seqnum resp < 256
    → Ends
        (IsReady io k)
        (if get_type resp == ptype_ack then handle_ack s resp else handle_nack io s resp)
react-Ends io k s resp r h =
    Ends-if (IsReady io k) _ _ _
      (λ a.
        let (w, e, v) = handle_ack-IsFlying s resp r.flying h in
        Ends-eq _ e (ends (window-IsReady io k s w (less-IsReady io k s r) v)))
      λ a.
        let (after, room, same, timely) = now-IsTimely io k s r.timely in
        elim (handle_nack-IsFlying io s resp r.flying (omega (arith, room))) [
          | inl e ↦ Ends-eq _ e (ends (less-IsReady io k s r))
          | inr (w, e, v) ↦
              Ends-eq _ e (ends (window-IsReady io k (now io s).1 w (now-IsReady io k s r) v))
        ]

handle_response-Ends :
    (io : Answers) (k : ℕ) (s : Sender) (resp : Pkt)
    → IsReady io (suc k) s
    → get_seqnum resp < 256
    → Ends (λ r. IsReady io k r.0) (handle_response io s resp)
unfolding handle_response
handle_response-Ends io k s resp r h =
    Ends-if _ (get_type resp == ptype_data) (returns (s, false)) _
      (λ d. ends (less-IsReady io k s r))
      λ d.
        Ends-bind (if get_type resp == ptype_ack then handle_ack s resp else handle_nack io s resp)
          _ (react-Ends io k s resp r h)
          λ t v.
            Ends-bind (resize_window t resp) _
              (Ends-eq (IsReady io k) (resize_window_lem t resp)
                (ends (window-IsReady io k t _ v (resize-IsFlying t.w (get_window resp) v.flying))))
              λ u x. ends x

-- Both cases of the status of `pkt_decode`.
decoded-Ends :
    {A : Type 0} (P : A → Type 0) (c : Status) (x y : Outcome A)
    → Ends P x
    → Ends P y
    → Ends P (elim c as (λ d. Outcome A) [ pkt_ok ↦ x | _ ↦ y ])
decoded-Ends P pkt_ok x y a b = a
decoded-Ends P _ x y a b = b

module _ (crc32 : ℕ → List ℕ → ℕ) where
  pub receive-Ends :
      (io : Answers) (k : ℕ) (s : Sender)
      → IsReady io (suc k) s
      → ((bytes : List ℕ) → io.received ≡ some bytes → Bytes bytes)
      → Ends (λ r. IsReady io k r.0) (receive crc32 io s)
  unfolding receive
  receive-Ends io k s r h =
      Ends-if _ (not io.ready) (returns (s, true)) _ (λ n. ends (less-IsReady io k s r))
        λ n. Ends-bind (or_exit io.received) _ (Ends-or_exit io.received) λ bytes e.
          let new = pkt_new io.packet_allocated in
          Ends-bind (or_exit new) _ (Ends-or_exit new) λ resp f.
            let d = decode crc32 (some bytes) (length bytes) resp in
            let fits = (pkt_new-IsNew io.packet_allocated f).fits in
            let v =
              decode-IsWellFormed crc32 bytes (length bytes) resp (h bytes e) (omega arith) fits in
            decoded-Ends (λ r. IsReady io k r.0) d.0 _ _
              (handle_response-Ends io k s d.1 r (seqnum-lt d.1 v)) (ends (less-IsReady io k s r))
