-- ===== src/Receiver/Keeps.antt =====
-- What `main_loop` of src/receiver.c keeps, whatever is received and however the system answers, as
-- long as the loop returns.
use lossless_transport.Common.{
  ℕ, zero, suc, ◌≡◌, ◌==◌, ◌⊎◌, refl, subst, sym, inl, inr, true, not, some, List, [], ◌∷◌, length,
  get_elem?, arith, add_size, returns, exits, check, assert, or_exit, OnReturn, OnReturn-bind,
  OnReturn-after, OnReturn-if, OnReturn-or_exit,
}
use lossless_transport.Packet.{Pkt, pkt_ok, pkt_new, get_tr, get_seqnum, get_timestamp}
use lossless_transport.Packet.Wire.{decode}
use lossless_transport.Packet.Send.{send_packet, OnReturn-status}
use lossless_transport.Window
use lossless_transport.Window.{Window, done, failed}
use lossless_transport.Window.Search.{IsAbsent}
use lossless_transport.Window.Buffer.{find_seqnum_lem, push-either}
use lossless_transport.Receiver.{
  Receiver, Answers, deliver, deliver_all, store, handle_complete, handle_truncated, handle_packet,
  main_loop, fill_ack, fill_nack,
}

-- The packet is put first.
abbrev pub pushed : Window → Pkt → Window
pushed w p = record w { front = p ∷ w.front; bufsize = add_size w.bufsize 1 }

-- `P` is kept where a packet with `G` is put into the buffer, and where one is written.
pub record IsKept (P : Receiver → Type 0) (G : Pkt → Type 0) : Type 0 where
  pub stores :
      (r : Receiver) (p : Pkt)
      → P r
      → G p
      → Window.has r.w (get_seqnum p) ≡ true
      → IsAbsent get_seqnum (get_seqnum p) r.w.front
      → P (record r { w = pushed r.w p })
  pub delivers :
      (io : Answers) (r : Receiver) (i : ℕ) (p : Pkt)
      → P r
      → get_elem? r.w.front i ≡ some p
      → get_seqnum p ≡ r.w.pos
      → OnReturn P (deliver io r i p)

store-either :
    (io : Answers) (w : Window) (p : Pkt)
    → OnReturn
        (λ u. (u ≡ w) ⊎ (IsAbsent get_seqnum (get_seqnum p) w.front × (u ≡ pushed w p)))
        (store io w p)
unfolding store
store-either io w p = elim (find_seqnum_lem w (get_seqnum p)) [
  | inr (i, q, f, e) ↦ rw (e, store) (inl refl)
  | inl (a, e) ↦ elim (push-either w p io.node_allocated) [
    | inl f ↦
        rw (e, store)
          (rw f (
            OnReturn-if
              (λ u. (u ≡ w) ⊎ (IsAbsent get_seqnum (get_seqnum p) w.front × (u ≡ pushed w p)))
              (Window.full (Window.push w p io.node_allocated).1) (returns _) exits
              (λ b. rw f (inl refl)) (λ b. tt)))
    | inr f ↦ rw (e, store) (rw (f, f) (inr (a, refl)))
  ]
]

module _ {P : Receiver → Type 0} {G : Pkt → Type 0} (k : IsKept P G) where
  deliver_all-keeps :
      (fuel : ℕ) (io : Answers) (r : Receiver) → P r → OnReturn P (deliver_all fuel io r)
  unfolding deliver_all Window.start
  deliver_all-keeps zero io r v = tt
  deliver_all-keeps (suc fuel) io r v = elim (find_seqnum_lem r.w r.w.pos) [
    | inl (a, e) ↦ rw (e, deliver_all) v
    | inr (i, p, f, e) ↦
        rw (e, deliver_all)
          (rw f.here (
            OnReturn-bind P P (deliver io r i p) (deliver_all fuel io)
              (k.delivers io r i p v f.here f.matches) (deliver_all-keeps fuel io)))
  ]

  module _ (crc32 : ℕ → List ℕ → ℕ) where
    abbrev pub After : Receiver × List (List ℕ) → Type 0
    After y = P y.0

    handle_complete-keeps :
        (io : Answers) (r : Receiver) (p reply : Pkt)
        → P r
        → G p
        → Window.has r.w (get_seqnum p) ≡ true
        → OnReturn After (handle_complete crc32 io r p reply)
    unfolding handle_complete
    handle_complete-keeps io r p reply v g h =
        OnReturn-bind
          (λ u. (u ≡ r.w) ⊎ (IsAbsent get_seqnum (get_seqnum p) r.w.front × (u ≡ pushed r.w p)))
          After (store io r.w p) _ (store-either io r.w p)
          λ w s.
            let v' : P (record r { w = w }) = elim s [
              | inl e ↦ subst (λ (u : Window). P (record r { w = u })) (sym e) v
              | inr (a, e) ↦
                  subst (λ (u : Window). P (record r { w = u })) (sym e) (k.stores r p v g h a)
            ] in
            OnReturn-bind P After (deliver_all (suc (length w.front)) io (record r { w = w })) _
              (deliver_all-keeps (suc (length w.front)) io (record r { w = w }) v')
              λ r' x. OnReturn-after After (assert io.flushed) _ λ u.
                OnReturn-after After (fill_ack r'.w (get_timestamp p) reply) _ λ ack.
                  OnReturn-after After (send_packet crc32 io.scratch ack) _
                    λ bytes. OnReturn-after After (check io.sent) _ λ u'. x

    handle_truncated-keeps :
        (io : Answers) (r : Receiver) (p reply : Pkt)
        → P r
        → OnReturn After (handle_truncated crc32 io r p reply)
    unfolding handle_truncated
    handle_truncated-keeps io r p reply v = OnReturn-after After (fill_nack r.w p reply) _ λ nack.
        OnReturn-after After (send_packet crc32 io.scratch nack) _
          λ bytes. OnReturn-after After (check io.sent) _ λ u. v

    handle_packet-keeps :
        (io : Answers) (r : Receiver) (p : Pkt)
        → P r
        → (get_tr p ≡ 0 → G p)
        → OnReturn After (handle_packet crc32 io r p)
    unfolding handle_packet
    handle_packet-keeps io r p v g =
        OnReturn-if After (not (Window.has r.w (get_seqnum p))) _ _ (λ h. v)
          λ h. OnReturn-after After (or_exit (pkt_new io.reply_allocated)) _ λ reply.
            OnReturn-if After (not (get_tr p == 0)) _ _ (λ t. handle_truncated-keeps io r p reply v)
              (λ t. handle_complete-keeps io r p reply v (g (ground arith)) (ground arith))

    -- A round, if a whole packet that is decoded has `G`.
    pub main_loop-keeps :
        (io : Answers) (r : Receiver) (bytes : List ℕ)
        → P r
        → ((q p : Pkt)
            → pkt_new io.packet_allocated ≡ some q
            → decode crc32 (some bytes) (length bytes) q ≡ (pkt_ok, p)
            → get_tr p ≡ 0
            → G p)
        → OnReturn After (main_loop crc32 io r (some bytes))
    unfolding main_loop
    main_loop-keeps io r bytes v g =
        OnReturn-bind (λ q. pkt_new io.packet_allocated ≡ some q) After
          (or_exit (pkt_new io.packet_allocated)) _ (OnReturn-or_exit (pkt_new io.packet_allocated))
          λ q e.
            let d = decode crc32 (some bytes) (length bytes) q in
            OnReturn-status After d (handle_packet crc32 io r) (returns (r, []))
              (λ h. handle_packet-keeps io r d.1 v (λ t. g q d.1 e (λ i. (h i, d.1)) t)) v
