-- ===== src/Receiver/Datagram.antt =====
-- `main_loop` of src/receiver.c on the datagram of a packet, in its parts.
use lossless_transport.Common.{
  ℕ, suc, ◌^◌, ◌<◌, ◌≤◌, ◌≡◌, ◌≢◌, append-nil, sym, ap, ◌∙◌, subst, true, false, some, List, [],
  ◌∷◌, ◌==◌, length, returns, arith, htonl, htonl-htonl, htonl-lt, ne→==, ==_refl,
}
use lossless_transport.Packet.{
  Pkt, pkt_ok, get_total_size, ptype_ack, max_window_size, pkt_new, get_tr, get_seqnum,
  get_timestamp,
}
use lossless_transport.Packet.Wire.Format.{datagram}
use lossless_transport.Packet.Wire.RoundTrip.{IsSendable, length-datagram, send_packet-datagram}
use lossless_transport.Window
use lossless_transport.Window.{Window, Code, done, failed, available, find_seqnum, push}
use lossless_transport.Window.Search.{IsAbsent}
use lossless_transport.Window.Invariant.{IsSound}
use lossless_transport.Receiver.{
  Receiver, Answers, store, fill_nack, fill_ack, deliver_all, handle_truncated, handle_complete,
  handle_packet,
}
use lossless_transport.Receiver.{main_loop}
use lossless_transport.Packet.Wire.{decode}
use lossless_transport.Packet.Wire.Decode.{received, decode-datagram}
use lossless_transport.Receiver.Reply.{
  Answer, IsNew, pkt_new-IsNew, available-le, reply_packet, reply_packet-Answer, fill_ack_lem,
}
use lossless_transport.Receiver.Store.{Stores, store_lem, Stores-DistinctTimes}
use lossless_transport.Receiver.Deliver.{DistinctTimes, Delivered, deliver_all-Delivered}

get_timestamp-lt : (p : Pkt) → get_timestamp p < 2 ^ 32
unfolding get_timestamp
get_timestamp-lt p = htonl-lt p.timestamp

-- The system fails nothing.
pub record IsWell (io : Answers) : Type 0 where
  pub packet : io.packet_allocated ≡ true
  pub reply : io.reply_allocated ≡ true
  pub node : io.node_allocated ≡ true
  pub file : io.written ≡ true
  pub flush : io.flushed ≡ true
  pub socket : io.sent ≡ true

module _ (crc32 : ℕ → List ℕ → ℕ) where
  pub handle_complete_go :
      (io : Answers) (r r' : Receiver) (p reply q : Pkt) (w : Window)
      → IsWell io
      → store io r.w p ≡ returns w
      → deliver_all (suc (length w.front)) io (record r { w = w }) ≡ returns r'
      → fill_ack r'.w (get_timestamp p) reply ≡ returns q
      → IsSendable q
      → handle_complete crc32 io r p reply ≡ returns (r', datagram crc32 q ∷ [])
  unfolding handle_complete
  handle_complete_go io r r' p reply q w k e f g v =
      rw (e, handle_complete)
        (rw f (rw (k.flush, g) (rw (send_packet-datagram crc32 io.scratch q v, k.socket))))

  pub handle_complete_lem :
      (io : Answers) (r : Receiver) (p reply : Pkt)
      → IsWell io
      → IsNew reply
      → IsSound r.w
      → r.w.capacity ≤ max_window_size
      → r.w.max_seqnum ≤ 255
      → DistinctTimes r.w.front
      → IsAbsent get_timestamp (get_timestamp p) r.w.front
      → (w : Window) × (r' : Receiver) × (q : Pkt) × Stores r.w p w
        × Delivered (record r { w = w }) r'
        × Answer q ptype_ack r'.w.pos (available r'.w) (get_timestamp p)
        × (handle_complete crc32 io r p reply ≡ returns (r', datagram crc32 q ∷ []))
  handle_complete_lem io r p reply k n v c m d a =
      let (w, e, s) = store_lem io r.w p v k.node in
      let (r', f, del) =
        deliver_all-Delivered (suc (length w.front)) io (record r { w = w }) s.sound
          (Stores-DistinctTimes r.w p w d a s) k.file (omega arith) in
      let room = available-le r'.w del.sound.buffer in
      let small : available r'.w < 32 = omega (arith, room, del.capacity, s.capacity, c) in
      let pos : r'.w.pos < 256 = omega (arith, del.sound.pos_in, del.max_seqnum, s.max_seqnum, m) in
      let q = reply_packet reply ptype_ack r'.w.pos (available r'.w) (htonl (get_timestamp p)) in
      let x =
        reply_packet-Answer reply ptype_ack r'.w.pos (available r'.w) (htonl (get_timestamp p)) n
          (omega arith) (omega arith) pos small (htonl-lt (get_timestamp p)) in
      let y =
        subst (Answer q ptype_ack r'.w.pos (available r'.w))
          (htonl-htonl (get_timestamp p) (get_timestamp-lt p)) x in
      (
        w,
        r',
        q,
        s,
        del,
        y,
        handle_complete_go io r r' p reply q w k e f
            (fill_ack_lem r'.w (get_timestamp p) reply small pos) y.sendable,
      )

  pub handle_packet_whole :
      (io : Answers) (r : Receiver) (p reply : Pkt)
      → io.reply_allocated ≡ true
      → pkt_new true ≡ some reply
      → Window.has r.w (get_seqnum p) ≡ true
      → get_tr p ≡ 0
      → handle_packet crc32 io r p ≡ handle_complete crc32 io r p reply
  unfolding handle_packet
  handle_packet_whole io r p reply k e h t =
      let z : (get_tr p == 0) ≡ true = ap (λ n. n == 0) t ∙ ==_refl 0 in
      rw (h, handle_packet) (rw (k, e) (rw z))

  pub handle_packet_cut :
      (io : Answers) (r : Receiver) (p reply : Pkt)
      → io.reply_allocated ≡ true
      → pkt_new true ≡ some reply
      → Window.has r.w (get_seqnum p) ≡ true
      → get_tr p ≢ 0
      → handle_packet crc32 io r p ≡ handle_truncated crc32 io r p reply
  unfolding handle_packet
  handle_packet_cut io r p reply k e h t =
      rw (h, handle_packet) (rw (k, e) (rw (ne→== (get_tr p) 0 t)))

  pub handle_truncated_go :
      (io : Answers) (r : Receiver) (p reply q : Pkt)
      → IsWell io
      → fill_nack r.w p reply ≡ returns q
      → IsSendable q
      → handle_truncated crc32 io r p reply ≡ returns (r, datagram crc32 q ∷ [])
  unfolding handle_truncated
  handle_truncated_go io r p reply q k e v =
      rw (e, handle_truncated) (rw (send_packet-datagram crc32 io.scratch q v, k.socket))

  pub decode_received :
      (bounded : (bytes : List ℕ) → crc32 0 bytes < 2 ^ 32) (p q : Pkt)
      → IsSendable p
      → pkt_new true ≡ some q
      → decode crc32 (some (datagram crc32 p)) (length (datagram crc32 p)) q
        ≡ (pkt_ok, received crc32 bounded p)
  decode_received bounded p q v n =
      let e = decode-datagram crc32 bounded p q [] v.fits v.typed v.cut_is_data v.bounded n in
      subst (λ l. decode crc32 (some (datagram crc32 p)) l q ≡ (pkt_ok, received crc32 bounded p))
        (sym (length-datagram crc32 p v))
        (subst
          (λ b. decode crc32 (some b) (get_total_size p) q ≡ (pkt_ok, received crc32 bounded p))
          (append-nil (datagram crc32 p)) e)

  main_loop_go :
      (io : Answers) (r : Receiver) (bytes : List ℕ) (q p : Pkt)
      → pkt_new io.packet_allocated ≡ some q
      → decode crc32 (some bytes) (length bytes) q ≡ (pkt_ok, p)
      → main_loop crc32 io r (some bytes) ≡ handle_packet crc32 io r p
  unfolding main_loop
  main_loop_go io r bytes q p a e = cc

  pub main_loop-datagram :
      (bounded : (bytes : List ℕ) → crc32 0 bytes < 2 ^ 32) (io : Answers) (r : Receiver) (p : Pkt)
      → io.packet_allocated ≡ true
      → IsSendable p
      → main_loop crc32 io r (some (datagram crc32 p))
        ≡ handle_packet crc32 io r (received crc32 bounded p)
  main_loop-datagram bounded io r p k v =
      let (q, n, w) = pkt_new-IsNew in
      let a : pkt_new io.packet_allocated ≡ some q = ap pkt_new k ∙ n in
      main_loop_go io r (datagram crc32 p) q (received crc32 bounded p) a
        (decode_received bounded p q v n)

  handle_packet_silent :
      (io : Answers) (r : Receiver) (p : Pkt)
      → Window.has r.w (get_seqnum p) ≡ false
      → handle_packet crc32 io r p ≡ returns (r, [])
  unfolding handle_packet
  handle_packet_silent io r p h = rw (h, handle_packet)

  -- A packet that is out of the window changes nothing, and gets no answer.
  pub main_loop-silent :
      (bounded : (bytes : List ℕ) → crc32 0 bytes < 2 ^ 32) (io : Answers) (r : Receiver) (p : Pkt)
      → io.packet_allocated ≡ true
      → IsSendable p
      → Window.has r.w (get_seqnum p) ≡ false
      → main_loop crc32 io r (some (datagram crc32 p)) ≡ returns (r, [])
  unfolding get_seqnum
  main_loop-silent bounded io r p k v h =
      main_loop-datagram bounded io r p k v ∙ handle_packet_silent io r (received crc32 bounded p) h
