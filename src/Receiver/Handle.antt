-- ===== src/Receiver/Handle.antt =====
-- `main_loop` of src/receiver.c from the datagram to the reply.
use lossless_transport.Common.{
  ℕ, ◌^◌, ◌<◌, ◌≤◌, ◌≡◌, ◌≢◌, ◌∙◌, subst, true, some, List, [], ◌∷◌, returns, arith,
}
use lossless_transport.Packet.{
  Pkt, ptype_ack, ptype_nack, max_window_size, get_tr, get_seqnum, get_timestamp,
}
use lossless_transport.Packet.Wire.Format.{datagram}
use lossless_transport.Packet.Wire.RoundTrip.{IsSendable}
use lossless_transport.Window
use lossless_transport.Window.{Window, Code, done, failed, available, find_seqnum, push}
use lossless_transport.Window.Search.{IsAbsent}
use lossless_transport.Window.Invariant.{IsSound}
use lossless_transport.Receiver.{Receiver, Answers}
use lossless_transport.Receiver.{main_loop}
use lossless_transport.Packet.Wire.Decode.{received}
use lossless_transport.Receiver.Reply.{
  Answer, pkt_new-IsNew, available-le, reply_packet, reply_packet-Answer, fill_nack_lem,
}
use lossless_transport.Receiver.Store.{Stores}
use lossless_transport.Receiver.Deliver.{DistinctTimes, Delivered}
use lossless_transport.Receiver.Datagram.{
  handle_complete_lem, handle_packet_whole, handle_packet_cut, handle_truncated_go,
  main_loop-datagram, IsWell,
}

module _ (crc32 : ℕ → List ℕ → ℕ) where
  -- The datagram of a packet in the window, which was not cut, is always answered by one ACK,
  -- after the packet was stored and the packets in sequence were written: with the number at
  -- which the window now starts, the free room in the buffer, and the timestamp of the packet. It
  -- holds if the system fails nothing, the window is one of at most 31 packets with numbers below
  -- 256, and no packet of the buffer has the timestamp of another or of the one received.
  pub main_loop-acks :
      (bounded : (bytes : List ℕ) → crc32 0 bytes < 2 ^ 32) (io : Answers) (r : Receiver) (p : Pkt)
      → IsWell io
      → IsSound r.w
      → r.w.capacity ≤ max_window_size
      → r.w.max_seqnum ≤ 255
      → DistinctTimes r.w.front
      → IsSendable p
      → IsAbsent get_timestamp (get_timestamp p) r.w.front
      → Window.has r.w (get_seqnum p) ≡ true
      → get_tr p ≡ 0
      → (w : Window) × (r' : Receiver) × (q : Pkt) × Stores r.w (received crc32 bounded p) w
        × Delivered (record r { w = w }) r'
        × Answer q ptype_ack r'.w.pos (available r'.w) (get_timestamp p)
        × (main_loop crc32 io r (some (datagram crc32 p)) ≡ returns (r', datagram crc32 q ∷ []))
  unfolding get_timestamp get_seqnum get_tr
  main_loop-acks bounded io r p k v c m d s a h t =
      let (reply, e, n) = pkt_new-IsNew in
      let u = received crc32 bounded p in
      let (w, r', q, st, del, y, f) = handle_complete_lem crc32 io r u reply k n v c m d a in
      (
        w,
        r',
        q,
        st,
        del,
        y,
        main_loop-datagram crc32 bounded io r p k.packet s
            ∙ handle_packet_whole crc32 io r u reply k.reply e h t
            ∙ f,
      )

  -- The datagram of a packet in the window with TR set is always answered by one NACK, with its
  -- number and the free room in the buffer, and nothing changes, if the system fails nothing and
  -- the window is one of at most 31 packets.
  pub main_loop-nacks :
      (bounded : (bytes : List ℕ) → crc32 0 bytes < 2 ^ 32) (io : Answers) (r : Receiver) (p : Pkt)
      → IsWell io
      → IsSound r.w
      → r.w.capacity ≤ max_window_size
      → IsSendable p
      → Window.has r.w (get_seqnum p) ≡ true
      → get_tr p ≢ 0
      → (q : Pkt) × Answer q ptype_nack (get_seqnum p) (available r.w) 0
        × (main_loop crc32 io r (some (datagram crc32 p)) ≡ returns (r, datagram crc32 q ∷ []))
  unfolding get_timestamp get_seqnum get_tr
  main_loop-nacks bounded io r p k v c s h t =
      let (reply, e, n) = pkt_new-IsNew in
      let u = received crc32 bounded p in
      let room = available-le r.w v.buffer in
      let small : available r.w < 32 = omega (arith, room, c) in
      let q = reply_packet reply ptype_nack (get_seqnum p) (available r.w) reply.timestamp in
      let x =
        reply_packet-Answer reply ptype_nack (get_seqnum p) (available r.w) reply.timestamp n
          (omega arith) (omega arith) s.fits.seqnum_fits small n.fits.timestamp_fits in
      let y = subst (Answer q ptype_nack (get_seqnum p) (available r.w)) n.untimed x in
      (
        q,
        y,
        main_loop-datagram crc32 bounded io r p k.packet s
            ∙ handle_packet_cut crc32 io r u reply k.reply e h t
            ∙ handle_truncated_go crc32 io r u reply q k (fill_nack_lem r.w u reply small)
                y.sendable,
      )
