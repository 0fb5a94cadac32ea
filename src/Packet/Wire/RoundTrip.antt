-- ===== src/Packet/Wire/RoundTrip.antt =====
-- `pkt_encode`, `send_packet` and `pkt_decode` together.
use lossless_transport.Common.{
  ℕ, ◌^◌, ◌<◌, ◌≤◌, ◌≡◌, ◌≢◌, ◌⊎◌, refl, ap, sym, inl, true, some, List, [], ◌++◌, length, take,
  drop, arith, returns, htonl, replicate, length-append, length-take, take-append,
}
use lossless_transport.Packet.{
  Pkt, pkt_ok, header_size, max_payload_size, max_packet_size, ptype_data, get_type, get_tr,
  get_length, get_total_size, get_timestamp, pkt_new,
}
use lossless_transport.Packet.Fields.{IsWellFormed}
use lossless_transport.Packet.Wire.{encode, decode}
use lossless_transport.Packet.Wire.Format.{header, trailer, datagram, big_endian32}
use lossless_transport.Packet.Wire.Encode.{encode-datagram}
use lossless_transport.Packet.Wire.Decode.{received, decode-datagram}
use lossless_transport.Packet.Send.{send_packet}

-- A packet that may be sent: it has a type, TR is set on DATA packets only, and the payload fits.
pub record IsSendable (p : Pkt) : Type 0 where
  pub fits : IsWellFormed p
  pub typed : get_type p ≢ 0
  pub cut_is_data : (get_type p ≡ ptype_data) ⊎ (get_tr p ≡ 0)
  pub bounded : get_length p ≤ max_payload_size

module _ (crc32 : ℕ → List ℕ → ℕ) where
  pub length-datagram : (p : Pkt) → IsSendable p → length (datagram crc32 p) ≡ get_total_size p
  unfolding datagram header trailer get_total_size
  length-datagram p v =
      let b = take (get_length p) p.payload in
      ground
        (arith, length-take (get_length p) p.payload, length-append b (big_endian32 (crc32 0 b)))

  get_total_size-le :
      (p : Pkt) → get_length p ≤ max_payload_size → get_total_size p ≤ max_packet_size
  unfolding get_total_size
  get_total_size-le p h = ground arith

  -- `send_packet` never exits on a packet that may be sent, and sends its datagram, whatever its
  -- local buffer held.
  pub send_packet-datagram :
      (scratch : List ℕ) (p : Pkt)
      → IsSendable p
      → send_packet crc32 scratch p ≡ returns (datagram crc32 p)
  unfolding send_packet
  send_packet-datagram scratch p v =
      let e =
        encode-datagram crc32 p scratch max_packet_size v.fits v.typed v.bounded
          (get_total_size-le p v.bounded) in
      rw (e, send_packet)
        (rw e (
          ap returns
            (take-append (get_total_size p) (datagram crc32 p) _ (sym (length-datagram p v)))))

cut : (p : Pkt) → IsWellFormed p → IsWellFormed (record p { tr = 1 })
cut p v = omega arith

module _ (crc32 : ℕ → List ℕ → ℕ) (bounded : (bytes : List ℕ) → crc32 0 bytes < 2 ^ 32) where
  -- Decoding what `pkt_encode` wrote into a buffer that is large enough gives back the packet, if
  -- it may be sent: read into a new packet, it has the same fields, with both checksums set (the
  -- second only if there is a payload), and the unused part of the payload is zero.
  pub decode-encode :
      (p q : Pkt) (buf : List ℕ) (len : ℕ)
      → IsSendable p
      → get_total_size p ≤ len
      → pkt_new true ≡ some q
      → let r = encode crc32 p buf len in
        (r.0 ≡ pkt_ok) × (decode crc32 (some r.1) r.2 q ≡ (pkt_ok, received crc32 bounded p))
  decode-encode p q buf len v h n =
      rw (encode-datagram crc32 p buf len v.fits v.typed v.bounded h) (
        refl,
        decode-datagram crc32 bounded p q (drop (get_total_size p) buf) v.fits v.typed v.cut_is_data
            v.bounded n,
      )

  -- A DATA packet that the network cuts to its header, setting TR, is accepted, as the same
  -- packet with TR set and an empty payload: the checksum of the header does not cover TR.
  pub decode_truncated :
      (p q : Pkt)
      → IsSendable p
      → get_type p ≡ ptype_data
      → pkt_new true ≡ some q
      → decode crc32 (some (header p 1 ++ big_endian32 (crc32 0 (header p 0)))) header_size q ≡ (
        pkt_ok,
        record p {
          tr = 1;
          crc1 = htonl (crc32 0 (header p 0));
          payload = replicate max_payload_size 0;
          crc2 = 0;
        },
      )
  unfolding datagram header get_length get_total_size get_type get_tr get_timestamp
  decode_truncated p q v d n =
      let t = record p { tr = 1 } in
      decode-datagram crc32 bounded t q [] (cut p v.fits) v.typed (inl d) (omega arith) n
