-- ===== src/Packet/Tests.antt =====
-- The packet's theorems at concrete packets, with a stand-in for zlib's checksum.
use lossless_transport.Common.{
  ℕ, ◌+◌, ◌*◌, ◌%◌, ◌^◌, ◌<◌, ◌≤◌, ◌≡◌, ◌≢◌, ◌↔◌, ◌⊎◌, refl, inl, some, List, [], ◌∷◌, ◌++◌, drop,
  replicate, length, arith, true, returns, htons, htonl, ℕ_discrete, dec_lt,
}
use lossless_transport.Packet.{
  get_payload, Pkt, pkt_ok, e_type, e_window, e_seqnum, e_nomem, header_size, max_payload_size,
  pkt_new, get_type, get_tr, get_window, get_length, get_timestamp, get_total_size, get_crc1,
  get_crc2,
}
use lossless_transport.Packet.Fields.{
  IsWellFormed, IsValid, call, sets_payload, sets_type, sets_length,
}
use lossless_transport.Packet.Fields.Laws.{
  pkt_new-IsValid, call_refused, call-IsValid, call-IsLegal,
}
use lossless_transport.Packet.Fields.Frame.{view, updated, call-view}
use lossless_transport.Packet.Repr.{formatted, repr-fits}
use lossless_transport.Packet.Send.{send_packet}
use lossless_transport.Packet.Wire.{
  encode, decode, decode_payload, decode_fields, seal, load_header, load_crc2, compute_crc1,
  compute_crc2, header_memory,
}
use lossless_transport.Packet.Wire.Format.{header, datagram, big_endian32}
use lossless_transport.Packet.Wire.Encode.{encode-datagram}
use lossless_transport.Packet.Wire.Decode.{received}
use lossless_transport.Packet.Wire.Checks.{
  IsAccepted, decode-IsAccepted, decode-ne-window, encode-cases, decode-IsWellFormed,
}
use lossless_transport.Packet.Wire.RoundTrip.{
  IsSendable, decode-encode, send_packet-datagram, decode_truncated,
}

abbrev pub checksum : ℕ → List ℕ → ℕ
checksum c [] = c % 2 ^ 32
checksum c (b ∷ bytes) = checksum (31 * c + b) bytes

checksum-lt_from : (c : ℕ) (bytes : List ℕ) → checksum c bytes < 2 ^ 32
checksum-lt_from c [] = omega arith
checksum-lt_from c (b ∷ bytes) = checksum-lt_from (31 * c + b) bytes

pub checksum-lt : (bytes : List ℕ) → checksum 0 bytes < 2 ^ 32
checksum-lt = checksum-lt_from 0

abbrev pub blank : Pkt
blank = record {
  window = 0;
  tr = 0;
  type = 0;
  seqnum = 0;
  length = 0;
  timestamp = 0;
  crc1 = 0;
  crc2 = 0;
  payload = replicate 512 0;
}

-- DATA with number 7, timestamp 23 and the payload 1, 2, 3
abbrev pub small : Pkt
small = record {
  window = 5;
  tr = 0;
  type = 1;
  seqnum = 7;
  length = 768;
  timestamp = 385875968;
  crc1 = 0;
  crc2 = 0;
  payload = 1 ∷ 2 ∷ 3 ∷ replicate 509 0;
}

small_reads : (get_length small ≡ 3) × (get_timestamp small ≡ 23) × (get_total_size small ≡ 19)
unfolding get_length get_timestamp get_total_size htons htonl ℕ_discrete
small_reads = (refl, refl, refl)

small-IsWellFormed : IsWellFormed small
small-IsWellFormed = record {
  window_fits = omega arith;
  tr_fits = omega arith;
  type_fits = omega arith;
  seqnum_fits = omega arith;
  length_fits = omega arith;
  timestamp_fits = omega arith;
  crc1_fits = omega arith;
  crc2_fits = omega arith;
  payload_size = refl;
}

pub small-IsSendable : IsSendable small
unfolding get_type get_length
small-IsSendable = record {
  fits = small-IsWellFormed;
  typed = omega arith;
  cut_is_data = inl refl;
  bounded = omega (arith, small_reads.0);
}

-- The same packet, cut by the network.
abbrev pub cut_small : Pkt
cut_small = record small { tr = 1 }

pub cut_small-IsSendable : IsSendable cut_small
unfolding get_type get_length ℕ_discrete
cut_small-IsSendable = record {
  fits = omega (arith, small-IsWellFormed);
  typed = omega arith;
  cut_is_data = inl refl;
  bounded = omega arith;
}

blank-IsWellFormed : IsWellFormed blank
blank-IsWellFormed = record {
  window_fits = omega arith;
  tr_fits = omega arith;
  type_fits = omega arith;
  seqnum_fits = omega arith;
  length_fits = omega arith;
  timestamp_fits = omega arith;
  crc1_fits = omega arith;
  crc2_fits = omega arith;
  payload_size = refl;
}

new_blank : pkt_new true ≡ some blank
unfolding pkt_new
new_blank = refl

abbrev buffer : List ℕ
buffer = replicate 30 9

decode-encode_example :
    ((encode checksum small buffer 30).0 ≡ pkt_ok)
    × (decode checksum
          (some (encode checksum small buffer 30).1)
          (encode checksum small buffer 30).2
          blank
        ≡ (pkt_ok, received checksum checksum-lt small))
decode-encode_example =
    decode-encode checksum checksum-lt small blank buffer 30 small-IsSendable
      (omega (arith, small_reads.2)) new_blank

encode-datagram_example :
    encode checksum small buffer 30
    ≡ (pkt_ok, datagram checksum small ++ drop (get_total_size small) buffer, get_total_size small)
encode-datagram_example =
    encode-datagram checksum small buffer 30 small-IsWellFormed small-IsSendable.typed
      small-IsSendable.bounded (omega (arith, small_reads.2))

send_packet-datagram_example : send_packet checksum [] small ≡ returns (datagram checksum small)
send_packet-datagram_example = send_packet-datagram checksum [] small small-IsSendable

decode_truncated_example :
    decode checksum
      (some (header small 1 ++ big_endian32 (checksum 0 (header small 0))))
      header_size
      blank
    ≡ (
      pkt_ok,
      record small {
        tr = 1;
        crc1 = htonl (checksum 0 (header small 0));
        payload = replicate max_payload_size 0;
        crc2 = 0;
      },
    )
unfolding get_type
decode_truncated_example =
    decode_truncated checksum checksum-lt small blank small-IsSendable refl new_blank

-- The bytes of the datagram of `small`.
abbrev wire : List ℕ
wire =
    69 ∷ 7 ∷ 0 ∷ 3 ∷ 0 ∷ 0 ∷ 0 ∷ 23 ∷ big_endian32 (checksum 0 (header small 0))
    ++ 1 ∷ 2 ∷ 3 ∷ big_endian32 (checksum 0 (1 ∷ 2 ∷ 3 ∷ []))

abbrev decoded : Pkt
decoded = (decode checksum (some wire) 19 blank).1

decoded_ok : decode checksum (some wire) 19 blank ≡ (pkt_ok, decoded)
unfolding decode decode_payload decode_fields seal load_header load_crc2 compute_crc1 compute_crc2
    header header_memory get_length get_timestamp get_total_size get_type get_tr get_window get_crc1
    get_crc2 htons htonl ℕ_discrete dec_lt
decoded_ok = refl

decode-IsAccepted_example : IsAccepted checksum 19 decoded
decode-IsAccepted_example = decode-IsAccepted checksum wire 19 blank decoded decoded_ok

decode-ne-window_example :
    ((decode checksum (some wire) 19 blank).0 ≢ e_window)
    × ((decode checksum (some wire) 19 blank).0 ≢ e_seqnum)
    × ((decode checksum (some wire) 19 blank).0 ≢ e_nomem)
decode-ne-window_example = decode-ne-window checksum (some wire) 19 blank

encode-cases_example :
    ((get_type small ≡ 0) × (encode checksum small buffer 18 ≡ (e_type, buffer, 18)))
    ⊎ (((get_type small ≢ 0)
          × (18 < get_total_size small)
          × (encode checksum small buffer 18 ≡ (e_nomem, buffer, 0)))
        ⊎ ((get_type small ≢ 0)
            × (get_total_size small ≤ 18)
            × ((encode checksum small buffer 18).0 ≡ pkt_ok)
            × ((encode checksum small buffer 18).2 ≡ get_total_size small)))
encode-cases_example = encode-cases checksum small buffer 18

decode-IsWellFormed_example : IsWellFormed (decode checksum (some wire) 19 blank).1
decode-IsWellFormed_example =
    decode-IsWellFormed checksum wire 19 blank (ground arith) (omega arith) blank-IsWellFormed

call-IsValid_example : IsValid (call blank (sets_payload (some (1 ∷ 2 ∷ 3 ∷ [])) 3)).1
call-IsValid_example =
    call-IsValid blank (sets_payload (some (1 ∷ 2 ∷ 3 ∷ [])) 3) (omega arith, omega arith)
      (pkt_new-IsValid new_blank)

call-IsLegal_example : ((call blank (sets_type 4)).0 ≡ pkt_ok) ↔ ((0 < 4) × (4 < 4))
call-IsLegal_example = call-IsLegal blank (sets_type 4)

blank_refuses : (call blank (sets_type 4)).0 ≢ pkt_ok
blank_refuses = λ e. omega (arith, (call-IsLegal blank (sets_type 4)).0 e)

call_refused_example : (call blank (sets_type 4)).1 ≡ blank
call_refused_example = call_refused blank (sets_type 4) blank_refuses

repr-fits_example : length (formatted small) + 1 ≤ 1024
repr-fits_example = repr-fits small small-IsWellFormed

call-view_example :
    (view (call small (sets_length 2)).1
      ≡ record (view small) { length = 2; payload = 1 ∷ 2 ∷ replicate 510 0 })
    × (get_length (call small (sets_length 2)).1 ≡ 2)
    × (get_payload (call small (sets_length 2)).1 ≡ some (1 ∷ 2 ∷ replicate 510 0))
unfolding updated view get_tr
call-view_example = call-view small (sets_length 2) refl (omega arith) (omega arith)
