-- ===== src/Packet/Wire/Decode.antt =====
-- `pkt_decode` of src/packet_implem.c on the datagram of a packet.
use lossless_transport.Common.{
  ℕ, ◌+◌, ◌-◌, ◌*◌, ◌/◌, ◌%◌, ◌^◌, ◌<◌, ◌≤◌, ◌≡◌, ◌≢◌, ◌⊎◌, refl, sym, ◌∙◌, true, some, List, [],
  ◌++◌, append_assoc, ◌==◌, if◌then◌else◌, take, drop, replicate, length, arith, length-take,
  take-append, drop-append, drop-length-add, drop-replicate, le→ltb, ==_refl, lt→ltb, htonl, htons,
  ℕ_discrete, htonl-htonl, word16, word32,
}
use lossless_transport.Packet.{
  Pkt, pkt_ok, header_size, max_payload_size, ptype_data, get_type, get_length, get_total_size,
  get_timestamp, get_tr, get_window, get_crc1, get_crc2, pkt_new,
}
use lossless_transport.Packet.Fields.{IsWellFormed}
use lossless_transport.Packet.Wire.{
  load_header, load_crc2, compute_crc2, decode_payload, decode_fields, decode,
}
use lossless_transport.Packet.Wire.Format.{
  header, trailer, datagram, big_endian32, compute_crc1-header,
}

word16-big_endian : (x : ℕ) → x < 2 ^ 16 → word16 (htons x / 256 % 256) (htons x % 256) ≡ x
unfolding htons
word16-big_endian x h = omega arith

word32-big_endian :
    (c : ℕ) → word32 (c / 16777216 % 256) (c / 65536 % 256) (c / 256 % 256) (c % 256) ≡ htonl c
unfolding htonl
word32-big_endian c = omega arith

-- The packet after the header `h`, with checksum `c`, of `p` is copied over `q`.
abbrev loaded : Pkt → Pkt → ℕ → Pkt
loaded p q c = record q {
  window = p.window;
  tr = p.tr;
  type = p.type;
  seqnum = p.seqnum;
  length = p.length;
  timestamp = p.timestamp;
  crc1 = htonl c;
}

first_byte :
    (w t y : ℕ)
    → w < 32
    → t < 2
    → y < 4
    → ((64 * y + 32 * t + w) % 32 ≡ w)
      × ((64 * y + 32 * t + w) / 32 % 2 ≡ t)
      × ((64 * y + 32 * t + w) / 64 % 4 ≡ y)
first_byte w t y a b c = omega arith

load_header-header :
    (p q : Pkt) (c : ℕ) (rest : List ℕ)
    → IsWellFormed p
    → load_header ((header p p.tr ++ big_endian32 c) ++ rest) q ≡ loaded p q c
unfolding load_header header get_timestamp
load_header-header p q c rest v =
    let b = first_byte p.window p.tr p.type v.window_fits v.tr_fits v.type_fits in
    λ i. record {
      window = b.0 i;
      tr = b.1 i;
      type = b.2 i;
      seqnum = p.seqnum;
      length = word16-big_endian p.length v.length_fits i;
      timestamp =
          (word32-big_endian (htonl p.timestamp) ∙ htonl-htonl p.timestamp v.timestamp_fits) i;
      crc1 = word32-big_endian c i;
      payload = q.payload;
      crc2 = q.crc2;
    }

header-loaded : (p q : Pkt) (c : ℕ) → header (loaded p q c) 0 ≡ header p 0
unfolding header get_timestamp
header-loaded p q c = refl

length-header : (p : Pkt) (c : ℕ) → length (header p p.tr ++ big_endian32 c) ≡ header_size
unfolding header
length-header p c = refl

get_total_size-ge : (p : Pkt) → header_size ≤ get_total_size p
unfolding get_total_size
get_total_size-ge p = ground arith

pkt_new-zeroed :
    (q : Pkt) → pkt_new true ≡ some q → (q.payload ≡ replicate max_payload_size 0) × (q.crc2 ≡ 0)
unfolding pkt_new
pkt_new-zeroed q e = ground arith

module _ (crc32 : ℕ → List ℕ → ℕ) (bounded : (bytes : List ℕ) → crc32 0 bytes < 2 ^ 32) where
  -- The packet that a receiver holds after decoding the datagram of `p` into a new packet.
  abbrev pub received : Pkt → Pkt
  received p = record p {
    crc1 = htonl (crc32 0 (header p 0));
    payload = take (get_length p) p.payload ++ replicate (max_payload_size - get_length p) 0;
    crc2 = if get_length p == 0 then 0 else htonl (crc32 0 (take (get_length p) p.payload));
  }

  -- Past the checks of the fields.
  decode_fields_pass :
      (p q : Pkt) (bytes : List ℕ)
      → get_type p ≢ 0
      → (get_type p ≡ ptype_data) ⊎ (get_tr p ≡ 0)
      → get_length p ≤ max_payload_size
      → p.window < 32
      → let r = loaded p q (crc32 0 (header p 0)) in
        decode_fields crc32 bytes (get_total_size p) r
        ≡ decode_payload crc32 bytes (get_length p * 1) r
  unfolding decode_fields get_type get_tr get_length get_window get_total_size get_crc1
  decode_fields_pass p q bytes t d l w = ground (
    arith,
    compute_crc1-header crc32 (loaded p q (crc32 0 (header p 0))),
    header-loaded p q (crc32 0 (header p 0)),
    htonl-htonl (crc32 0 (header p 0)),
    bounded (header p 0),
  )

  -- An empty payload: nothing is copied.
  decode_payload_empty : (bytes : List ℕ) (p : Pkt) → decode_payload crc32 bytes 0 p ≡ (pkt_ok, p)
  unfolding decode_payload
  decode_payload_empty bytes p = refl

  -- A payload of the length announced, with its checksum.
  decode_payload_full :
      (bytes body rest : List ℕ) (p : Pkt)
      → take (length body) (drop header_size bytes) ≡ body
      → drop (header_size + length body) bytes ≡ big_endian32 (crc32 0 body) ++ rest
      → 0 < length body
      → decode_payload crc32 bytes (length body) p ≡ (
        pkt_ok,
        record p { payload = body ++ drop (length body) p.payload; crc2 = htonl (crc32 0 body) },
      )
  unfolding decode_payload load_crc2 get_crc2 compute_crc2
  decode_payload_full bytes body rest p e f h = rw (
    e,
    f,
    word32-big_endian (crc32 0 body),
    htonl-htonl (crc32 0 body) (bounded body),
    take-append (length body) body (drop (length body) p.payload) refl,
    ==_refl (crc32 0 body),
    lt→ltb 0 (length body) h,
  )

  -- The datagram past the header.
  tail : Pkt → List ℕ
  tail p = if get_length p == 0 then [] else trailer crc32 (take (get_length p) p.payload)

  payload_parts :
      (p : Pkt) (start rest : List ℕ)
      → length start ≡ header_size
      → length p.payload ≡ max_payload_size
      → get_length p ≤ max_payload_size
      → let body = take (get_length p) p.payload in
        let bytes = start ++ (trailer crc32 body ++ rest) in
        (length body ≡ get_length p)
        × (take (length body) (drop header_size bytes) ≡ body)
        × (drop (header_size + length body) bytes ≡ big_endian32 (crc32 0 body) ++ rest)
  unfolding trailer
  payload_parts p start rest s v l =
      let body = take (get_length p) p.payload in
      let crc = big_endian32 (crc32 0 body) in
      (
        omega (arith, length-take (get_length p) p.payload),
        rw (drop-append header_size start ((body ++ crc) ++ rest) (sym s), append_assoc)
            (take-append (length body) body (crc ++ rest) refl),
        rw (
          ← s,
          drop-length-add start ((body ++ crc) ++ rest) (length body),
          append_assoc,
          drop-append (length body) body (crc ++ rest) refl,
        ),
      )

  payload-tail :
      (p q : Pkt) (start rest : List ℕ)
      → length p.payload ≡ max_payload_size
      → q.payload ≡ replicate max_payload_size 0
      → q.crc2 ≡ 0
      → get_length p ≤ max_payload_size
      → length start ≡ header_size
      → decode_payload crc32 (start ++ (tail p ++ rest)) (get_length p * 1) q ≡ (
        pkt_ok,
        record q {
          payload = take (get_length p) p.payload ++ replicate (max_payload_size - get_length p) 0;
          crc2 = if get_length p == 0 then 0 else htonl (crc32 0 (take (get_length p) p.payload));
        },
      )
  unfolding tail trailer
  payload-tail p q start rest v z z2 l s = elim (ℕ_discrete (get_length p) 0) [
    | yes e ↦ rw e (
        decode_payload_empty (start ++ ([] ++ rest)) q ∙ λ i.
        (pkt_ok, record q { payload = z i; crc2 = z2 i }))
    | no e ↦
        let body = take (get_length p) p.payload in
        let bytes = start ++ (trailer crc32 body ++ rest) in
        let (n, t, r) = payload_parts p start rest s v l in
        let full = decode_payload_full bytes body rest q t r (omega arith) in
        ground (arith, full, drop-replicate {A = ℕ} (get_length p) max_payload_size 0)
  ]

  -- decode
  pub decode-datagram :
      (p q : Pkt) (rest : List ℕ)
      → IsWellFormed p
      → get_type p ≢ 0
      → (get_type p ≡ ptype_data) ⊎ (get_tr p ≡ 0)
      → get_length p ≤ max_payload_size
      → pkt_new true ≡ some q
      → decode crc32 (some (datagram crc32 p ++ rest)) (get_total_size p) q ≡ (pkt_ok, received p)
  unfolding decode datagram tail
  decode-datagram p q rest v t d l n =
      let start = header p p.tr ++ big_endian32 (crc32 0 (header p 0)) in
      let r = loaded p q (crc32 0 (header p 0)) in
      let (z, z') = pkt_new-zeroed q n in
      rw
        (
          append_assoc start (tail p) rest,
          load_header-header p q (crc32 0 (header p 0)) (tail p ++ rest) v,
          le→ltb (get_total_size p) header_size (get_total_size-ge p),
          decode_fields_pass p q (start ++ (tail p ++ rest)) t d l v.window_fits,
        )
        (payload-tail p r start rest v.payload_size z z' l (length-header p (crc32 0 (header p 0))))
