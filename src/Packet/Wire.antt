-- ===== src/Packet/Wire.antt =====
-- src/packet_implem.c: the packet in memory and on the wire, its checksums, `pkt_encode` and
-- `pkt_decode`. `crc32` is zlib's function, a parameter.
pub mod Format
pub mod RoundTrip
pub mod Checks
pub mod Decode
pub mod Encode
use lossless_transport.Common.{
  ℕ, ◌+◌, ◌-◌, ◌*◌, ◌/◌, ◌%◌, not, ◌&&◌, Option, none, some, List, ◌∷◌, ◌++◌, ltb, ◌==◌,
  if◌then◌else◌, take, drop, length, get_or, memory16, memory32, word16, word32,
}
use lossless_transport.Packet.{
  Pkt, Status, pkt_ok, e_type, e_tr, e_length, e_crc, e_window, e_nomem, e_noheader, e_unconsistent,
  ptype_data, header_size, max_payload_size, max_window_size, get_type, get_tr, get_window,
  get_length, get_crc1, get_crc2, get_total_size, set_crc1, set_crc2, copy_payload,
}

-- The first 12 bytes of the packed struct; gcc allots bit fields from the low bit up.
unfoldable pub header_memory : Pkt → List ℕ
header_memory p =
    (p.window + 32 * p.tr + 64 * p.type)
    ∷ p.seqnum
    ∷ (memory16 p.length ++ (memory32 p.timestamp ++ memory32 p.crc1))

-- The whole struct
unfoldable pub struct_memory : Pkt → List ℕ
struct_memory p = header_memory p ++ (p.payload ++ memory32 p.crc2)

abbrev word16_at : List ℕ → ℕ → ℕ
word16_at bytes i = word16 (get_or bytes i 0) (get_or bytes (i + 1) 0)

abbrev word32_at : List ℕ → ℕ → ℕ
word32_at bytes i =
    word32 (get_or bytes i 0) (get_or bytes (i + 1) 0) (get_or bytes (i + 2) 0)
      (get_or bytes (i + 3) 0)

-- `memcpy (pkt, data, HEADER_SIZE)`
unfoldable pub load_header : List ℕ → Pkt → Pkt
load_header bytes p = record p {
  window = get_or bytes 0 0 % 32;
  tr = get_or bytes 0 0 / 32 % 2;
  type = get_or bytes 0 0 / 64 % 4;
  seqnum = get_or bytes 1 0;
  length = word16_at bytes 2;
  timestamp = word32_at bytes 4;
  crc1 = word32_at bytes 8;
}

-- `memcpy (&pkt->crc2, data, sizeof (pkt->crc2))`
unfoldable pub load_crc2 : List ℕ → Pkt → Pkt
load_crc2 bytes p = record p { crc2 = word32_at bytes 0 }

-- `memcpy (buf + offset, bytes, …)`
unfoldable pub write_at : List ℕ → ℕ → List ℕ → List ℕ
write_at buf offset bytes = take offset buf ++ (bytes ++ drop (offset + length bytes) buf)

module _ (crc32 : ℕ → List ℕ → ℕ) where
  unfoldable pub compute_crc1 : Pkt → ℕ
  compute_crc1 p = crc32 0 (take (header_size - 4) (header_memory (record p { tr = 0 })))

  unfoldable pub compute_crc2 : Pkt → ℕ → ℕ
  compute_crc2 p len = crc32 0 (take len p.payload)

  -- From the copy of the payload on.
  unfoldable pub decode_payload : List ℕ → ℕ → Pkt → Status × Pkt
  decode_payload bytes payload_size p =
      let q = copy_payload (drop header_size bytes) payload_size p in
      let r = load_crc2 (drop (header_size + payload_size) bytes) q in
      if ltb 0 payload_size
      then (if not (get_crc2 r == compute_crc2 r payload_size) then (e_crc, r) else (pkt_ok, r))
      else (pkt_ok, q)

  -- From the checks of the fields on.
  unfoldable pub decode_fields : List ℕ → ℕ → Pkt → Status × Pkt
  decode_fields bytes len p =
      let payload_size = get_length p * 1 in
      if get_type p == 0
      then (e_type, p)
      else if not (get_type p == ptype_data) && not (get_tr p == 0)
      then (e_tr, p)
      else if ltb max_window_size (get_window p)
      then (e_window, p)
      else if ltb max_payload_size payload_size
      then (e_length, p)
      else if not (len == get_total_size p)
      then (e_unconsistent, p)
      else if not (get_crc1 p == compute_crc1 p)
      then (e_crc, p)
      else decode_payload bytes payload_size p

  -- `none` is a NULL `data`; `bytes` is the memory from `data` on, `len` what was received of it.
  unfoldable pub decode : Option (List ℕ) → ℕ → Pkt → Status × Pkt
  decode none len p = (e_noheader, p)
  decode (some bytes) len p =
      if ltb len header_size then (e_noheader, p) else decode_fields bytes len (load_header bytes p)

  -- The copy `p` with both checksums set.
  unfoldable pub seal : Pkt → Pkt
  seal p =
      let q = (set_crc1 p (compute_crc1 p)).1 in (set_crc2 q (compute_crc2 q (get_length p * 1))).1

  -- The status, the buffer and `*len` afterwards.
  unfoldable pub encode : Pkt → List ℕ → ℕ → Status × List ℕ × ℕ
  encode p buf len =
      let payload_size = get_length p * 1 in
      let q = seal p in
      let written = header_size + payload_size in
      let buf' = write_at buf 0 (take written (struct_memory q)) in
      if get_type p == 0
      then (e_type, buf, len)
      else if ltb len (get_total_size p)
      then (e_nomem, buf, 0)
      else if ltb 0 payload_size
      then (pkt_ok, write_at buf' written (memory32 q.crc2), written + 4)
      else (pkt_ok, buf', written)
