-- ===== src/Packet/Wire/Encode.antt =====
-- `pkt_encode` of src/packet_implem.c and the datagram of the packet.
use lossless_transport.Common.{
  ℕ, ◌+◌, ◌*◌, ◌≤◌, ◌≡◌, ◌≢◌, refl, ap, ap₂, sym, ◌∙◌, List, ◌++◌, append_assoc, take, drop, length,
  memory32, arith, length-append, length-take, take-append, take-append_le, take-length-add,
  drop-length-add, drop-drop, ne→==, ℕ_discrete,
}
use lossless_transport.Packet.{
  Pkt, pkt_ok, header_size, max_payload_size, get_type, get_length, get_total_size, set_crc1,
  set_crc2, get_timestamp,
}
use lossless_transport.Packet.Fields.{IsWellFormed}
use lossless_transport.Packet.Wire.{
  header_memory, struct_memory, write_at, compute_crc2, seal, encode,
}
use lossless_transport.Packet.Wire.Format.{
  header, trailer, datagram, big_endian32, memory32-htonl, header_memory-header,
  compute_crc1-header,
}

-- What is written at the start, and then just after what was written.
write_at-zero : (buf xs : List ℕ) → write_at buf 0 xs ≡ xs ++ drop (length xs) buf
unfolding write_at
write_at-zero buf xs =
    let e : 0 + length xs ≡ length xs = omega arith in ap (λ (k : ℕ). xs ++ drop k buf) e

write_at-end :
    (buf xs ys : List ℕ)
    → write_at (xs ++ drop (length xs) buf) (length xs) ys
      ≡ (xs ++ ys) ++ drop (length (xs ++ ys)) buf
unfolding write_at
write_at-end buf xs ys = rw (
  take-append (length xs) xs (drop (length xs) buf) refl,
  drop-length-add xs (drop (length xs) buf) (length ys),
  drop-drop (length xs) (length ys) buf,
  length-append xs ys,
  append_assoc,
)

length-header_memory : (p : Pkt) → length (header_memory p) ≡ 12
unfolding header_memory
length-header_memory p = refl

take-struct_memory :
    (p : Pkt) (n : ℕ)
    → n ≤ length p.payload
    → take (header_size + n) (struct_memory p) ≡ header_memory p ++ take n p.payload
unfolding struct_memory
take-struct_memory p n h =
    ap (λ (k : ℕ). take (k + n) (struct_memory p)) (sym (length-header_memory p))
    ∙ take-length-add (header_memory p) (p.payload ++ memory32 p.crc2) n
    ∙ ap (◌++◌ (header_memory p)) (take-append_le n p.payload (memory32 p.crc2) h)

module _ (crc32 : ℕ → List ℕ → ℕ) where
  header_memory-seal :
      (p : Pkt)
      → header_memory (seal crc32 p) ≡ header p p.tr ++ big_endian32 (crc32 0 (header p 0))
  unfolding seal set_crc1 set_crc2 header get_timestamp
  header_memory-seal p =
      header_memory-header (seal crc32 p)
      ∙ ap (◌++◌ (header p p.tr)) (memory32-htonl _)
      ∙ ap (λ (c : ℕ). header p p.tr ++ big_endian32 c) (compute_crc1-header crc32 p)

  -- What `pkt_encode` copies of the sealed packet, up to the end of the payload.
  copied : Pkt → List ℕ
  copied p = take (header_size + get_length p * 1) (struct_memory (seal crc32 p))

  copied_lem :
      (p : Pkt)
      → IsWellFormed p
      → get_length p ≤ max_payload_size
      → copied p
        ≡ (header p p.tr ++ big_endian32 (crc32 0 (header p 0))) ++ take (get_length p) p.payload
  unfolding copied
  copied_lem p v l =
      let e : get_length p * 1 ≡ get_length p = omega arith in
      rw e (
        take-struct_memory (seal crc32 p) (get_length p)
          (unfold seal set_crc1 set_crc2 in omega arith)
        ∙ ap₂ ◌++◌ (header_memory-seal p) (unfold seal set_crc1 set_crc2 in refl))

  length-copied :
      (p : Pkt)
      → IsWellFormed p
      → get_length p ≤ max_payload_size
      → length (copied p) ≡ header_size + get_length p * 1
  unfolding header
  length-copied p v l = rw (copied_lem p v l) (omega (arith, length-take (get_length p) p.payload))

  memory32-seal :
      (p : Pkt)
      → memory32 (seal crc32 p).crc2 ≡ big_endian32 (crc32 0 (take (get_length p) p.payload))
  unfolding seal set_crc1 set_crc2 compute_crc2
  memory32-seal p = let e : get_length p * 1 ≡ get_length p = omega arith in rw e (memory32-htonl _)

  datagram_empty : (p : Pkt) → IsWellFormed p → get_length p ≡ 0 → datagram crc32 p ≡ copied p
  unfolding datagram
  datagram_empty p v e = sym (copied_lem p v (omega arith) ∙ rw e)

  datagram_full :
      (p : Pkt)
      → IsWellFormed p
      → get_length p ≤ max_payload_size
      → get_length p ≢ 0
      → datagram crc32 p ≡ copied p ++ memory32 (seal crc32 p).crc2
  unfolding datagram trailer
  datagram_full p v l e =
      let start = header p p.tr ++ big_endian32 (crc32 0 (header p 0)) in
      let body = take (get_length p) p.payload in
      rw (copied_lem p v l, memory32-seal p, ne→== _ _ e)
        (sym (append_assoc start body (big_endian32 (crc32 0 body))))

  -- A packet with a type and at most 512 bytes of payload, given room, is written as its datagram
  -- at the start of the buffer; the rest of the buffer stays, and the length is that written.
  pub encode-datagram :
      (p : Pkt) (buf : List ℕ) (len : ℕ)
      → IsWellFormed p
      → get_type p ≢ 0
      → get_length p ≤ max_payload_size
      → get_total_size p ≤ len
      → encode crc32 p buf len
        ≡ (pkt_ok, datagram crc32 p ++ drop (get_total_size p) buf, get_total_size p)
  unfolding encode get_total_size copied
  encode-datagram p buf len v t l h = elim (ℕ_discrete (get_length p) 0) [
    | yes e ↦
        ground (arith, datagram_empty p v e, write_at-zero buf (copied p), length-copied p v l)
    | no e ↦ ground (
      arith,
      datagram_full p v l e,
      write_at-zero buf (copied p),
      write_at-end buf (copied p) (memory32 (seal crc32 p).crc2),
      length-copied p v l,
      length-append (copied p) (memory32 (seal crc32 p).crc2),
    )
  ]
