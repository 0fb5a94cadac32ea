-- ===== src/Packet/Wire/Checks.antt =====
-- What an accepted or refused datagram tells: the checks of `pkt_decode` and `pkt_encode`.
use lossless_transport.Common.{
  ℕ, zero, suc, ◌+◌, ◌*◌, ◌<◌, ◌≤◌, ◌≡◌, ◌≢◌, ◌⊎◌, inl, inr, Option, none, some, List, [], ◌∷◌, ltb,
  drop, length, arith, ℕ_discrete, Bool-cases, dec_lt, get_or, length-drop,
}
use lossless_transport.Packet.{
  Pkt, pkt_ok, e_type, e_window, e_seqnum, e_nomem, header_size, max_payload_size, ptype_data,
  get_type, get_length, get_total_size, get_tr, get_window, get_crc1, get_crc2, copy_payload,
}
use lossless_transport.Packet.Fields.{IsWellFormed}
use lossless_transport.Packet.Fields.Laws.{copy-length}
use lossless_transport.Packet.Wire.{
  header_memory, load_header, load_crc2, compute_crc1, compute_crc2, decode_payload, decode_fields,
  decode, encode,
}

-- Every item of the list is a byte.
abbrev pub Bytes : List ℕ → Type 0
Bytes [] = Unit {0}
Bytes (b ∷ bs) = (b < 256) × Bytes bs

get_or-byte : (bs : List ℕ) (i : ℕ) → Bytes bs → get_or bs i 0 < 256
get_or-byte [] i h = omega arith
get_or-byte (b ∷ bs) zero h = h.0
get_or-byte (b ∷ bs) (suc i) h = get_or-byte bs i h.1

Bytes-drop : (n : ℕ) (bs : List ℕ) → Bytes bs → Bytes (drop n bs)
Bytes-drop zero bs h = h
Bytes-drop (suc n) [] h = tt
Bytes-drop (suc n) (b ∷ bs) h = Bytes-drop n bs h.1

load_header-IsWellFormed :
    (bs : List ℕ) (p : Pkt) → Bytes bs → IsWellFormed p → IsWellFormed (load_header bs p)
unfolding load_header
load_header-IsWellFormed bs p h v =
    let b = λ (i : ℕ). get_or-byte bs i h in
    let a1 = b 1 in
    let a2 = b 2 in
    let a3 = b 3 in
    let a4 = b 4 in
    let a5 = b 5 in
    let a6 = b 6 in
    let a7 = b 7 in
    let a8 = b 8 in
    let a9 = b 9 in
    let a10 = b 10 in
    let a11 = b 11 in
    record {
      window_fits = omega arith;
      tr_fits = omega arith;
      type_fits = omega arith;
      seqnum_fits = a1;
      length_fits = omega (arith, a2, a3);
      timestamp_fits = omega (arith, a4, a5, a6, a7);
      crc1_fits = omega (arith, a8, a9, a10, a11);
      crc2_fits = v.crc2_fits;
      payload_size = v.payload_size;
    }

load_crc2-IsWellFormed :
    (bs : List ℕ) (p : Pkt) → Bytes bs → IsWellFormed p → IsWellFormed (load_crc2 bs p)
unfolding load_crc2
load_crc2-IsWellFormed bs p h v =
    omega (arith, get_or-byte bs 0 h, get_or-byte bs 1 h, get_or-byte bs 2 h, get_or-byte bs 3 h)

-- What every accepted packet satisfies.
pub record IsAccepted (crc32 : ℕ → List ℕ → ℕ) (len : ℕ) (p : Pkt) : Type 0 where
  pub typed : get_type p ≢ 0
  pub cut_is_data : (get_type p ≡ ptype_data) ⊎ (get_tr p ≡ 0)
  pub fits : get_length p ≤ max_payload_size
  pub sized : len ≡ get_total_size p
  pub header_intact : get_crc1 p ≡ compute_crc1 crc32 p
  pub payload_intact : (get_length p ≡ 0) ⊎ (get_crc2 p ≡ compute_crc2 crc32 p (get_length p))

module _ (crc32 : ℕ → List ℕ → ℕ) where
  decode_payload-header :
      (bytes : List ℕ) (n : ℕ) (p : Pkt)
      → header_memory (decode_payload crc32 bytes n p).1 ≡ header_memory p
  unfolding decode_payload load_crc2 header_memory
  decode_payload-header bytes n p = ground arith

  decode_payload-IsAccepted :
      (bytes : List ℕ) (len : ℕ) (p r : Pkt)
      → get_type p ≢ 0
      → (get_type p ≡ ptype_data) ⊎ (get_tr p ≡ 0)
      → get_length p ≤ max_payload_size
      → len ≡ get_total_size p
      → get_crc1 p ≡ compute_crc1 crc32 p
      → decode_payload crc32 bytes (get_length p * 1) p ≡ (pkt_ok, r)
      → IsAccepted crc32 len r
  unfolding decode_payload load_crc2 get_type get_tr get_length get_total_size get_crc1 compute_crc1
      header_memory
  decode_payload-IsAccepted bytes len p r t c f s h e =
      let n : get_length p * 1 ≡ get_length p = omega arith in ground (arith, n)

  -- `pkt_decode` accepts only a packet with a type, with TR on DATA only, with at most 512 bytes
  -- of payload, whose length is the length received, and whose checksums match.
  pub decode-IsAccepted :
      (bytes : List ℕ) (len : ℕ) (q p : Pkt)
      → decode crc32 (some bytes) len q ≡ (pkt_ok, p)
      → IsAccepted crc32 len p
  unfolding decode decode_fields
  decode-IsAccepted bytes len q p e =
      ground (arith, decode_payload-IsAccepted bytes len (load_header bytes q) p)

  -- `pkt_decode` never returns E_WINDOW, E_SEQNUM or E_NOMEM, whatever it is given: the window
  -- field has five bits, so its check never fails.
  pub decode-ne-window :
      (bytes : Option (List ℕ)) (len : ℕ) (q : Pkt)
      → ((decode crc32 bytes len q).0 ≢ e_window)
        × ((decode crc32 bytes len q).0 ≢ e_seqnum)
        × ((decode crc32 bytes len q).0 ≢ e_nomem)
  unfolding decode decode_fields decode_payload load_header get_window
  decode-ne-window none len q = ground arith
  decode-ne-window (some bytes) len q = ground arith

  -- `pkt_encode` returns E_TYPE for a packet with no type, else E_NOMEM and a zero length where
  -- the buffer is too small, in both cases without writing to the buffer; else PKT_OK and the
  -- size. With E_TYPE the length stays what was given, though nothing is written, which
  -- src/packet_interface.h does not say.
  pub encode-cases :
      (p : Pkt) (buf : List ℕ) (len : ℕ)
      → ((get_type p ≡ 0) × (encode crc32 p buf len ≡ (e_type, buf, len)))
        ⊎ (((get_type p ≢ 0)
              × (len < get_total_size p)
              × (encode crc32 p buf len ≡ (e_nomem, buf, 0)))
            ⊎ ((get_type p ≢ 0)
                × (get_total_size p ≤ len)
                × ((encode crc32 p buf len).0 ≡ pkt_ok)
                × ((encode crc32 p buf len).2 ≡ get_total_size p)))
  unfolding encode get_total_size
  encode-cases p buf len = elim (ℕ_discrete (get_type p) 0) [
    | yes e ↦ inl (e, ground arith)
    | no e ↦ inr (elim (dec_lt len (get_total_size p)) [
      | yes h ↦ inl (e, h, ground arith)
      | no h ↦ inr (e, omega arith, ground arith, ground arith)
    ])
  ]

  decode_payload-IsWellFormed :
      (bytes : List ℕ) (n : ℕ) (p : Pkt)
      → Bytes bytes
      → IsWellFormed p
      → n ≤ max_payload_size
      → header_size + n ≤ length bytes
      → IsWellFormed (decode_payload crc32 bytes n p).1
  unfolding decode_payload
  decode_payload-IsWellFormed bytes n p h v f l =
      let q = copy_payload (drop header_size bytes) n p in
      let copied =
        copy-length (drop header_size bytes) p.payload n v.payload_size
          (omega (arith, length-drop header_size bytes)) f in
      let w : IsWellFormed q = record {
        window_fits = v.window_fits;
        tr_fits = v.tr_fits;
        type_fits = v.type_fits;
        seqnum_fits = v.seqnum_fits;
        length_fits = v.length_fits;
        timestamp_fits = v.timestamp_fits;
        crc1_fits = v.crc1_fits;
        crc2_fits = v.crc2_fits;
        payload_size = copied;
      } in
      let tail = drop (header_size + n) bytes in
      let r = load_crc2-IsWellFormed tail q (Bytes-drop (header_size + n) bytes h) w in
      elim (Bool-cases (ltb 0 n)) [ inl e ↦ rw e (ground arith) | inr e ↦ rw e w ]

  -- Whatever bytes are received, and whether they are accepted or refused, every field of the
  -- packet stays in range, the copy of the payload inside the array of the packet.
  pub decode-IsWellFormed :
      (bytes : List ℕ) (len : ℕ) (q : Pkt)
      → Bytes bytes
      → len ≤ length bytes
      → IsWellFormed q
      → IsWellFormed (decode crc32 (some bytes) len q).1
  unfolding decode decode_fields get_total_size
  decode-IsWellFormed bytes len q h l v =
      let w = load_header-IsWellFormed bytes q h v in
      ground (
        arith,
        w,
        decode_payload-IsWellFormed bytes (get_length (load_header bytes q) * 1)
            (load_header bytes q) h w,
      )
