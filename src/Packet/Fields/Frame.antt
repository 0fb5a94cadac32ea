-- ===== src/Packet/Fields/Frame.antt =====
-- src/packet_interface.h: the accessors of all fields, and what a setter leaves alone.
use lossless_transport.Common.{
  ℕ, ◌-◌, ◌*◌, ◌≤◌, ◌≡◌, refl, ap, ◌∙◌, Option, none, some, List, ◌++◌, take, replicate, length,
  if◌then◌else◌, ◌==◌, htonl-htonl, htons-htons, htons-zero, arith,
}
use lossless_transport.Packet.{
  Pkt, max_payload_size, get_type, get_tr, get_window, get_seqnum, get_length, get_timestamp,
  get_payload, get_crc1, get_crc2, set_type, set_tr, set_window, set_seqnum, set_length,
  set_timestamp, set_crc1, set_crc2, set_payload,
}
use lossless_transport.Packet.Fields.{
  Call, sets_type, sets_tr, sets_window, sets_seqnum, sets_length, sets_timestamp, sets_crc1,
  sets_crc2, sets_payload, call, InRange, IsLegal,
}
use lossless_transport.Packet.Fields.Laws.{drop-resize}

-- The values of the fields in the host's order: the length is what is read while TR is clear, and
-- the payload the 512 bytes of the array.
pub record Header : Type 0 where
  pub type : ℕ
  pub tr : ℕ
  pub window : ℕ
  pub seqnum : ℕ
  pub timestamp : ℕ
  pub crc1 : ℕ
  pub crc2 : ℕ
  pub length : ℕ
  pub payload : List ℕ

unfoldable pub view : Pkt → Header
view p = record {
  type = get_type p;
  tr = get_tr p;
  window = get_window p;
  seqnum = get_seqnum p;
  timestamp = get_timestamp p;
  crc1 = get_crc1 p;
  crc2 = get_crc2 p;
  length = get_length (record p { tr = 0 });
  payload = p.payload;
}

-- The first `n` bytes, and zeros up to the size of the array.
abbrev pub padded : List ℕ → ℕ → List ℕ
padded bytes n = take n bytes ++ replicate (max_payload_size - n) 0

-- The fields after a call that is accepted: the setter's own field has the value given. With the
-- length the bytes after it change, and with the payload the length.
unfoldable pub updated : Call → Header → Header
updated (sets_type n) h = record h { type = n }
updated (sets_tr n) h = record h { tr = n }
updated (sets_window n) h = record h { window = n }
updated (sets_seqnum n) h = record h { seqnum = n }
updated (sets_length n) h = record h { length = n; payload = padded h.payload n }
updated (sets_timestamp n) h = record h { timestamp = n }
updated (sets_crc1 n) h = record h { crc1 = n }
updated (sets_crc2 n) h = record h { crc2 = n }
updated (sets_payload none n) h = record h { length = 0; payload = padded h.payload 0 }
updated (sets_payload (some bytes) n) h = record h { length = n; payload = padded bytes n }

-- What `pkt_get_length` and `pkt_get_payload` return.
abbrev pub read_length : Header → ℕ
read_length h = if h.tr == 0 then h.length else 0

abbrev pub read_payload : Header → Option (List ℕ)
read_payload h = if read_length h == 0 then none else some h.payload

unit-times : (n : ℕ) → (max_payload_size - n) * 1 ≡ max_payload_size - n
unit-times n = omega arith

view-set_payload :
    (p : Pkt) (bytes : List ℕ) (n : ℕ)
    → length p.payload ≡ max_payload_size
    → n ≤ max_payload_size
    → view (set_payload p (some bytes) n).1
      ≡ record (view p) { length = n; payload = padded bytes n }
unfolding view set_payload set_length get_type get_tr get_window get_seqnum get_timestamp get_crc1
    get_crc2 get_length
view-set_payload p bytes n v l = ground (arith, htons-htons n, drop-resize p.payload n v l)

-- The fields after an accepted call.
view-call :
    (p : Pkt) (c : Call)
    → length p.payload ≡ max_payload_size
    → InRange c
    → IsLegal c
    → view (call p c).1 ≡ updated c (view p)
unfolding call view updated set_type set_tr set_window set_seqnum set_length set_timestamp set_crc1
    set_crc2 set_payload get_type get_tr get_window get_seqnum get_timestamp get_crc1 get_crc2
    get_length
view-call p (sets_type n) v r l = ground arith
view-call p (sets_tr n) v r l = ground arith
view-call p (sets_window n) v r l = ground arith
view-call p (sets_seqnum n) v r l = ground arith
view-call p (sets_length n) v r l = ground (arith, htons-htons n, unit-times n)
view-call p (sets_timestamp n) v r l = ground (arith, htonl-htonl n r)
view-call p (sets_crc1 n) v r l = ground (arith, htonl-htonl n r)
view-call p (sets_crc2 n) v r l = ground (arith, htonl-htonl n r)
view-call p (sets_payload none n) v r l = ground (arith, htons-zero)
view-call p (sets_payload (some bytes) n) v r l = view-set_payload p bytes n v l

length-view : (p : Pkt) → get_length p ≡ read_length (view p)
unfolding view get_length get_tr
length-view p = ground arith

payload-view : (p : Pkt) → get_payload p ≡ read_payload (view p)
unfolding view get_payload
payload-view p = rw (← length-view p) refl

-- After an accepted call with an argument of the right C type, on a packet with its array of 512
-- bytes, the setter's own field has the argument as its value, and all others have the value that
-- they had; only, `pkt_set_length` zeroes the payload from the length on, and `pkt_set_payload`, which
-- does so too, sets the length. The getters read those values; `pkt_get_length` gives 0 while TR is
-- set, and `pkt_get_payload` NULL where the length reads as 0. `pkt_get_crc2` reads the field even
-- if there is no payload.
pub call-view :
    (p : Pkt) (c : Call)
    → length p.payload ≡ max_payload_size
    → InRange c
    → IsLegal c
    → (view (call p c).1 ≡ updated c (view p))
      × (get_length (call p c).1 ≡ read_length (updated c (view p)))
      × (get_payload (call p c).1 ≡ read_payload (updated c (view p)))
call-view p c v r l =
    let e = view-call p c v r l in
    (e, length-view (call p c).1 ∙ ap read_length e, payload-view (call p c).1 ∙ ap read_payload e)
