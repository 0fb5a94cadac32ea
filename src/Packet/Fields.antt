-- ===== src/Packet/Fields.antt =====
-- src/packet_implem.c: the packet's representation, and the setters as calls of a client.
pub mod Laws
pub mod Frame
use lossless_transport.Common.{
  ℕ, ◌+◌, ◌-◌, ◌^◌, ◌<◌, ◌≤◌, ◌≡◌, ◌≢◌, ◌↔◌, Bool, true, Option, none, some, List, [], ◌∷◌, ◌==◌,
  if◌then◌else◌, ◌&&◌, not, take, length, drop, replicate, htons, arith,
}
use lossless_transport.Packet.{
  Pkt, Status, pkt_ok, e_type, e_tr, e_length, e_window, max_payload_size, max_window_size, pkt_new,
  get_type, get_tr, get_window, get_seqnum, get_length, get_timestamp, get_crc1, get_crc2,
  get_payload, set_type, set_tr, set_window, set_seqnum, set_length, set_timestamp, set_crc1,
  set_crc2, set_payload,
}

-- Every field fits its C type, and the payload array has its 512 bytes.
pub record IsWellFormed (p : Pkt) : Type 0 where
  pub window_fits : p.window < 2 ^ 5
  pub tr_fits : p.tr < 2 ^ 1
  pub type_fits : p.type < 2 ^ 2
  pub seqnum_fits : p.seqnum < 2 ^ 8
  pub length_fits : p.length < 2 ^ 16
  pub timestamp_fits : p.timestamp < 2 ^ 32
  pub crc1_fits : p.crc1 < 2 ^ 32
  pub crc2_fits : p.crc2 < 2 ^ 32
  pub payload_size : length p.payload ≡ max_payload_size

-- The length field is within the array, and the unused slots are zeroed out.
pub record IsZeroed (p : Pkt) : Type 0 where
  pub bounded : htons p.length ≤ max_payload_size
  pub zeroed : drop (htons p.length) p.payload ≡ replicate (max_payload_size - htons p.length) 0

pub record IsValid (p : Pkt) : Type 0 where
  pub well_formed : IsWellFormed p
  pub unused : IsZeroed p

-- A call of a setter with its argument.
pub data Call : Type 0 where
  sets_type sets_tr sets_window sets_seqnum sets_length sets_timestamp sets_crc1 sets_crc2 :
      ℕ → Call
  sets_payload : Option (List ℕ) → ℕ → Call

pub call : Pkt → Call → Status × Pkt
unfolding set_type set_tr set_window set_seqnum set_length set_timestamp set_crc1 set_crc2
    set_payload
call p (sets_type n) = set_type p n
call p (sets_tr n) = set_tr p n
call p (sets_window n) = set_window p n
call p (sets_seqnum n) = set_seqnum p n
call p (sets_length n) = set_length p n
call p (sets_timestamp n) = set_timestamp p n
call p (sets_crc1 n) = set_crc1 p n
call p (sets_crc2 n) = set_crc2 p n
call p (sets_payload bytes n) = set_payload p bytes n

-- The argument is a value of its C type, and `data` points to `length` bytes at least.
abbrev pub InRange : Call → Type 0
InRange (sets_type n) = n < 2 ^ 32
InRange (sets_tr n) = n < 2 ^ 8
InRange (sets_window n) = n < 2 ^ 8
InRange (sets_seqnum n) = n < 2 ^ 8
InRange (sets_length n) = n < 2 ^ 16
InRange (sets_timestamp n) = n < 2 ^ 32
InRange (sets_crc1 n) = n < 2 ^ 32
InRange (sets_crc2 n) = n < 2 ^ 32
InRange (sets_payload none n) = n < 2 ^ 16
InRange (sets_payload (some bytes) n) = (n < 2 ^ 16) × (n ≤ length bytes)

-- The values that the protocol allows.
abbrev pub IsLegal : Call → Type 0
IsLegal (sets_type n) = (0 < n) × (n < 4)
IsLegal (sets_tr n) = n < 2
IsLegal (sets_window n) = n ≤ max_window_size
IsLegal (sets_length n) = n ≤ max_payload_size
IsLegal (sets_payload (some bytes) n) = n ≤ max_payload_size
IsLegal _ = Unit {0}

-- What the getters read of the packet after the call.
abbrev pub Reads : Call → Pkt → Type 0
Reads (sets_type n) p = get_type p ≡ n
Reads (sets_tr n) p = get_tr p ≡ n
Reads (sets_window n) p = get_window p ≡ n
Reads (sets_seqnum n) p = get_seqnum p ≡ n
Reads (sets_length n) p = get_length p ≡ (if get_tr p == 0 then n else 0)
Reads (sets_timestamp n) p = get_timestamp p ≡ n
Reads (sets_crc1 n) p = get_crc1 p ≡ n
Reads (sets_crc2 n) p = get_crc2 p ≡ n
Reads (sets_payload none n) p = get_payload p ≡ none
Reads (sets_payload (some bytes) n) p =
    (get_length p ≡ (if get_tr p == 0 then n else 0))
    × (take n p.payload ≡ take n bytes)
    × (get_payload p ≡ (if (get_tr p == 0) && not (n == 0) then some p.payload else none))
