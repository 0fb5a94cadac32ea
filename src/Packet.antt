-- ===== src/Packet.antt =====
-- src/packet_interface.h and src/packet_implem.c: the packet, its accessors, its size.
--
-- `Pkt` is `struct pkt`. Its multi-byte fields hold what the C fields hold, the network-order word
-- read as a word of the host; the getters and setters convert. `payload` is the array of 512 bytes.
-- A function that updates `*pkt` returns its status beside the new packet.
pub mod Wire
pub mod Send
pub mod Repr
pub mod Fields
pub mod Tests
use lossless_transport.Common.{
  ℕ, suc, ◌+◌, ◌-◌, ◌*◌, ◌/◌, ◌≤◌, Bool, true, false, ◌||◌, ◌&&◌, not, Option, none, some, List, [],
  ◌∷◌, ◌++◌, ltb, ◌==◌, if◌then◌else◌, take, drop, replicate, length, htons, htonl,
}

-- `pkt_status_code`
pub data Status : Type 0 where
  pkt_ok e_type e_tr e_length e_crc e_window e_seqnum e_nomem e_noheader e_unconsistent : Status

abbrev pub ptype_data : ℕ
ptype_data = 1

abbrev pub ptype_ack : ℕ
ptype_ack = 2

abbrev pub ptype_nack : ℕ
ptype_nack = 3

abbrev pub header_size : ℕ
header_size = 1 + 1 + 2 + 4 + 4

abbrev pub max_payload_size : ℕ
max_payload_size = 512

abbrev pub max_packet_size : ℕ
max_packet_size = header_size + max_payload_size + 4

abbrev pub max_window_size : ℕ
max_window_size = 31

pub record Pkt : Type 0 where
  pub window : ℕ
  pub tr : ℕ
  pub type : ℕ
  pub seqnum : ℕ
  pub length : ℕ
  pub timestamp : ℕ
  pub crc1 : ℕ
  pub payload : List ℕ
  pub crc2 : ℕ

-- `calloc` zeroes the packet; the argument says whether it succeeded.
unfoldable pub pkt_new : Bool → Option Pkt
pkt_new allocated =
    if allocated
    then some (record {
      window = 0;
      tr = 0;
      type = 0;
      seqnum = 0;
      length = 0;
      timestamp = 0;
      crc1 = 0;
      payload = replicate max_payload_size 0;
      crc2 = 0;
    })
    else none

-- Getters

unfoldable pub get_type : Pkt → ℕ
get_type p = p.type

unfoldable pub get_tr : Pkt → ℕ
get_tr p = p.tr

unfoldable pub get_window : Pkt → ℕ
get_window p = p.window

unfoldable pub get_seqnum : Pkt → ℕ
get_seqnum p = p.seqnum

unfoldable pub get_length : Pkt → ℕ
unfolding get_tr
get_length p = if not (get_tr p == 0) then 0 else htons p.length

unfoldable pub get_timestamp : Pkt → ℕ
get_timestamp p = htonl p.timestamp

unfoldable pub get_crc1 : Pkt → ℕ
get_crc1 p = htonl p.crc1

unfoldable pub get_crc2 : Pkt → ℕ
get_crc2 p = htonl p.crc2

-- `none` is NULL; otherwise the pointer to the whole array is its contents.
unfoldable pub get_payload : Pkt → Option (List ℕ)
get_payload p = if get_length p == 0 then none else some p.payload

-- `pkt_get_total_size`; `sizeof (*pkt->payload)` is 1.
unfoldable pub get_total_size : Pkt → ℕ
get_total_size p =
    let payload_size = get_length p * 1 in
    if ltb 0 payload_size then header_size + payload_size + 4 else header_size + payload_size

-- Setters

-- `type >> 2` is nonzero for a value of 4 or more.
unfoldable pub set_type : Pkt → ℕ → Status × Pkt
set_type p type =
    if (type == 0) || not (type / 4 == 0) then (e_type, p) else (pkt_ok, record p { type = type })

unfoldable pub set_tr : Pkt → ℕ → Status × Pkt
set_tr p tr = if not (tr / 2 == 0) then (e_tr, p) else (pkt_ok, record p { tr = tr })

unfoldable pub set_window : Pkt → ℕ → Status × Pkt
set_window p window =
    if ltb max_window_size window then (e_window, p) else (pkt_ok, record p { window = window })

unfoldable pub set_seqnum : Pkt → ℕ → Status × Pkt
set_seqnum p seqnum = (pkt_ok, record p { seqnum = seqnum })

-- `memset` zeroes the slots from `length` to the end of the array.
unfoldable pub set_length : Pkt → ℕ → Status × Pkt
set_length p length =
    if ltb max_payload_size length
    then (e_length, p)
    else let unused = (max_payload_size - length) * 1 in
      (
        pkt_ok,
        record p { payload = take length p.payload ++ replicate unused 0; length = htons length },
      )

unfoldable pub set_timestamp : Pkt → ℕ → Status × Pkt
set_timestamp p timestamp = (pkt_ok, record p { timestamp = htonl timestamp })

unfoldable pub set_crc1 : Pkt → ℕ → Status × Pkt
set_crc1 p crc1 = (pkt_ok, record p { crc1 = htonl crc1 })

unfoldable pub set_crc2 : Pkt → ℕ → Status × Pkt
set_crc2 p crc2 = (pkt_ok, record p { crc2 = htonl crc2 })

-- `memcpy (pkt->payload, data, n)`
abbrev pub copy_payload : List ℕ → ℕ → Pkt → Pkt
copy_payload bytes n p = record p { payload = take n bytes ++ drop n p.payload }

abbrev copy_if_ok : List ℕ → ℕ → Status × Pkt → Status × Pkt
copy_if_ok bytes n (pkt_ok, p) = (pkt_ok, copy_payload bytes n p)
copy_if_ok bytes n (code, p) = (code, p)

-- `none` is a NULL `data`; with the actual length 0 nothing is copied then.
unfoldable pub set_payload : Pkt → Option (List ℕ) → ℕ → Status × Pkt
unfolding set_length
set_payload p none length = copy_if_ok [] 0 (set_length p 0)
set_payload p (some bytes) length = copy_if_ok bytes length (set_length p length)
