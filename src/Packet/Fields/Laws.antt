-- ===== src/Packet/Fields/Laws.antt =====
-- The setters of src/packet_implem.c: the invariant, refusals, and what the getters read back.
use lossless_transport.Common.{
  ℕ, ◌-◌, ◌*◌, ◌≤◌, ◌≡◌, ◌≢◌, ◌↔◌, true, none, some, List, ◌++◌, length, take, drop, replicate,
  htons, arith, htons-htons, htons-lt, htonl-lt, length-append, length-take, length-drop,
  length-replicate, take-append, drop-append,
}
use lossless_transport.Packet.{Pkt, pkt_ok, max_payload_size, pkt_new, set_length, set_payload}
use lossless_transport.Packet.Fields.{
  IsValid, Call, sets_type, sets_length, sets_timestamp, sets_crc1, sets_crc2, sets_payload, call,
  InRange, IsLegal,
}

-- `pkt_new` gives a valid packet.
pub pkt_new-IsValid : {p : Pkt} → pkt_new true ≡ some p → IsValid p
unfolding pkt_new htons
pkt_new-IsValid h = ground arith

pub resize-length :
    (xs : List ℕ) (n : ℕ)
    → length xs ≡ max_payload_size
    → n ≤ max_payload_size
    → length (take n xs ++ replicate ((max_payload_size - n) * 1) 0) ≡ max_payload_size
resize-length xs n e h = omega (
  arith,
  length-append (take n xs) (replicate ((max_payload_size - n) * 1) 0),
  length-take n xs,
  length-replicate {A = ℕ} ((max_payload_size - n) * 1) 0,
)

-- Copying `n` bytes into the array, or zeroing it from `n` on, keeps its size.
pub copy-length :
    (xs ys : List ℕ) (n : ℕ)
    → length ys ≡ max_payload_size
    → n ≤ length xs
    → n ≤ max_payload_size
    → length (take n xs ++ drop n ys) ≡ max_payload_size
copy-length xs ys n e h k =
    omega (arith, length-append (take n xs) (drop n ys), length-take n xs, length-drop n ys)

pub drop-resize :
    (xs : List ℕ) (n : ℕ)
    → length xs ≡ max_payload_size
    → n ≤ max_payload_size
    → drop n (take n xs ++ replicate ((max_payload_size - n) * 1) 0)
      ≡ replicate (max_payload_size - n) 0
drop-resize xs n e h =
    let m : (max_payload_size - n) * 1 ≡ max_payload_size - n = omega arith in
    rw m (
      drop-append n (take n xs) (replicate (max_payload_size - n) 0)
        (omega (arith, length-take n xs)))

set_length-IsValid :
    (p : Pkt) (n : ℕ) → n ≤ max_payload_size → IsValid p → IsValid (set_length p n).1
unfolding set_length
set_length-IsValid p n h v =
    ground (arith, resize-length p.payload n, drop-resize p.payload n, htons-htons n, htons-lt n)

drop-copy : (xs ys : List ℕ) (n : ℕ) → n ≤ length xs → drop n (take n xs ++ drop n ys) ≡ drop n ys
drop-copy xs ys n h = drop-append n (take n xs) (drop n ys) (omega (arith, length-take n xs))

set_payload-IsValid :
    (p : Pkt) (bytes : List ℕ) (n : ℕ)
    → n ≤ max_payload_size
    → n ≤ length bytes
    → IsValid p
    → IsValid (set_payload p (some bytes) n).1
unfolding set_payload set_length
set_payload-IsValid p bytes n h k v = ground (
  arith,
  set_length-IsValid p n h v,
  copy-length bytes (take n p.payload ++ replicate ((max_payload_size - n) * 1) 0) n,
  drop-copy bytes (take n p.payload ++ replicate ((max_payload_size - n) * 1) 0) n,
  htons-htons n,
)

pub take-copy :
    (xs ys : List ℕ) (n : ℕ) → n ≤ length xs → take n (take n xs ++ drop n ys) ≡ take n xs
take-copy xs ys n h = take-append n (take n xs) (drop n ys) (omega (arith, length-take n xs))

-- Every setter, whatever its argument of the right C type, keeps the packet valid: fields in
-- range, and the payload zero from its length on.
pub call-IsValid : (p : Pkt) (c : Call) → InRange c → IsValid p → IsValid (call p c).1
unfolding call set_length set_payload
call-IsValid p (sets_length n) h v = ground (arith, set_length-IsValid p n)
call-IsValid p (sets_timestamp n) h v = ground (arith, htonl-lt n)
call-IsValid p (sets_crc1 n) h v = ground (arith, htonl-lt n)
call-IsValid p (sets_crc2 n) h v = ground (arith, htonl-lt n)
call-IsValid p (sets_payload none n) h v = set_length-IsValid p 0 (omega arith) v
call-IsValid p (sets_payload (some bytes) n) h v = ground (arith, set_payload-IsValid p bytes n)
call-IsValid p c h v = ground arith

-- A call of a setter that does not return PKT_OK leaves the packet as it was.
pub call_refused : (p : Pkt) (c : Call) → (call p c).0 ≢ pkt_ok → (call p c).1 ≡ p
unfolding call
call_refused p (sets_type n) h = ground arith
call_refused p c h = ground arith

-- A setter returns PKT_OK just for the values that the protocol allows.
pub call-IsLegal : (p : Pkt) (c : Call) → ((call p c).0 ≡ pkt_ok) ↔ IsLegal c
unfolding call
call-IsLegal p (sets_type n) = ground arith
call-IsLegal p (sets_payload none n) = ground arith
call-IsLegal p (sets_payload (some bs) n) = ground arith
call-IsLegal p c = ground arith
