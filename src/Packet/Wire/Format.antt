-- ===== src/Packet/Wire/Format.antt =====
-- The datagram that stands for a packet, described from the protocol: fields in network order, a
-- checksum of the header with TR cleared, the payload with its own checksum if there is one.
use lossless_transport.Common.{
  ℕ, ◌+◌, ◌*◌, ◌/◌, ◌%◌, ◌≡◌, List, [], ◌∷◌, ◌++◌, ◌==◌, if◌then◌else◌, take, htons, htonl,
  memory16, memory32, arith, ap,
}
use lossless_transport.Packet.{Pkt, get_length, get_timestamp}
use lossless_transport.Packet.Wire.{header_memory, compute_crc1}

abbrev pub big_endian16 : ℕ → List ℕ
big_endian16 x = x / 256 % 256 ∷ x % 256 ∷ []

abbrev pub big_endian32 : ℕ → List ℕ
big_endian32 x = x / 16777216 % 256 ∷ x / 65536 % 256 ∷ x / 256 % 256 ∷ x % 256 ∷ []

-- The header up to its checksum, with the given TR bit; the length is the one in the field.
unfoldable pub header : Pkt → ℕ → List ℕ
header p tr =
    (64 * p.type + 32 * tr + p.window)
    ∷ p.seqnum
    ∷ (big_endian16 (htons p.length) ++ big_endian32 (get_timestamp p))

module _ (crc32 : ℕ → List ℕ → ℕ) where
  unfoldable pub trailer : List ℕ → List ℕ
  trailer payload = payload ++ big_endian32 (crc32 0 payload)

  unfoldable pub datagram : Pkt → List ℕ
  datagram p =
      (header p p.tr ++ big_endian32 (crc32 0 (header p 0)))
      ++ (if get_length p == 0 then [] else trailer (take (get_length p) p.payload))

pub memory16-big_endian : (x : ℕ) → memory16 x ≡ big_endian16 (htons x)
unfolding htons
memory16-big_endian x = ground arith

pub memory32-big_endian : (x : ℕ) → memory32 x ≡ big_endian32 (htonl x)
unfolding htonl
memory32-big_endian x = ground arith

pub memory32-htonl : (x : ℕ) → memory32 (htonl x) ≡ big_endian32 x
unfolding htonl
memory32-htonl x = ground arith

pub header_memory-header : (p : Pkt) → header_memory p ≡ header p p.tr ++ memory32 p.crc1
unfolding header_memory header get_timestamp
header_memory-header p =
    ground (arith, memory16-big_endian p.length, memory32-big_endian p.timestamp)

-- The checksum that the code computes over its memory is that of the header with TR cleared.
covered-header : (p : Pkt) → take 8 (header_memory (record p { tr = 0 })) ≡ header p 0
unfolding header_memory header get_timestamp
covered-header p = ground (arith, memory16-big_endian p.length, memory32-big_endian p.timestamp)

pub compute_crc1-header :
    (crc32 : ℕ → List ℕ → ℕ) (p : Pkt) → compute_crc1 crc32 p ≡ crc32 0 (header p 0)
unfolding compute_crc1
compute_crc1-header crc32 p = ap (crc32 0) (covered-header p)
