-- ===== src/Transfer/Network.antt =====
-- src/sender.c and src/receiver.c over a network that loses, repeats, delays, reorders and damages
-- datagrams.
--
-- A state of the two programs is reached by their rounds in any order. A round of the receiver takes
-- any datagram that was ever sent to it, or one that it does not accept as a whole packet: it was
-- cut, or damaged so that a check fails. A round of the sender takes any bytes at all.
pub mod Chunks
pub mod Writing
pub mod Keeping
pub mod Reading
pub mod Prefix
mod Tests
use lossless_transport.Common.{
  ℕ, ◌≡◌, ◌≢◌, true, Option, some, List, length, get_elem?, returns, ◌*◌, take, drop,
}
use lossless_transport.Packet.{Pkt, pkt_ok, pkt_new, get_tr, max_payload_size}
use lossless_transport.Packet.Wire.{decode}
use lossless_transport.Receiver.{Receiver}
use lossless_transport.Receiver
use lossless_transport.Sender.{Sender}
use lossless_transport.Sender
use lossless_transport.Sender.Loop

module _ (crc32 : ℕ → List ℕ → ℕ) where
  -- `pkt_decode` refuses the datagram, or TR is set.
  pub record IsUnusable (d : List ℕ) : Type 0 where
    pub truncated :
        (q p : Pkt)
        → pkt_new true ≡ some q
        → decode crc32 (some d) (length d) q ≡ (pkt_ok, p)
        → get_tr p ≢ 0

  -- What may arrive after the datagrams of the list were sent.
  pub data Arrives (sent : List (List ℕ)) : List ℕ → Type 0 where
    whole : {d : List ℕ} (i : ℕ) → get_elem? sent i ≡ some d → Arrives sent d
    unusable : {d : List ℕ} → IsUnusable d → Arrives sent d

  pub data Reached (infile : List ℕ) : Sender → Receiver → Type 0 where
    starts :
        {s : Sender} {r : Receiver}
        → Sender.Loop.init true infile ≡ returns s
        → Receiver.init true ≡ returns r
        → Reached infile s r
    sender_round :
        {s s' : Sender} {r : Receiver} (fuel : ℕ) (io : Sender.Answers)
        → Reached infile s r
        → Sender.Loop.main_loop crc32 fuel io s ≡ returns s'
        → Reached infile s' r
    receiver_round :
        {s : Sender} {r r' : Receiver} {d : List ℕ} {replies : List (List ℕ)}
        (io : Receiver.Answers)
        → Reached infile s r
        → Arrives s.sent d
        → Receiver.main_loop crc32 io r (some d) ≡ returns (r', replies)
        → Reached infile s r'

-- The bytes that belong into the packet with a number, if no number is used twice.
abbrev pub chunk : List ℕ → ℕ → List ℕ
chunk infile k = take max_payload_size (drop (max_payload_size * k) infile)
