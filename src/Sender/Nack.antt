-- ===== src/Sender/Nack.antt =====
-- A NACK in src/sender.c: `handle_nack`, and what the next `retransmit_packets` does about it.
use lossless_transport.Common.{ℕ, ◌≤◌, ◌≡◌, some, List, ◌∷◌, ◌++◌, get_elem?}
use lossless_transport.Packet.{Pkt, get_timestamp, set_timestamp}
use lossless_transport.Packet.Wire.Format.{datagram}
use lossless_transport.Window
use lossless_transport.Window.{Window}
use lossless_transport.Sender.{Sender}

-- The packet is among the datagrams `new` that were sent after `old`, with another timestamp.
pub record SentAgain (crc32 : ℕ → List ℕ → ℕ) (p : Pkt) (old new : List (List ℕ)) : Type 0 where
  pub time : ℕ
  pub earlier : List (List ℕ)
  pub later : List (List ℕ)
  pub split : new ≡ old ++ (earlier ++ datagram crc32 (set_timestamp p time).1 ∷ later)

module _ (crc32 : ℕ → List ℕ → ℕ) where
  -- The datagrams sent are kept, and each packet whose timer had expired is among the new ones.
  record Renewed (n : ℕ) (s s' : Sender) : Type 0 where
    more : List (List ℕ)
    grows : s'.sent ≡ s.sent ++ more
    again :
        (j : ℕ) (p : Pkt)
        → get_elem? s.w.front j ≡ some p
        → get_timestamp p ≤ n
        → SentAgain crc32 p s.sent s'.sent
