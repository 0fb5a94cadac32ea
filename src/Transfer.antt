-- ===== src/Transfer.antt =====
-- src/sender.c and src/receiver.c over a network that delivers every datagram, whole and in order.
--
-- A turn is a round of the sender, followed by as many rounds of the receiver as there are new
-- datagrams. What the receiver sends waits in `acks` for the next rounds of the sender.
pub mod Receive
pub mod Listen
pub mod Send
pub mod Exchange
pub mod Complete
pub mod Repeat
pub mod Network
mod Tests
use lossless_transport.Common.{
  ℕ, Bool, true, false, not, ◌||◌, Option, none, some, List, [], ◌∷◌, ◌++◌, map, drop, length,
  if◌then◌else◌, Outcome, returns, ◌>>=◌,
}
use lossless_transport.Window
use lossless_transport.Window.{Window}
use lossless_transport.Receiver.{Receiver}
use lossless_transport.Receiver
use lossless_transport.Receiver.Main
use lossless_transport.Sender.{Sender}
use lossless_transport.Sender
use lossless_transport.Sender.Loop

pub record Transfer : Type 0 where
  pub sender : Sender
  pub receiver : Receiver
  pub acks : List (List ℕ)

-- What the system answers to the sender and to the receiver in a turn. `ready` and `received` of the
-- first are not used: the datagrams that wait say what `select` and `recv` find.
pub record Turn : Type 0 where
  pub sends : Sender.Answers
  pub receives : Receiver.Answers

-- A window of 31 packets at most and 256 numbers, with an empty buffer.
abbrev pub idle : ℕ → ℕ → Window
idle size pos = record {
  max_seqnum = 255;
  capacity = 31;
  size = size;
  pos = pos;
  bufsize = 0;
  front = [];
}

-- The answers with what is read from the network.
abbrev pub heard : Sender.Answers → List (List ℕ) → Sender.Answers
heard io [] = record io { ready = false; received = none }
heard io (bytes ∷ acks) = record io { ready = true; received = some bytes }

module _ (crc32 : ℕ → List ℕ → ℕ) where
  unfoldable pub turn : ℕ → Turn → Transfer → Outcome Transfer
  turn fuel io y = do
    s ← Sender.Loop.main_loop crc32 fuel (heard io.sends y.acks) y.sender
    let new = drop (length y.sender.sent) s.sent
    r ← Receiver.Main.rounds crc32 (map (λ d. (io.receives, some d)) new) y.receiver
    returns (record { sender = s; receiver = r.0; acks = drop 1 y.acks ++ r.1 })

  -- The turns, as long as the loop of the sender's `main` goes on.
  unfoldable pub turns : ℕ → List Turn → Transfer → Outcome Transfer
  turns fuel [] y = returns y
  turns fuel (io ∷ ios) y =
      let more = turn fuel io y >>= turns fuel ios in
      if not y.sender.sent_eof || not (Window.empty y.sender.w) then more else returns y

  -- From the states with which the two `main` begin their loops.
  unfoldable pub transfer : ℕ → List Turn → List ℕ → Outcome Transfer
  transfer fuel ios infile = do
    s ← Sender.Loop.init true infile
    r ← Receiver.init true
    turns fuel ios (record { sender = s; receiver = r; acks = [] })
