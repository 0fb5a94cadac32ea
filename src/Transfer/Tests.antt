-- ===== src/Transfer/Tests.antt =====
-- The transfer of a file of three bytes.
use lossless_transport.Common.{
  some, inl, htons, htonl, ℕ_discrete, ◌≡◌, refl, true, false, none, [], ◌∷◌, arith, returns,
}
use lossless_transport.Packet.{
  Pkt, ptype_ack, get_type, get_tr, get_seqnum, get_length, get_timestamp,
}
use lossless_transport.Packet.Tests.{checksum, checksum-lt, small, small-IsSendable}
use lossless_transport.Packet.Wire.Format.{datagram}
use lossless_transport.Sender.Data.{Carries}
use lossless_transport.Receiver.Main.{rounds}
use lossless_transport.Receiver.Reply.{Answer}
use lossless_transport.Transfer.Receive.{awaiting}
use lossless_transport.Transfer.Repeat.{rounds-repeated}
use lossless_transport.Transfer.{Transfer, Turn, transfer}
use lossless_transport.Transfer.Exchange.{IsFaultless}
use lossless_transport.Transfer.Complete.{IsComplete, transfer-IsComplete}

abbrev well : Turn
well = record {
  sends = record {
    selected = true;
    ready = false;
    received = none;
    packet_allocated = true;
    node_allocated = true;
    read_error = false;
    send_succeeds = true;
    reading = λ n. record { sec = n; nsec = 0 };
    scratch = [];
  };
  receives = record {
    packet_allocated = true;
    reply_allocated = true;
    node_allocated = true;
    written = true;
    flushed = true;
    sent = true;
    scratch = [];
  };
}

well-IsFaultless : IsFaultless well
well-IsFaultless = record {
  sends = record { selected = refl; packet = refl; node = refl; file = refl; socket = refl };
  receives = record {
    packet = refl;
    reply = refl;
    node = refl;
    file = refl;
    flush = refl;
    socket = refl;
  };
}

transfer-IsComplete_example :
    (y : Transfer) × (transfer checksum 1 (well ∷ well ∷ well ∷ []) (1 ∷ 2 ∷ 3 ∷ []) ≡ returns y)
    × IsComplete y (1 ∷ 2 ∷ 3 ∷ [])
transfer-IsComplete_example =
    transfer-IsComplete checksum checksum-lt 1 (well ∷ well ∷ well ∷ []) (1 ∷ 2 ∷ 3 ∷ [])
      (omega arith) (well-IsFaultless, (well-IsFaultless, (well-IsFaultless, tt))) (omega arith)
      (omega arith)

-- The packet `small` sent again, at the time 24.
abbrev again : Pkt
again = record small { timestamp = 402653184 }

small-Carries : Carries small 7 23 (1 ∷ 2 ∷ 3 ∷ [])
unfolding get_seqnum get_timestamp get_length get_tr htons htonl ℕ_discrete
small-Carries = record {
  sendable = small-IsSendable;
  numbered = refl;
  timed = refl;
  whole = refl;
  sized = refl;
  loaded = refl;
}

again-Carries : Carries again 7 24 (1 ∷ 2 ∷ 3 ∷ [])
unfolding get_seqnum get_timestamp get_length get_tr get_type htons htonl ℕ_discrete
again-Carries = record {
  sendable = record {
    fits = omega (arith, small-IsSendable.fits);
    typed = omega arith;
    cut_is_data = inl refl;
    bounded = omega arith;
  };
  numbered = refl;
  timed = refl;
  whole = refl;
  sized = refl;
  loaded = refl;
}

rounds-repeated_example :
    (a : Pkt) × Answer a ptype_ack 8 31 23
    × (rounds checksum
          ((well.receives, some (datagram checksum small))
            ∷ (well.receives, some (datagram checksum again))
            ∷ [])
          (awaiting 7 [])
        ≡ returns (awaiting 8 (1 ∷ 2 ∷ 3 ∷ []), datagram checksum a ∷ []))
rounds-repeated_example =
    rounds-repeated checksum checksum-lt well.receives well.receives 7 [] small again 23 24
      (1 ∷ 2 ∷ 3 ∷ []) well-IsFaultless.receives well-IsFaultless.receives (omega arith)
      small-Carries again-Carries (omega arith)
