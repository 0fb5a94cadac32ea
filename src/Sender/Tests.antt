-- ===== src/Sender/Tests.antt =====
-- The sender's theorems at a concrete state.
use lossless_transport.Common.{
  ℕ, zero, suc, ◌-◌, ◌^◌, ◌<◌, ◌≡◌, ◌≢◌, ◌⊎◌, refl, inl, Option, none, some, [], ◌∷◌, true, false,
  arith, get_elem?, returns, replicate, subst, ap, Ends, List, ℕ_discrete, dec_lt, htonl, htons,
}
use lossless_transport.Packet.{Pkt, get_timestamp, get_seqnum, get_length, get_type}
use lossless_transport.Packet.Tests.{checksum}
use lossless_transport.Packet.Wire.Format.{datagram, big_endian32}
use lossless_transport.Packet.Wire.Checks.{Bytes}
use lossless_transport.Packet.Wire.RoundTrip.{IsSendable}
use lossless_transport.Window.{Window, full}
use lossless_transport.Window.Least.{IsLeast}
use lossless_transport.Window.Buffer.{IsValid}
use lossless_transport.Sender.{
  Sender, Answers, timer, now, add32, get_timeout, handle_ack, retransmit_packets,
}
use lossless_transport.Sender.Loop.{send_next, main_loop}
use lossless_transport.Sender.Respond.{handle_ack_drops}
use lossless_transport.Sender.Ack.{All, Acked, acknowledged, handle_ack_lem}
use lossless_transport.Sender.Documented.{
  first_timer, no_wait, select_timeout, get_timeout-documented,
}
use lossless_transport.Sender.Data.{Carries, send_next_lem}
use lossless_transport.Sender.Expiry.{IsTimely, IsTimely-clock}
use lossless_transport.Sender.Running.{IsRunning}
use lossless_transport.Sender.Round.{main_loop-Ends}
use lossless_transport.Sender.Resend.{Resent, retransmit_packets-Resent}

-- Data of one byte.
abbrev packet : ℕ → ℕ → Pkt
packet seqnum timestamp = record {
  window = 0;
  tr = 0;
  type = 1;
  seqnum = seqnum;
  length = 256;
  timestamp = timestamp;
  crc1 = 0;
  crc2 = 0;
  payload = replicate 512 5;
}

-- Numbers 1, 2 and 3 are in flight, and a byte of the file is left. The timers of 1 and 2 expire at
-- the times 1 and 2, that of 3 at the time 2 ^ 24.
abbrev flying : Sender
flying = record {
  w = record {
    max_seqnum = 255;
    capacity = 31;
    size = 10;
    pos = 1;
    bufsize = 3;
    front = packet 3 1 ∷ packet 2 33554432 ∷ packet 1 16777216 ∷ [];
  };
  next = 4;
  sent_eof = false;
  infile = 6 ∷ [];
  clock = record {
    first_call = false;
    first = record { tv_sec = 100; tv_usec = 0 };
    last = record { tv_sec = 100; tv_usec = 4 };
  };
  calls = 7;
  sent = [];
}

abbrev all_well : Answers
all_well = record {
  selected = true;
  ready = false;
  received = none;
  packet_allocated = true;
  node_allocated = true;
  read_error = false;
  send_succeeds = true;
  reading = λ n. record { sec = 101; nsec = 0 };
  scratch = [];
}

flying-IsValid : IsValid flying.w
flying-IsValid = omega arith

-- An acknowledgement of all before the given number.
abbrev ack : ℕ → ℕ → Pkt
ack seqnum timestamp = record {
  window = 31;
  tr = 0;
  type = 2;
  seqnum = seqnum;
  length = 0;
  timestamp = timestamp;
  crc1 = 0;
  crc2 = 0;
  payload = replicate 512 0;
}

abbrev time_of : Option Pkt → ℕ
time_of none = 1
time_of (some p) = get_timestamp p

handle_ack_lem_example :
    (w : Window) × (popped : _) × Acked 3 (get_timestamp (ack 3 33554432)) flying.w false w popped
    × (handle_ack flying (ack 3 33554432)
        ≡ returns (record flying { w = acknowledged w popped (ack 3 33554432) }))
unfolding get_seqnum
handle_ack_lem_example = handle_ack_lem flying (ack 3 33554432) flying-IsValid (omega arith)

none_is_zero : (j : ℕ) (q : Pkt) → get_elem? flying.w.front j ≡ some q → get_timestamp q ≢ 0
unfolding get_timestamp htonl
none_is_zero zero q e f = omega (arith, ap time_of e, f)
none_is_zero (suc zero) q e f = omega (arith, ap time_of e, f)
none_is_zero (suc (suc zero)) q e f = omega (arith, ap time_of e, f)
none_is_zero (suc (suc (suc j))) q e f = cc

-- The second copy of an acknowledgement that came before any of the packets was sent.
handle_ack_drops_example :
    handle_ack flying (ack 1 0)
    ≡ returns (record flying {
      w = record flying.w {
        pos = 1;
        front = packet 2 33554432 ∷ packet 1 16777216 ∷ [];
        bufsize = 2;
      };
    })
unfolding get_seqnum get_timestamp htonl
handle_ack_drops_example =
    handle_ack_drops flying (ack 1 0) (packet 3 1) (packet 2 33554432 ∷ packet 1 16777216 ∷ [])
      flying-IsValid (omega arith) refl (omega arith, (omega arith, (omega arith, tt)))
      (record { absent = λ j q e f. none_is_zero j q e f })

get_timeout-documented_example :
    ((select_timeout flying ≡ no_wait) × (get_timeout all_well flying ≡ returns (0, flying)))
    ⊎ ((i : ℕ) × (p : Pkt) × (select_timeout flying ≡ first_timer)
        × IsLeast get_timestamp flying.w.front i p
        × (get_timeout all_well flying
            ≡ returns (get_timestamp p - (now all_well flying).0, (now all_well flying).1)))
get_timeout-documented_example =
    get_timeout-documented all_well flying flying-IsValid (omega arith) (inl refl)

flying_not_full : full flying.w ≡ false
unfolding full ℕ_discrete dec_lt
flying_not_full = refl

send_next_lem_example :
    (q : Pkt) × Carries q 4 (add32 (now all_well flying).0 timer) (6 ∷ [])
    × (send_next checksum all_well flying
        ≡ returns (record (now all_well flying).1 {
          w = record flying.w { front = q ∷ flying.w.front; bufsize = 4 };
          next = 5;
          sent_eof = false;
          infile = [];
          sent = datagram checksum q ∷ [];
        }))
unfolding ℕ_discrete
send_next_lem_example =
    send_next_lem checksum all_well flying flying-IsValid flying_not_full (omega arith) refl refl
      refl refl

packet-IsSendable : (n t : ℕ) → n < 256 → t < 2 ^ 32 → IsSendable (packet n t)
unfolding get_type get_length htons ℕ_discrete
packet-IsSendable n t h k = record {
  fits = record {
    window_fits = omega arith;
    tr_fits = omega arith;
    type_fits = omega arith;
    seqnum_fits = h;
    length_fits = omega arith;
    timestamp_fits = k;
    crc1_fits = omega arith;
    crc2_fits = omega arith;
    payload_size = refl;
  };
  typed = omega arith;
  cut_is_data = inl refl;
  bounded = omega arith;
}

sendable : All IsSendable flying.w.front
sendable = (
  packet-IsSendable 3 1 (omega arith) (omega arith),
  (
    packet-IsSendable 2 33554432 (omega arith) (omega arith),
    (packet-IsSendable 1 16777216 (omega arith) (omega arith), tt),
  ),
)

flying-IsTimely : IsTimely all_well 35 flying
flying-IsTimely = record {
  running = record {
    started = refl;
    first_in = omega arith;
    last_in = omega arith;
    ordered = omega arith;
  };
  normal = λ n. omega arith;
  early = λ n. omega arith;
  slack = omega arith;
}

retransmit_packets-Resent_example :
    (s : Sender) × (retransmit_packets checksum 4 all_well flying ≡ returns s)
    × Resent (now all_well flying).0 flying s
retransmit_packets-Resent_example =
    retransmit_packets-Resent checksum 4 all_well flying flying-IsValid sendable refl (omega arith)
      (IsTimely-clock all_well 35 4 flying flying refl (omega arith) flying-IsTimely)

-- The datagram of an acknowledgement of all before 3.
abbrev ack_bytes : List ℕ
ack_bytes =
    159
    ∷ 3
    ∷ 0
    ∷ 0
    ∷ 0
    ∷ 0
    ∷ 0
    ∷ 2
    ∷ big_endian32 (checksum 0 (159 ∷ 3 ∷ 0 ∷ 0 ∷ 0 ∷ 0 ∷ 0 ∷ 2 ∷ []))

ack_bytes-Bytes : Bytes ack_bytes
ack_bytes-Bytes = omega arith

-- The acknowledgement is received.
abbrev answered : Answers
answered = record all_well { ready = true; received = some ack_bytes }

flying-IsRunning : IsRunning flying
flying-IsRunning = record {
  flying = record {
    window = omega (arith, flying-IsValid);
    circle = refl;
    few = omega arith;
    sendable = sendable;
  };
  next_lt = omega arith;
  running = flying-IsTimely.running;
}

abbrev bytes_of : Option (List ℕ) → List ℕ
bytes_of none = []
bytes_of (some bytes) = bytes

main_loop-Ends_example : Ends IsRunning (main_loop checksum 32 answered flying)
main_loop-Ends_example =
    main_loop-Ends checksum 32 answered flying flying-IsRunning
      (record {
        running = flying-IsTimely.running;
        normal = λ n. omega arith;
        early = λ n. omega arith;
        slack = omega arith;
      })
      (λ bytes e. subst Bytes (ap bytes_of e) ack_bytes-Bytes) (inl refl) (omega arith)
