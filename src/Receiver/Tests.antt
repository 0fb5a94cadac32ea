-- ===== src/Receiver/Tests.antt =====
-- The receiver's theorems at a concrete state.
use lossless_transport.Common.{
  ◌≢◌, ℕ, zero, suc, ◌≡◌, ◌+◌, ◌*◌, ap, refl, Option, none, some, List, [], ◌∷◌, true, arith,
  get_elem?, returns, replicate, ℕ_discrete, dec_lt, htonl, htons,
}
use lossless_transport.Packet.{
  Pkt, ptype_ack, ptype_nack, pkt_new, set_type, set_seqnum, set_window, set_crc1, set_crc2,
  set_payload, set_timestamp, get_crc1, get_crc2, get_length, get_seqnum, get_timestamp,
  get_total_size, get_type, get_window, get_payload, get_tr,
}
use lossless_transport.Packet.Wire.{
  compute_crc1, compute_crc2, decode, decode_fields, decode_payload, encode, header_memory,
  load_crc2, load_header, seal, struct_memory, write_at,
}
use lossless_transport.Packet.Send.{send_packet}
use lossless_transport.Packet.Tests.{
  checksum, checksum-lt, small, small-IsSendable, cut_small, cut_small-IsSendable,
}
use lossless_transport.Packet.Wire.Format.{datagram}
use lossless_transport.Packet.Wire.Decode.{received}
use lossless_transport.Window.{Window, available}
use lossless_transport.Receiver.{main_loop}
use lossless_transport.Receiver.Reply.{Answer}
use lossless_transport.Receiver.Store.{Stores}
use lossless_transport.Receiver.Datagram.{IsWell}
use lossless_transport.Receiver.Handle.{main_loop-acks, main_loop-nacks}
use lossless_transport.Window
use lossless_transport.Window.Invariant.{IsSound}
use lossless_transport.Receiver.{
  Receiver, Answers, init, written_bytes, store, deliver, deliver_all, fill_ack, handle_packet,
  handle_complete,
}
use lossless_transport.Receiver.Main.{rounds}
use lossless_transport.Receiver.Rounds.{rounds-stores}
use lossless_transport.Receiver.Deliver.{DistinctTimes, Delivered, deliver_all-Delivered}

-- Data of two bytes.
abbrev packet : ℕ → ℕ → ℕ → Pkt
packet seqnum timestamp byte = record {
  window = 0;
  tr = 0;
  type = 1;
  seqnum = seqnum;
  length = 512;
  timestamp = timestamp;
  crc1 = 0;
  crc2 = 0;
  payload = byte ∷ byte ∷ replicate 510 0;
}

-- The window starts at 255; 255 came after 0, and 2 waits for 1.
abbrev gap : Receiver
gap = record {
  w = record {
    max_seqnum = 255;
    capacity = 31;
    size = 31;
    pos = 255;
    bufsize = 3;
    front = packet 255 1 7 ∷ packet 2 2 9 ∷ packet 0 3 8 ∷ [];
  };
  out = [];
}

abbrev all_well : Answers
all_well = record {
  packet_allocated = true;
  reply_allocated = true;
  node_allocated = true;
  written = true;
  flushed = true;
  sent = true;
  scratch = [];
}

gap-IsSound : IsSound gap.w
gap-IsSound = omega arith

abbrev number_of : Option Pkt → ℕ
number_of none = 0
number_of (some p) = p.seqnum

abbrev time_of : Option Pkt → ℕ
time_of none = 0
time_of (some p) = get_timestamp p

time-gap :
    (i : ℕ) (p : Pkt) → get_elem? gap.w.front i ≡ some p → 16777216 * (i + 1) ≡ get_timestamp p
unfolding get_timestamp htonl
time-gap zero p e = ap time_of e
time-gap (suc zero) p e = ap time_of e
time-gap (suc (suc zero)) p e = ap time_of e
time-gap (suc (suc (suc i))) p e = cc

gap-DistinctTimes : DistinctTimes gap.w.front
gap-DistinctTimes = record {
  one = λ i j p q e f g. omega (arith, time-gap i p e, time-gap j q f, g);
}

abbrev filled_gap : Receiver
filled_gap = record {
  w = record gap.w { pos = 1; bufsize = 1; front = packet 2 2 9 ∷ [] };
  out = 7 ∷ 7 ∷ 8 ∷ 8 ∷ [];
}

deliver_all-gap : deliver_all 4 all_well gap ≡ returns filled_gap
unfolding deliver_all deliver Window.find_seqnum Window.find_from Window.match_timestamp
    Window.match_from Window.pop_timestamp Window.pop_node Window.slide Window.start written_bytes
    get_timestamp get_seqnum get_length get_payload get_tr htonl htons ℕ_discrete dec_lt
deliver_all-gap = refl

deliver_all-Delivered_example :
    (r : Receiver) × (deliver_all 4 all_well gap ≡ returns r) × Delivered gap r
deliver_all-Delivered_example =
    deliver_all-Delivered 4 all_well gap gap-IsSound gap-DistinctTimes refl (omega arith)

-- 7 is awaited, and 8 is there.
abbrev waiting : Receiver
waiting = record {
  w = record {
    max_seqnum = 255;
    capacity = 31;
    size = 31;
    pos = 7;
    bufsize = 1;
    front = packet 8 1 9 ∷ [];
  };
  out = [];
}

waiting-IsSound : IsSound waiting.w
waiting-IsSound = omega arith

only : (i : ℕ) (p : Pkt) → get_elem? waiting.w.front i ≡ some p → i ≡ 0
only zero p e = refl
only (suc i) p e = cc

waiting-DistinctTimes : DistinctTimes waiting.w.front
waiting-DistinctTimes = record { one = λ i j p q e f g. omega (arith, only i p e, only j q f) }

not_small :
    (i : ℕ) (p : Pkt) → get_elem? waiting.w.front i ≡ some p → get_timestamp p ≢ get_timestamp small
unfolding get_timestamp htonl
not_small zero p e f = omega (arith, ap time_of e, f)
not_small (suc i) p e f = cc

all_well-IsWell : IsWell all_well
all_well-IsWell = record {
  packet = refl;
  reply = refl;
  node = refl;
  file = refl;
  flush = refl;
  socket = refl;
}

has-small : Window.has waiting.w (get_seqnum small) ≡ true
unfolding Window.has Window.start Window.end get_seqnum ℕ_discrete dec_lt
has-small = refl

main_loop-acks_example :
    (w : Window) × (r : Receiver) × (q : Pkt) × Stores waiting.w
      (received checksum checksum-lt small)
      w
    × Delivered (record waiting { w = w }) r
    × Answer q ptype_ack r.w.pos (available r.w) (get_timestamp small)
    × (main_loop checksum all_well waiting (some (datagram checksum small))
        ≡ returns (r, datagram checksum q ∷ []))
unfolding get_tr
main_loop-acks_example =
    main_loop-acks checksum checksum-lt all_well waiting small all_well-IsWell waiting-IsSound
      (omega arith) (omega arith) waiting-DistinctTimes small-IsSendable
      (record { absent = not_small }) has-small refl

main_loop-nacks_example :
    (q : Pkt) × Answer q ptype_nack (get_seqnum small) (available waiting.w) 0
    × (main_loop checksum all_well waiting (some (datagram checksum cut_small))
        ≡ returns (waiting, datagram checksum q ∷ []))
unfolding get_tr get_seqnum
main_loop-nacks_example =
    main_loop-nacks checksum checksum-lt all_well waiting cut_small all_well-IsWell waiting-IsSound
      (omega arith) cut_small-IsSendable has-small (omega arith)

-- Nothing has come.
abbrev fresh : Receiver
fresh = record {
  w = record { max_seqnum = 255; capacity = 31; size = 31; pos = 0; bufsize = 0; front = [] };
  out = [];
}

-- `small`, as a datagram
abbrev small_bytes : List ℕ
small_bytes =
    69 ∷ 7 ∷ 0 ∷ 3 ∷ 0 ∷ 0 ∷ 0 ∷ 23 ∷ 114 ∷ 38 ∷ 253 ∷ 124 ∷ 1 ∷ 2 ∷ 3 ∷ 0 ∷ 0 ∷ 4 ∷ 2 ∷ []

-- 7 has come before 0.
abbrev early : Receiver
early = record {
  w = record fresh.w {
    bufsize = 1;
    front = record small { crc1 = 2096965234; crc2 = 33816576 } ∷ [];
  };
  out = [];
}

abbrev early_ack : List ℕ
early_ack = 158 ∷ 0 ∷ 0 ∷ 0 ∷ 0 ∷ 0 ∷ 0 ∷ 23 ∷ 28 ∷ 249 ∷ 177 ∷ 185 ∷ []

init-fresh : init true ≡ returns fresh
unfolding init Window.create
init-fresh = refl

rounds-fresh :
    rounds checksum ((all_well, some small_bytes) ∷ []) fresh ≡ returns (early, early_ack ∷ [])
unfolding send_packet Window.buffer_size Window.get_size Window.full Window.push pkt_new set_type
    set_seqnum set_window set_crc1 set_crc2 set_payload set_timestamp get_crc1 get_crc2 get_length
    get_seqnum get_timestamp get_total_size get_type get_window compute_crc1 compute_crc2 decode
    decode_fields decode_payload encode header_memory load_crc2 load_header seal htonl htons
    struct_memory write_at main_loop rounds handle_packet handle_complete store deliver_all fill_ack
    Window.find_seqnum Window.find_from Window.start Window.end Window.has Window.available get_tr
    ℕ_discrete dec_lt
rounds-fresh = refl

not_third : (i : ℕ) (p : Pkt) → get_elem? early.w.front i ≡ some p → get_seqnum p ≢ 3
unfolding get_seqnum
not_third zero p e f = omega (arith, ap number_of e, f)
not_third (suc i) p e f = cc

rounds-stores_example :
    store all_well early.w (packet 3 1 9)
    ≡ returns (record early.w { front = packet 3 1 9 ∷ early.w.front; bufsize = 2 })
unfolding get_seqnum Window.has Window.start Window.end
rounds-stores_example =
    rounds-stores checksum true ((all_well, some small_bytes) ∷ []) fresh early (early_ack ∷ [])
      all_well (packet 3 1 9) init-fresh (omega arith) rounds-fresh (omega arith) refl
      (record { absent = not_third }) refl
