-- ===== src/Transfer/Network/Tests.antt =====
-- A file of three bytes, sent over a network that damages a datagram.
use lossless_transport.Common.{
  ℕ, ◌≡◌, get_or, get_elem?, refl, true, false, none, some, [], ◌∷◌, arith, Outcome, returns, take,
  List, ◌*◌, htonl, htons, exits, aborts, faults, spins,
}
use lossless_transport.Packet.{
  max_payload_size, pkt_new, set_type, set_seqnum, set_window, set_crc1, set_crc2, set_payload,
  set_timestamp, get_crc1, get_crc2, get_length, get_seqnum, get_timestamp, get_total_size,
  get_type, get_window, get_payload,
}
use lossless_transport.Packet.Wire.{
  compute_crc1, compute_crc2, decode, decode_fields, decode_payload, encode, header_memory,
  load_crc2, load_header, seal, struct_memory, write_at,
}
use lossless_transport.Packet.Send.{send_packet}
use lossless_transport.Packet.Tests.{checksum, checksum-lt}
use lossless_transport.Clock.{initial, get_monotime, adjust}
use lossless_transport.Sender.{Sender, Answers}
use lossless_transport.Sender
use lossless_transport.Sender.Loop
use lossless_transport.Receiver.{Receiver}
use lossless_transport.Receiver
use lossless_transport.Window
use lossless_transport.Transfer.{idle}
use lossless_transport.Transfer.Receive.{awaiting}
use lossless_transport.Transfer.Network.{
  Reached, starts, sender_round, receiver_round, whole, unusable, IsUnusable,
}
use lossless_transport.Transfer.Network.Prefix.{Reached-prefix}

abbrev sends : Sender.Answers
sends = record {
  selected = true;
  ready = false;
  received = none;
  packet_allocated = true;
  node_allocated = true;
  read_error = false;
  send_succeeds = true;
  reading = λ n. record { sec = n; nsec = 0 };
  scratch = [];
}

abbrev receives : Receiver.Answers
receives = record {
  packet_allocated = true;
  reply_allocated = true;
  node_allocated = true;
  written = true;
  flushed = true;
  sent = true;
  scratch = [];
}

abbrev file : List ℕ
file = 1 ∷ 2 ∷ 3 ∷ []

abbrev started : Sender
started = record {
  w = idle 1 0;
  next = 0;
  sent_eof = false;
  infile = file;
  clock = initial;
  calls = 0;
  sent = [];
}

abbrev or_else : {A : Type 0} → A → Outcome A → A
or_else d (returns a) = a
or_else d exits = d
or_else d aborts = d
or_else d faults = d
or_else d spins = d

abbrev sent_once : Sender
sent_once = or_else started (Sender.Loop.main_loop checksum 1 sends started)

start-sender : Sender.Loop.init true file ≡ returns started
unfolding Sender.Loop.init Window.create
start-sender = refl

start-receiver : Receiver.init true ≡ returns (awaiting 0 [])
unfolding Receiver.init Window.create
start-receiver = refl

sends-first : Sender.Loop.main_loop checksum 1 sends started ≡ returns sent_once
unfolding Sender.Loop.main_loop Sender.Loop.wait Sender.Loop.receive Sender.Loop.finish
    Sender.Loop.send_next Sender.Loop.fill_data Sender.get_timeout Sender.retransmit_packets
    Sender.retransmit_from Sender.now Sender.transmit htons send_packet Window.buffer_size
    Window.get_size Window.full Window.push Window.peek_min_timestamp pkt_new set_type set_seqnum
    set_window set_payload set_timestamp get_length get_total_size get_type encode
sends-first = refl

abbrev first_datagram : List ℕ
first_datagram = get_or sent_once.sent 0 []

-- The receiver after the datagram has arrived.
abbrev received_once : Receiver
received_once =
    (or_else (awaiting 0 [], [])
      (Receiver.main_loop checksum receives (awaiting 0 []) (some first_datagram))).0

abbrev replies : List (List ℕ)
replies =
    (or_else (awaiting 0 [], [])
      (Receiver.main_loop checksum receives (awaiting 0 []) (some first_datagram))).1

sent-first : get_elem? sent_once.sent 0 ≡ some first_datagram
unfolding Sender.Loop.main_loop Sender.Loop.wait Sender.Loop.receive Sender.Loop.finish
    Sender.Loop.send_next Sender.Loop.fill_data Sender.get_timeout Sender.retransmit_packets
    Sender.retransmit_from Sender.now Sender.transmit htons send_packet Window.buffer_size
    Window.get_size Window.full Window.push Window.peek_min_timestamp pkt_new set_type set_seqnum
    set_window set_payload set_timestamp get_length get_total_size get_type encode
sent-first = refl

receives-first :
    Receiver.main_loop checksum receives (awaiting 0 []) (some first_datagram)
    ≡ returns (received_once, replies)
unfolding Sender.Loop.main_loop Sender.Loop.wait Sender.Loop.receive Sender.Loop.finish
    Sender.Loop.send_next Sender.Loop.fill_data Sender.get_timeout Sender.retransmit_packets
    Sender.retransmit_from Sender.now Sender.transmit get_monotime adjust htonl htons send_packet
    Window.buffer_size Window.get_size Window.full Window.push Window.peek_min_timestamp pkt_new
    set_type set_seqnum set_window set_crc1 set_crc2 set_payload set_timestamp get_crc1 get_crc2
    get_length get_seqnum get_timestamp get_total_size get_type get_window compute_crc1 compute_crc2
    decode decode_fields decode_payload encode header_memory load_crc2 load_header seal
    struct_memory write_at Receiver.main_loop Receiver.handle_packet Receiver.handle_complete
    Receiver.store Receiver.deliver_all Receiver.deliver Receiver.fill_ack Window.find_seqnum
    Window.find_from Window.start Window.end Window.has Window.match_timestamp Window.match_from
    Window.pop_timestamp Window.pop_node Window.slide Window.available
receives-first = refl

received-file : received_once.out ≡ file
unfolding Sender.Loop.main_loop Sender.Loop.wait Sender.Loop.receive Sender.Loop.finish
    Sender.Loop.send_next Sender.Loop.fill_data Sender.get_timeout Sender.retransmit_packets
    Sender.retransmit_from Sender.now Sender.transmit get_monotime adjust htonl htons send_packet
    Window.buffer_size Window.get_size Window.full Window.push Window.peek_min_timestamp pkt_new
    set_type set_seqnum set_window set_crc1 set_crc2 set_payload set_timestamp get_crc1 get_crc2
    get_length get_seqnum get_timestamp get_total_size get_type get_window get_payload compute_crc1
    compute_crc2 decode decode_fields decode_payload encode header_memory load_crc2 load_header seal
    struct_memory write_at Receiver.main_loop Receiver.handle_packet Receiver.handle_complete
    Receiver.store Receiver.deliver_all Receiver.deliver Receiver.written_bytes Receiver.fill_ack
    Window.find_seqnum Window.find_from Window.start Window.end Window.has Window.match_timestamp
    Window.match_from Window.pop_timestamp Window.pop_node Window.slide Window.available
received-file = refl

-- What is left of a datagram of which every byte was lost.
nothing-IsUnusable : IsUnusable checksum []
unfolding decode
nothing-IsUnusable = record { truncated = λ q p n e. cc }

receives-nothing :
    Receiver.main_loop checksum receives (awaiting 0 []) (some []) ≡ returns (awaiting 0 [], [])
unfolding Receiver.main_loop pkt_new decode
receives-nothing = refl

received-Reached : Reached checksum file sent_once received_once
received-Reached =
    receiver_round receives
      (receiver_round receives
        (sender_round 1 sends (starts start-sender start-receiver) sends-first)
        (unusable nothing-IsUnusable) receives-nothing)
      (whole 0 sent-first) receives-first

Reached-prefix_example : received_once.out ≡ take (max_payload_size * received_once.w.pos) file
Reached-prefix_example = Reached-prefix checksum checksum-lt file (omega arith) received-Reached
