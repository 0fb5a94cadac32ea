-- ===== src/Lib.antt =====
-- Models of the two programs of this repository, a sender and a receiver that transfer a file over
-- UDP with selective repeat, and theorems on them.
--
-- The programs. The sender (src/sender.c) cuts its input into DATA packets of at most 512 bytes,
-- keeps those in flight in a window (src/window.c), and sends a packet again when its timer
-- expires; the timer is the timestamp that the packet carries. The receiver (src/receiver.c) keeps
-- packets that come out of sequence in a window too, writes what is in sequence to its output, and
-- answers each packet with an ACK, or a NACK where the network has cut the payload. Both read and
-- write datagrams by src/packet_implem.c, and the sender's times come from src/util.c.
--
-- The modules.
--   Common: lists, Boolean tests, words in host and network order, and `Outcome`, the ways in
--     which a piece of a program ends: a return, an exit, a failed assertion, a NULL dereference,
--     or the fuel of a loop used up.
--     `Common.Printing` is how `printf` prints numbers.
--   Packet: src/packet_interface.h and src/packet_implem.c. `Pkt` is `struct pkt`; `set_tr` is
--     `pkt_set_tr`, and so on. `Packet.Wire` has `pkt_encode` and `pkt_decode` on bytes, with the
--     memory of the struct written out for a little-endian host and GCC's bit fields.
--     `Packet.Send` is `send_packet` of src/util.c, `Packet.Repr` its `pkt_repr`.
--   Window: src/window.h and src/window.c. `Window` is `struct window`, its linked list a list;
--     `slide` is `window_slide`, and so on. `Window.Contract` is src/window.h: its operations, on
--     any type of windows, and what its comments promise of them. `Window.Nodes` has the functions
--     of src/window.c again, under their names in C, on the nodes in memory.
--   Clock: `get_monotime`, with its static variables as a record, and `micro_to_timeval`.
--   Log: what src/util.c prints, and its functions that end the program, as steps that add to the
--     lines printed. CommandLine: `parse_args`, on the arguments as lists of characters. Sockets:
--     `real_address` and `create_socket`, on the sockets of the process.
--   Receiver: `main_loop` of src/receiver.c, cut where the code branches; `Receiver.Main` has
--     `wait_for_client` and `main`.
--   Sender: `get_timeout`, `handle_ack`, `handle_nack` and `retransmit_packets` of src/sender.c;
--     `Sender.Loop` has `main_loop` and the loop of `main`, `Sender.Main` the whole of `main`.
--     `Sender.Documented` has the rule that src/window.h gives for the time of `select`.
--   Transfer: the two programs together, over a network that delivers every datagram at once and
--     whole. A turn is a round of the sender, then the rounds of the receiver that it causes.
--     `Transfer.Network` has their rounds in any order, over a network that may lose, repeat,
--     delay, reorder and damage datagrams.
-- The modules called Tests evaluate the definitions, and apply the theorems, at concrete states.
--
-- Parameters. zlib's `crc32` is a function of a start value and the bytes; where the checksum is
-- read back, its results are taken to fit 32 bits. What the system calls give (allocation, the
-- clock, `select`, `recv`, `fread`, `fwrite`, `send`) is an argument: the records `Answers` and
-- `Setup`.
--
-- Fuel. The walk of `handle_ack` and the receiver's loop over packets in sequence are given one
-- more than the number of packets in the buffer, and end with that, since each step removes one.
-- So are the walks over the nodes of the buffer, since each round goes to the next node.
-- `retransmit_packets` takes its fuel as an argument; the same amount is enough, at most 32,
-- since a packet that was sent again has a timer in the future. The loop of `main` runs over the
-- answers of its rounds.
--
-- A transfer over a network that loses datagrams is not claimed to end: an ACK that is lost can stall
-- it. For a file of more than 255 packets sequence numbers are used again, and a datagram that the
-- network holds back for so long would be taken for another; nothing is claimed of that.
--
-- Not modelled: `fclose`, `pkt_del`, the `free` of a `struct window`, and the lines that the two
-- `main_loop` print. What `getopt`, `getaddrinfo`, `socket`, `bind` and `connect` give are
-- arguments too.
pub mod Common
pub mod Packet
pub mod Window
pub mod Clock
pub mod Receiver
pub mod Sender
pub mod Log
pub mod CommandLine
pub mod Sockets
pub mod Transfer
