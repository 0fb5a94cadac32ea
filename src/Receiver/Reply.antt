-- ===== src/Receiver/Reply.antt =====
-- The replies of the receiver: how `main_loop` of src/receiver.c fills an ACK or a NACK.
use lossless_transport.Common.{
  ℕ, ◌^◌, ◌<◌, ◌≤◌, ◌≡◌, refl, inr, true, some, returns, arith, htons, htonl,
}
use lossless_transport.Packet.{
  Pkt, ptype_ack, ptype_nack, pkt_new, get_type, get_tr, get_window, get_seqnum, get_length,
  get_timestamp, set_type, set_window, set_seqnum, set_timestamp,
}
use lossless_transport.Packet.Fields.{IsWellFormed}
use lossless_transport.Packet.Wire.RoundTrip.{IsSendable}
use lossless_transport.Window
use lossless_transport.Window.{Window, Code, done, failed, available, find_seqnum, push}
use lossless_transport.Window.Buffer.{IsValid}
use lossless_transport.Receiver.{fill_nack, fill_ack}

-- A packet that `pkt_new` gives.
pub record IsNew (p : Pkt) : Type 0 where
  pub fits : IsWellFormed p
  pub tr_zero : p.tr ≡ 0
  pub empty : get_length p ≡ 0
  pub untimed : get_timestamp p ≡ 0

pub pkt_new-IsNew : (p : Pkt) × (pkt_new true ≡ some p) × IsNew p
unfolding pkt_new get_length get_timestamp htons htonl
pkt_new-IsNew = (_, refl, ground arith)

-- The packet answers with a type, a number, the room in the window, and a timestamp.
pub record Answer (q : Pkt) (type seqnum room time : ℕ) : Type 0 where
  pub sendable : IsSendable q
  pub typed : get_type q ≡ type
  pub numbered : get_seqnum q ≡ seqnum
  pub announced : get_window q ≡ room
  pub timed : get_timestamp q ≡ time

pub available-le : (w : Window) → IsValid w → available w ≤ w.capacity
unfolding available
available-le w v = ground arith

-- A reply with its fields set.
abbrev pub reply_packet : Pkt → ℕ → ℕ → ℕ → ℕ → Pkt
reply_packet p type seqnum room time = record p {
  type = type;
  seqnum = seqnum;
  window = room;
  timestamp = time;
}

pub reply_packet-Answer :
    (p : Pkt) (type seqnum room time : ℕ)
    → IsNew p
    → type < 4
    → 0 < type
    → seqnum < 256
    → room < 32
    → time < 2 ^ 32
    → Answer (reply_packet p type seqnum room time) type seqnum room (htonl time)
unfolding get_seqnum get_timestamp get_length get_type get_window get_tr
reply_packet-Answer p type seqnum room time n t u s r h = record {
  sendable = record {
    fits = record {
      window_fits = r;
      tr_fits = n.fits.tr_fits;
      type_fits = t;
      seqnum_fits = s;
      length_fits = n.fits.length_fits;
      timestamp_fits = h;
      crc1_fits = n.fits.crc1_fits;
      crc2_fits = n.fits.crc2_fits;
      payload_size = n.fits.payload_size;
    };
    typed = omega (arith, u);
    cut_is_data = inr n.tr_zero;
    bounded = omega (arith, n.empty);
  };
  typed = refl;
  numbered = refl;
  announced = refl;
  timed = refl;
}

pub fill_ack_lem :
    (w : Window) (time : ℕ) (p : Pkt)
    → available w < 32
    → w.pos < 256
    → fill_ack w time p ≡ returns (reply_packet p ptype_ack w.pos (available w) (htonl time))
unfolding fill_ack set_type set_window set_seqnum set_timestamp Window.start
fill_ack_lem w time p r s = ground arith

pub fill_nack_lem :
    (w : Window) (p reply : Pkt)
    → available w < 32
    → fill_nack w p reply
      ≡ returns (reply_packet reply ptype_nack (get_seqnum p) (available w) reply.timestamp)
unfolding fill_nack set_type set_window set_seqnum
fill_nack_lem w p reply r = ground arith
