-- ===== src/Sender/Data.antt =====
-- `main_loop` of src/sender.c: the next packet of the file is made, sent and kept.
use lossless_transport.Common.{
  ℕ, ◌+◌, ◌-◌, ◌*◌, ◌%◌, ◌<◌, ◌≤◌, ◌≡◌, ◌==◌, refl, ◌∙◌, inl, inr, Bool, true, false, ◌&&◌, some,
  List, [], ◌∷◌, ◌++◌, ltb, if◌then◌else◌, length, take, drop, replicate, returns, arith, htons,
  htonl, htons-lt, htonl-lt, htons-htons, htonl-htonl, length-take, length-append, take-append,
}
use lossless_transport.Packet.{
  Pkt, pkt_new, ptype_data, max_payload_size, get_type, get_seqnum, get_length, get_timestamp,
  get_tr, set_type, set_seqnum, set_window, set_timestamp, set_payload, set_length,
}
use lossless_transport.Packet.Fields.{IsWellFormed}
use lossless_transport.Packet.Fields.Laws.{copy-length, resize-length, take-copy}
use lossless_transport.Packet.Wire.Format.{datagram}
use lossless_transport.Packet.Wire.RoundTrip.{IsSendable, send_packet-datagram}
use lossless_transport.Window
use lossless_transport.Window.{Window, done, failed}
use lossless_transport.Window.Buffer.{IsValid, push-cases, full-available}
use lossless_transport.Sender.{Sender, Answers, now, transmit, add32, timer}
use lossless_transport.Sender.Loop.{fill_data, send_next}

-- The packet made from a new one.
abbrev pub data_packet : Pkt → ℕ → ℕ → List ℕ → ℕ → Pkt
data_packet p next time buf len = record p {
  type = ptype_data;
  seqnum = next;
  window = 0;
  timestamp = htonl (add32 time timer);
  length = htons len;
  payload =
      take len buf ++ drop len (take len p.payload ++ replicate ((max_payload_size - len) * 1) 0);
}

pub fill_data_lem :
    (p : Pkt) (next time : ℕ) (buf : List ℕ) (len : ℕ)
    → next < 256
    → len ≤ max_payload_size
    → fill_data p next time buf len ≡ returns (data_packet p next time buf len)
unfolding fill_data set_type set_seqnum set_window set_timestamp set_payload set_length
fill_data_lem p next time buf len n l = ground arith

-- What matters of a packet that `pkt_new` gives.
pub record IsNew (p : Pkt) : Type 0 where
  pub fits : IsWellFormed p
  pub tr_zero : p.tr ≡ 0

pub pkt_new-IsNew : (allocated : Bool) {p : Pkt} → pkt_new allocated ≡ some p → IsNew p
unfolding pkt_new
pkt_new-IsNew true e = ground arith
pkt_new-IsNew false e = ground arith

-- What the packet says of its data.
pub record Carries (q : Pkt) (seqnum time : ℕ) (bytes : List ℕ) : Type 0 where
  pub sendable : IsSendable q
  pub numbered : get_seqnum q ≡ seqnum
  pub timed : get_timestamp q ≡ time
  pub whole : get_tr q ≡ 0
  pub sized : get_length q ≡ length bytes
  pub loaded : take (length bytes) q.payload ≡ bytes

pub data_packet-Carries :
    (p : Pkt) (next time : ℕ) (bytes rest : List ℕ)
    → IsNew p
    → next < 256
    → length bytes ≤ max_payload_size
    → Carries (data_packet p next time (bytes ++ rest) (length bytes)) next (add32 time timer) bytes
unfolding get_seqnum get_timestamp get_length get_type get_tr
data_packet-Carries p next time bytes rest v n l =
    let len = length bytes in
    let buf = bytes ++ rest in
    let old = take len p.payload ++ replicate ((max_payload_size - len) * 1) 0 in
    let b = resize-length p.payload len v.fits.payload_size l in
    let k : len ≤ length buf = omega (arith, length-append bytes rest) in
    let s = copy-length buf old len b k l in
    let t = htons-htons len (omega arith) in
    let w : IsWellFormed (data_packet p next time buf len) = record {
      window_fits = omega arith;
      tr_fits = v.fits.tr_fits;
      type_fits = omega arith;
      seqnum_fits = n;
      length_fits = htons-lt len;
      timestamp_fits = htonl-lt (add32 time timer);
      crc1_fits = v.fits.crc1_fits;
      crc2_fits = v.fits.crc2_fits;
      payload_size = s;
    } in
    record {
      sendable = record {
        fits = w;
        typed = omega arith;
        cut_is_data = inl refl;
        bounded = ground (arith, t, v.tr_zero);
      };
      numbered = refl;
      timed = htonl-htonl (add32 time timer) (omega arith);
      whole = v.tr_zero;
      sized = ground (arith, t, v.tr_zero);
      loaded = take-copy buf old len k ∙ take-append len bytes rest refl;
    }

and-false : (b : Bool) → (b && false) ≡ false
and-false true = refl
and-false false = refl

pkt_new-some : (p : Pkt) × (pkt_new true ≡ some p)
unfolding pkt_new
pkt_new-some = (_, refl)

push-done :
    (w : Window) (q : Pkt)
    → IsValid w
    → Window.full w ≡ false
    → Window.push w q true ≡ (done, record w { front = q ∷ w.front; bufsize = w.bufsize + 1 })
push-done w q v f = elim (push-cases w q true v) [
  | inl (inl z, e) ↦ ground (arith, full-available w v)
  | inl (inr z, e) ↦ cc
  | inr (h, z, e, k) ↦ e
]

module _ (crc32 : ℕ → List ℕ → ℕ) where
  -- While the window is not full and the system fails nothing, `main_loop` sends and keeps a
  -- packet with the next number, the time of its timer, and the next 512 bytes of the file or
  -- what is left of them; those bytes are read, and an empty packet marks the end of the file as
  -- sent.
  pub send_next_lem :
      (io : Answers) (s : Sender)
      → IsValid s.w
      → Window.full s.w ≡ false
      → s.next < 256
      → io.packet_allocated ≡ true
      → io.node_allocated ≡ true
      → io.read_error ≡ false
      → io.send_succeeds ≡ true
      → let bytes = take max_payload_size s.infile in
        let (time, t) = now io s in
        (q : Pkt) × Carries q s.next (add32 time timer) bytes
        × (send_next crc32 io s
            ≡ returns (record t {
              w = record s.w { front = q ∷ s.w.front; bufsize = s.w.bufsize + 1 };
              next = (s.next + 1) % 256;
              sent_eof = if length bytes == 0 then true else s.sent_eof;
              infile = drop max_payload_size s.infile;
              sent = s.sent ++ datagram crc32 q ∷ [];
            }))
  unfolding send_next transmit now
  send_next_lem io s v f n a b c d =
      let bytes = take max_payload_size s.infile in
      let len = length bytes in
      let l : len ≤ max_payload_size = omega (arith, length-take max_payload_size s.infile) in
      let time = (now io s).0 in
      let (p, new) = pkt_new-some in
      let rest = drop len (replicate max_payload_size 0) in
      let q = data_packet p s.next time (bytes ++ rest) len in
      let carries = data_packet-Carries p s.next time bytes rest (pkt_new-IsNew true new) n l in
      let filling = fill_data_lem p s.next time (bytes ++ rest) len n l in
      let pushing = push-done s.w q v f in
      let sending = send_packet-datagram crc32 io.scratch q carries.sendable in
      (
        q,
        carries,
        rw (c, a, new, send_next)
            (rw (and-false (ltb len max_payload_size))
              (rw filling (rw (sending, d) (ground (arith, pushing, b))))),
      )
