-- ===== src/Transfer/Network/Keeping.antt =====
-- src/sender.c over any network: responses and timers leave packets of the file in its buffer.
use lossless_transport.Common.{
  ℕ, suc, ◌+◌, ◌*◌, ◌<◌, ◌≡◌, ◌==◌, refl, sym, subst, ◌⊎◌, inl, inr, Bool, true, false, not, ◌&&◌,
  ◌||◌, none, some, List, ltb, leb, length, drop, get_elem?, arith, Bool-cases, Option-cases,
  returns, aborts, check, deref, or_exit, OnReturn, OnReturn-bind, OnReturn-after, OnReturn-if,
  OnReturn-deref, OnReturn-intro, if◌then◌else◌, htonl-lt,
}
use lossless_transport.Packet.{
  Pkt, pkt_new, ptype_data, ptype_ack, get_type, get_tr, get_seqnum, get_length, get_timestamp,
  set_timestamp, get_window, max_payload_size,
}
use lossless_transport.Packet.Wire.{decode}
use lossless_transport.Packet.Wire.Format.{datagram}
use lossless_transport.Packet.Send.{OnReturn-status}
use lossless_transport.Window
use lossless_transport.Window.{Window, Code, done, failed}
use lossless_transport.Sender.{
  Sender, Answers, now, get_timeout, time_left, pop_acked, handle_ack, handle_nack,
}
use lossless_transport.Sender.Ack.{All, All-elim}
use lossless_transport.Sender.Data.{Carries}
use lossless_transport.Sender.Expiry.{All-set}
use lossless_transport.Sender.Flight.{pop_node-All, pop_acked-All}
use lossless_transport.Sender.Loop.{wait, resize_window, handle_response, receive}
use lossless_transport.Transfer.Network.{chunk}

-- The packet can be sent, and holds the bytes of the file that belong under its number.
abbrev pub IsSourced : List ℕ → Pkt → Type 0
IsSourced infile q = Carries q (get_seqnum q) (get_timestamp q) (chunk infile (get_seqnum q))

pub stamped-IsSourced :
    (infile : List ℕ) (q : Pkt) (time : ℕ)
    → IsSourced infile q
    → IsSourced infile (set_timestamp q time).1
unfolding set_timestamp get_timestamp get_seqnum get_type get_length get_tr
stamped-IsSourced infile q time c = record {
  sendable = ground (arith, c.sendable, htonl-lt time);
  numbered = refl;
  timed = refl;
  whole = c.whole;
  sized = c.sized;
  loaded = c.loaded;
}

slide_to-front :
    (w : Window) (n : ℕ)
    → (Window.slide_to w n ≡ none)
      ⊎ ((u : Window) × (Window.slide_to w n ≡ some u) × (u.front ≡ w.front))
unfolding Window.slide_to
slide_to-front w n = elim (Bool-cases (leb n w.max_seqnum)) [
  | inl e ↦ inr (record w { pos = n }, rw e, refl)
  | inr e ↦ inl (rw e)
]

-- Whether or not it is larger, a window with another size has the same packets.
resize-front : (w : Window) (n : ℕ) → (Window.resize w n).1.front ≡ w.front
unfolding Window.resize
resize-front w n = elim (Bool-cases (ltb w.capacity n)) [ inl e ↦ rw e | inr e ↦ rw e ]

module _ (crc32 : ℕ → List ℕ → ℕ) (infile : List ℕ) where
  -- The packets in the buffer and those sent are of the file, and what is not sent is still to be
  -- read.
  pub record IsSending (s : Sender) : Type 0 where
    pub buffer : All (IsSourced infile) s.w.front
    pub sent :
        (i : ℕ) (d : List ℕ)
        → get_elem? s.sent i ≡ some d
        → (q : Pkt) × IsSourced infile q × (d ≡ datagram crc32 q)
    pub reading :
        (s.sent_eof ≡ true)
        ⊎ ((s.infile ≡ drop (max_payload_size * s.next) infile)
            × (max_payload_size * s.next < length infile + max_payload_size))

  get_timeout-IsSending :
      (io : Answers) (s : Sender) → IsSending s → OnReturn (λ r. IsSending r.1) (get_timeout io s)
  unfolding get_timeout time_left now
  get_timeout-IsSending io s v =
      OnReturn-if (λ r. IsSending r.1) ((Window.full s.w && not (Window.empty s.w)) || s.sent_eof) _
        _
        (λ h.
          OnReturn-after (λ r. IsSending r.1) (deref (Window.peek_min_timestamp s.w)) _
            (λ p. record { buffer = v.buffer; sent = v.sent; reading = v.reading }))
        (λ h. v)

  pub wait-IsSending : (io : Answers) (s : Sender) → IsSending s → OnReturn IsSending (wait io s)
  unfolding wait
  wait-IsSending io s v =
      OnReturn-if IsSending
        (not s.sent_eof && (Window.buffer_size s.w == 0) && (Window.get_size s.w == 0)) _ _
        (λ h. OnReturn-after IsSending (check io.selected) _ (λ u. v))
        (λ h.
          OnReturn-bind (λ r. IsSending r.1) IsSending (get_timeout io s) _
            (get_timeout-IsSending io s v)
            (λ r k. OnReturn-after IsSending (check io.selected) _ (λ u. k)))

  popped_or_not :
      (popped : Bool) (w : Window) (time : ℕ)
      → All (IsSourced infile) w.front
      → All (IsSourced infile) (if popped then w else (Window.pop_timestamp w time).1).front
  unfolding Window.pop_timestamp
  popped_or_not true w time a = a
  popped_or_not false w time a = pop_node-All (IsSourced infile) w (Window.match_timestamp w time) a

  handle_ack-IsSending :
      (s : Sender) (ack : Pkt) → IsSending s → OnReturn IsSending (handle_ack s ack)
  unfolding handle_ack
  handle_ack-IsSending s ack v =
      let n = get_seqnum ack in
      let time = get_timestamp ack in
      OnReturn-bind (λ r. All (IsSourced infile) r.0.front) IsSending
        (pop_acked (suc (length s.w.front)) n time s.w false) _
        (OnReturn-intro (λ r. All (IsSourced infile) r.0.front) _
          (λ (w, popped) e.
            pop_acked-All (IsSourced infile) (suc (length s.w.front)) n time s.w false w popped e
              v.buffer))
        λ (w, popped) a. elim (slide_to-front w n) [
          | inl e ↦ rw e tt
          | inr (u, e, f) ↦ rw e (record {
            buffer = popped_or_not popped u time (subst (All (IsSourced infile)) (sym f) a);
            sent = v.sent;
            reading = v.reading;
          })
        ]

  handle_nack-IsSending :
      (io : Answers) (s : Sender) (nack : Pkt)
      → IsSending s
      → OnReturn IsSending (handle_nack io s nack)
  unfolding handle_nack now
  handle_nack-IsSending io s nack v =
      OnReturn-if IsSending (not (Window.has s.w (get_seqnum nack))) _ _ (λ h. v)
        λ h. elim (Option-cases (Window.find_seqnum s.w (get_seqnum nack))) [
          | inl e ↦ rw e v
          | inr (i, e) ↦ rw e (
              OnReturn-bind (λ p. get_elem? s.w.front i ≡ some p) IsSending
                (deref (get_elem? s.w.front i)) _ (OnReturn-deref (get_elem? s.w.front i))
                λ p f.
                  let q =
                    stamped-IsSourced infile p (now io s).0
                      (All-elim (IsSourced infile) s.w.front i v.buffer f) in
                  record {
                    buffer =
                        All-set (IsSourced infile) s.w.front i (set_timestamp p (now io s).0).1
                          v.buffer q;
                    sent = v.sent;
                    reading = v.reading;
                  })
        ]

  on_code :
      (c : Code) (t : Sender)
      → IsSending t
      → OnReturn IsSending (elim c [ done ↦ returns t | failed ↦ aborts ])
  on_code done t v = v
  on_code failed t v = tt

  resize_window-IsSending :
      (s : Sender) (resp : Pkt) → IsSending s → OnReturn IsSending (resize_window s resp)
  unfolding resize_window
  resize_window-IsSending s resp v =
      let swin = Window.get_max_size s.w in
      let rwin = get_window resp in
      let n : ℕ = if ltb swin rwin then swin else rwin in
      let f = resize-front s.w n in
      on_code (Window.resize s.w n).0 _ (record {
        buffer = subst (All (IsSourced infile)) (sym f) v.buffer;
        sent = v.sent;
        reading = v.reading;
      })

  handle_response-IsSending :
      (io : Answers) (s : Sender) (resp : Pkt)
      → IsSending s
      → OnReturn (λ r. IsSending r.0) (handle_response io s resp)
  unfolding handle_response
  handle_response-IsSending io s resp v =
      OnReturn-if (λ r. IsSending r.0) (get_type resp == ptype_data) _ _ (λ h. v)
        λ h.
          OnReturn-bind IsSending (λ r. IsSending r.0)
            (if get_type resp == ptype_ack then handle_ack s resp else handle_nack io s resp) _
            (OnReturn-if IsSending (get_type resp == ptype_ack) _ _
              (λ h. handle_ack-IsSending s resp v) (λ h. handle_nack-IsSending io s resp v))
            λ t x.
              OnReturn-bind IsSending (λ r. IsSending r.0) (resize_window t resp) _
                (resize_window-IsSending t resp x) λ u y. y

  -- Whatever bytes are received.
  pub receive-IsSending :
      (io : Answers) (s : Sender) → IsSending s → OnReturn (λ r. IsSending r.0) (receive crc32 io s)
  unfolding receive
  receive-IsSending io s v =
      OnReturn-if (λ r. IsSending r.0) (not io.ready) _ _ (λ h. v)
        λ h.
          OnReturn-after (λ r. IsSending r.0) (or_exit io.received) _
            λ bytes.
              OnReturn-after (λ r. IsSending r.0) (or_exit (pkt_new io.packet_allocated)) _
                λ resp.
                  let d = decode crc32 (some bytes) (length bytes) resp in
                  OnReturn-status (λ r. IsSending r.0) d (handle_response io s) (returns (s, true))
                    (λ e. handle_response-IsSending io s d.1 v) v
