-- ===== src/Receiver/Deliver.antt =====
-- The loop of src/receiver.c that writes the packets which are in sequence.
use lossless_transport.Common.{
  ℕ, zero, suc, ◌+◌, ◌%◌, ◌<◌, ◌≡◌, ◌==◌, refl, sym, subst, ◌∙◌, inl, inr, true, some, List, [],
  ◌∷◌, ◌++◌, if◌then◌else◌, length, get_elem?, erase_at, returns, arith, length-erase_at,
  Bool-cases, append_assoc, append-nil, ==_refl,
}
use mathlib.Core.List.{Perm}
use mathlib.Core.List.Perm
use lossless_transport.Packet.{Pkt, get_seqnum, get_timestamp, get_length}
use lossless_transport.Window
use lossless_transport.Window.{Window, slide, start, match_from}
use lossless_transport.Window.Search.{IsAbsent, match_from-First}
use lossless_transport.Window.Range.{modulus, slide-pos}
use lossless_transport.Window.Invariant.{IsSound, IsSound-IsRange, slide-IsSound, without-IsSound}
use lossless_transport.Window.Buffer.{
  without, find_seqnum_lem, pop_node-some, erase_at-perm, get-lt-length,
}
use lossless_transport.Receiver.Distinct.{IsDistinct, IsDistinct-erase}
use lossless_transport.Receiver.{Receiver, Answers, deliver, deliver_all, written_bytes}

-- No two packets of the buffer have the same timestamp.
abbrev pub DistinctTimes : List Pkt → Type 0
DistinctTimes = IsDistinct get_timestamp

match-position :
    (w : Window) (i : ℕ) (p : Pkt)
    → DistinctTimes w.front
    → get_elem? w.front i ≡ some p
    → Window.match_timestamp w (get_timestamp p) ≡ i
unfolding Window.match_timestamp
match-position w i p d e = elim (match_from-First (get_timestamp p) w.front 0 0) [
  | inl (a, f) ↦ absurd (a.absent i p e refl)
  | inr (j, q, f, g) ↦ omega (arith, g, d.one j i q p f.here e f.matches)
]

-- The window after one packet.
abbrev pub after_packet : Window → ℕ → Pkt → Window
after_packet w i p = if get_length p == 0 then without w i else slide (without w i)

pub deliver_lem :
    (io : Answers) (r : Receiver) (i : ℕ) (p : Pkt)
    → IsSound r.w
    → DistinctTimes r.w.front
    → io.written ≡ true
    → get_elem? r.w.front i ≡ some p
    → deliver io r i p
      ≡ returns (record { w = after_packet r.w i p; out = r.out ++ written_bytes p })
unfolding deliver Window.pop_timestamp
deliver_lem io r i p v d k e =
    rw (k, match-position r.w i p d e, pop_node-some r.w i v.buffer e, ==_refl i)

-- The start of the window after a packet was written.
abbrev pub advance : ℕ → ℕ → Pkt → ℕ
advance m pos p = if get_length p == 0 then pos else (pos + 1) % m

-- The packets follow one another: each has the number at which the window starts when it is written,
-- from `pos` to `pos'`.
abbrev pub Follows : ℕ → ℕ → List Pkt → ℕ → Type 0
Follows m pos [] pos' = pos ≡ pos'
Follows m pos (p ∷ ps) pos' = (get_seqnum p ≡ pos) × Follows m (advance m pos p) ps pos'

abbrev pub payloads : List Pkt → List ℕ
payloads [] = []
payloads (p ∷ ps) = written_bytes p ++ payloads ps

-- What the loop has done when it ends.
pub record Delivered (r r' : Receiver) : Type 0 where
  pub packets : List Pkt
  pub in_sequence : Follows (modulus r.w) r.w.pos packets r'.w.pos
  pub file : r'.out ≡ r.out ++ payloads packets
  pub split : Perm r.w.front (packets ++ r'.w.front)
  pub exhausted : IsAbsent get_seqnum r'.w.pos r'.w.front
  pub sound : IsSound r'.w
  pub capacity : r'.w.capacity ≡ r.w.capacity
  pub max_seqnum : r'.w.max_seqnum ≡ r.w.max_seqnum
  pub size : r'.w.size ≡ r.w.size

record Kept (w : Window) (i : ℕ) (p : Pkt) (u : Window) : Type 0 where
  front : u.front ≡ erase_at w.front i
  pos : u.pos ≡ advance (modulus w) w.pos p
  sound : IsSound u
  capacity : u.capacity ≡ w.capacity
  max_seqnum : u.max_seqnum ≡ w.max_seqnum
  size : u.size ≡ w.size

after_packet-Kept :
    (w : Window) (i : ℕ) (p : Pkt)
    → IsSound w
    → get_elem? w.front i ≡ some p
    → Kept w i p (after_packet w i p)
after_packet-Kept w i p v e =
    let x = without-IsSound w i v e in
    elim (Bool-cases (get_length p == 0)) [
      | inl b ↦ rw b (record {
        front = refl;
        pos = rw b;
        sound = x;
        capacity = refl;
        max_seqnum = refl;
        size = refl;
      })
      | inr b ↦ rw b (
          unfold slide in
          record {
            front = refl;
            pos = slide-pos (IsSound-IsRange x) ∙ rw b;
            sound = slide-IsSound x;
            capacity = refl;
            max_seqnum = refl;
            size = refl;
          })
    ]

pub deliver_all_go :
    (fuel : ℕ) (io : Answers) (r r' : Receiver) (i : ℕ) (p : Pkt)
    → Window.find_seqnum r.w (start r.w) ≡ some i
    → get_elem? r.w.front i ≡ some p
    → deliver io r i p ≡ returns r'
    → deliver_all (suc fuel) io r ≡ deliver_all fuel io r'
unfolding deliver_all
deliver_all_go fuel io r r' i p e f g = rw (e, deliver_all) (rw f (rw g refl))

Delivered-cons :
    (r : Receiver) (i : ℕ) (p : Pkt) (u : Window) (r' : Receiver)
    → get_elem? r.w.front i ≡ some p
    → get_seqnum p ≡ r.w.pos
    → Kept r.w i p u
    → Delivered (record { w = u; out = r.out ++ written_bytes p }) r'
    → Delivered r r'
Delivered-cons r i p u r' e s k d = record {
  packets = p ∷ d.packets;
  in_sequence = (
    s,
    subst (λ n. Follows (n + 1) (advance (modulus r.w) r.w.pos p) d.packets r'.w.pos) k.max_seqnum
        (subst (λ n. Follows (modulus u) n d.packets r'.w.pos) k.pos d.in_sequence),
  );
  file = d.file ∙ append_assoc r.out (written_bytes p) (payloads d.packets);
  split =
      Perm.trans (erase_at-perm r.w.front i e)
        (Perm.cons p (subst (λ xs. Perm xs (d.packets ++ r'.w.front)) k.front d.split));
  exhausted = d.exhausted;
  sound = d.sound;
  capacity = d.capacity ∙ k.capacity;
  max_seqnum = d.max_seqnum ∙ k.max_seqnum;
  size = d.size ∙ k.size;
}

start-pos : (w : Window) → start w ≡ w.pos
unfolding start
start-pos w = refl

Delivered-nil : (r : Receiver) → IsSound r.w → IsAbsent get_seqnum r.w.pos r.w.front → Delivered r r
Delivered-nil r v a = record {
  packets = [];
  in_sequence = refl;
  file = sym (append-nil r.out);
  split = Perm.rfl;
  exhausted = a;
  sound = v;
  capacity = refl;
  max_seqnum = refl;
  size = refl;
}

-- With more fuel than packets the receiver's loop ends, if no write fails and no two packets in
-- the buffer have the same timestamp. It has written the payloads of packets in sequence from the
-- start of the window, removed just those, and left the window, which stays sound, at a number
-- that is not in the buffer.
pub deliver_all-Delivered :
    (fuel : ℕ) (io : Answers) (r : Receiver)
    → IsSound r.w
    → DistinctTimes r.w.front
    → io.written ≡ true
    → length r.w.front < fuel
    → (r' : Receiver) × (deliver_all fuel io r ≡ returns r') × Delivered r r'
deliver_all-Delivered zero io r v d k h = absurd (omega arith)
deliver_all-Delivered (suc fuel) io r v d k h = elim (find_seqnum_lem r.w (start r.w)) [
  | inl (a, e) ↦ (
    r,
    unfold deliver_all in rw (e, deliver_all),
    Delivered-nil r v (subst (λ n. IsAbsent get_seqnum n r.w.front) (start-pos r.w) a),
  )
  | inr (i, p, f, e) ↦
      let u = after_packet r.w i p in
      let keeps = after_packet-Kept r.w i p v f.here in
      let t : Receiver = record { w = u; out = r.out ++ written_bytes p } in
      let n = length-erase_at r.w.front i (get-lt-length r.w.front i f.here) in
      let (r', g, del) =
        deliver_all-Delivered fuel io t keeps.sound
          (subst DistinctTimes (sym keeps.front) (IsDistinct-erase get_timestamp i d)) k
          (rw keeps.front (omega (arith, n))) in
      (
        r',
        deliver_all_go fuel io r t i p e f.here (deliver_lem io r i p v d k f.here) ∙ g,
        Delivered-cons r i p u r' f.here (f.matches ∙ start-pos r.w) keeps del,
      )
]
