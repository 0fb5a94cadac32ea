-- ===== src/Sender/Ack.antt =====
-- `handle_ack` of src/sender.c.
use lossless_transport.Common.{
  length-zero, ℕ, zero, suc, ◌<◌, ◌≤◌, ◌≡◌, ◌==◌, refl, ap, subst, ◌∙◌, Bool, true, false, ◌||◌,
  Option, none, some, List, [], ◌∷◌, ◌++◌, if◌then◌else◌, length, get_elem?, returns, arith, dec_lt,
  lt→ltb, le→ltb, length-erase_at,
}
use mathlib.Core.List.{Perm}
use mathlib.Core.List.Perm
use lossless_transport.Packet.{Pkt, get_seqnum, get_timestamp}
use lossless_transport.Window
use lossless_transport.Window.{
  Window, done, failed, peek_min_seqnum, pop_min_seqnum, find_min_seqnum,
}
use lossless_transport.Window.Buffer.{
  IsValid, without, without-IsValid, pop_min_seqnum_lem, get-lt-length,
}
use lossless_transport.Sender.{Sender, pop_acked, handle_ack}

-- Every packet of the list satisfies the predicate.
abbrev pub All : (Pkt → Type 0) → List Pkt → Type 0
All P [] = Unit {0}
All P (p ∷ ps) = P p × All P ps

-- Whether some packet has the timestamp.
abbrev pub any_time : ℕ → List Pkt → Bool
any_time time [] = false
any_time time (p ∷ ps) = (get_timestamp p == time) || any_time time ps

pub All-intro :
    (P : Pkt → Type 0) (ps : List Pkt)
    → ((j : ℕ) (q : Pkt) → get_elem? ps j ≡ some q → P q)
    → All P ps
All-intro P [] h = tt
All-intro P (p ∷ ps) h = (h 0 p refl, All-intro P ps (λ j. h (suc j)))

pub All-elim :
    (P : Pkt → Type 0) (ps : List Pkt) (j : ℕ) {q : Pkt} → All P ps → get_elem? ps j ≡ some q → P q
All-elim P [] j {q} a e = cc
All-elim P (p ∷ ps) zero {q} a e = let f : p ≡ q = ground arith in subst P f a.0
All-elim P (p ∷ ps) (suc j) {q} a e = All-elim P ps j a.1 e

-- What the loop of `handle_ack` has done when it ends with the window `w'`.
pub record Acked (acked time : ℕ) (w : Window) (popped : Bool) (w' : Window) (popped' : Bool)
    : Type 0 where
  pub removed : List Pkt
  pub covered : All (λ p. get_seqnum p < acked) removed
  pub kept : All (λ p. acked ≤ get_seqnum p) w'.front
  pub split : Perm w.front (removed ++ w'.front)
  pub noted : popped' ≡ (popped || any_time time removed)
  pub valid : IsValid w'
  pub max_seqnum : w'.max_seqnum ≡ w.max_seqnum
  pub capacity : w'.capacity ≡ w.capacity
  pub size : w'.size ≡ w.size
  pub pos : w'.pos ≡ w.pos

Acked-nil :
    (acked time : ℕ) (w : Window) (popped : Bool)
    → IsValid w
    → All (λ p. acked ≤ get_seqnum p) w.front
    → Acked acked time w popped w popped
Acked-nil acked time w popped v k = record {
  removed = [];
  covered = tt;
  kept = k;
  split = Perm.rfl;
  noted = ground arith;
  valid = v;
  max_seqnum = refl;
  capacity = refl;
  size = refl;
  pos = refl;
}

Acked-cons :
    (acked time : ℕ) (w : Window) (i : ℕ) (p : Pkt) (popped : Bool) (w' : Window) (popped' : Bool)
    → get_seqnum p < acked
    → Perm w.front (p ∷ (without w i).front)
    → Acked acked time (without w i) (popped || get_timestamp p == time) w' popped'
    → Acked acked time w popped w' popped'
Acked-cons acked time w i p popped w' popped' l s a = record {
  removed = p ∷ a.removed;
  covered = (l, a.covered);
  kept = a.kept;
  split = Perm.trans s (Perm.cons p a.split);
  noted = a.noted ∙ ground arith;
  valid = a.valid;
  max_seqnum = a.max_seqnum;
  capacity = a.capacity;
  size = a.size;
  pos = a.pos;
}

peek-nil : (w : Window) → w.front ≡ [] → peek_min_seqnum w ≡ none
unfolding peek_min_seqnum
peek-nil w e = rw e

-- One test of the loop.
pub pop_acked-none :
    (fuel acked time : ℕ) (w : Window) (popped : Bool)
    → peek_min_seqnum w ≡ none
    → pop_acked (suc fuel) acked time w popped ≡ returns (w, popped)
unfolding pop_acked
pop_acked-none fuel acked time w popped e = rw (e, pop_acked)

pub pop_acked_stop :
    (fuel acked time : ℕ) (w : Window) (popped : Bool) {p : Pkt}
    → peek_min_seqnum w ≡ some p
    → acked ≤ get_seqnum p
    → pop_acked (suc fuel) acked time w popped ≡ returns (w, popped)
unfolding pop_acked
pop_acked_stop fuel acked time w popped {p} e l =
    rw (e, pop_acked) (rw (le→ltb (get_seqnum p) acked l))

pub pop_acked_go :
    (fuel acked time : ℕ) (w u : Window) (popped : Bool) {p : Pkt}
    → peek_min_seqnum w ≡ some p
    → (pop_min_seqnum w).1 ≡ u
    → get_seqnum p < acked
    → pop_acked (suc fuel) acked time w popped
      ≡ pop_acked fuel acked time u (popped || get_timestamp p == time)
unfolding pop_acked
pop_acked_go fuel acked time w u popped {p} e f l =
    let same : (find_min_seqnum w == find_min_seqnum w) ≡ true = ground arith in
    rw (e, pop_acked) (rw (lt→ltb (get_seqnum p) acked l, same, f))

-- With more fuel than packets the loop ends, and has removed just the packets whose number is less
-- than the one acknowledged.
pub pop_acked-Acked :
    (fuel acked time : ℕ) (w : Window) (popped : Bool)
    → IsValid w
    → length w.front < fuel
    → (w' : Window) × (popped' : Bool) × (pop_acked fuel acked time w popped
        ≡ returns (w', popped'))
      × Acked acked time w popped w' popped'
pop_acked-Acked zero acked time w popped v h = absurd (omega arith)
pop_acked-Acked (suc fuel) acked time w popped v h = elim (dec_lt 0 w.bufsize) [
  | no z ↦
      let e = length-zero w.front (omega arith) in
      (
        w,
        popped,
        pop_acked-none fuel acked time w popped (peek-nil w e),
        Acked-nil acked time w popped v (rw e tt),
      )
  | yes z ↦
      let (p, l, peeks, pops, perm) = pop_min_seqnum_lem w v z in
      elim (dec_lt (get_seqnum p) acked) [
        | no k ↦ (
          w,
          popped,
          pop_acked_stop fuel acked time w popped peeks (omega arith),
          Acked-nil acked time w popped v (
              All-intro (λ q. acked ≤ get_seqnum q) w.front
                (λ j q e. omega (arith, l.least j q e))),
        )
        | yes k ↦
            let i = find_min_seqnum w in
            let u = without w i in
            let n = length-erase_at w.front i (get-lt-length w.front i l.here) in
            let (w', popped', e, a) =
              pop_acked-Acked fuel acked time u (popped || get_timestamp p == time)
                (without-IsValid w i v l.here) (omega (arith, n)) in
            (
              w',
              popped',
              pop_acked_go fuel acked time w u popped peeks
                    (ap (λ (r : Option Pkt × Window). r.1) pops) k
                  ∙ e,
              Acked-cons acked time w i p popped w' popped' k (rw pops at perm) a,
            )
      ]
]

-- The window that `handle_ack` leaves after its loop: the packet with the timestamp of the ACK goes
-- too, unless the loop has met it.
abbrev pub acknowledged : Window → Bool → Pkt → Window
acknowledged w popped ack =
    let u = record w { pos = get_seqnum ack } in
    if popped then u else (Window.pop_timestamp u (get_timestamp ack)).1

-- `handle_ack` always ends, with no assertion failed, if the number acknowledged is a sequence
-- number; its loop removes just the packets with smaller numbers, and the window then starts at
-- the number.
pub handle_ack_lem :
    (s : Sender) (ack : Pkt)
    → IsValid s.w
    → get_seqnum ack ≤ s.w.max_seqnum
    → (w' : Window) × (popped : Bool) × Acked
        (get_seqnum ack)
        (get_timestamp ack)
        s.w
        false
        w'
        popped
      × (handle_ack s ack ≡ returns (record s { w = acknowledged w' popped ack }))
unfolding handle_ack Window.slide_to
handle_ack_lem s ack v h =
    let (w', popped, e, a) =
      pop_acked-Acked (suc (length s.w.front)) (get_seqnum ack) (get_timestamp ack) s.w false v
        (omega arith) in
    let l : get_seqnum ack ≤ w'.max_seqnum = omega (arith, a.max_seqnum) in
    (w', popped, a, rw e (ground (arith, l)))
