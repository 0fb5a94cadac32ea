-- ===== src/Window/Invariant.antt =====
-- The invariant of the window of src/window.c, and the calls that change a window.
use lossless_transport.Common.{
  ℕ, ◌+◌, ◌^◌, ◌<◌, ◌≤◌, ◌≡◌, refl, ◌∙◌, inl, inr, Bool, Option, none, some, List, [], ◌∷◌, arith,
  get_elem?, length-set, Option-cases,
}
use lossless_transport.Packet.{Pkt, set_timestamp}
use lossless_transport.Window.{
  Window, create, slide, slide_to, resize, push, full, pop_node, pop_timestamp, match_timestamp,
  find_min_timestamp, find_min_seqnum, pop_min_timestamp, pop_min_seqnum, update_timestamp,
}
use lossless_transport.Window.Range.{IsRange, slide-IsRange}
use lossless_transport.Window.Buffer.{
  IsValid, update_timestamp_lem, pop_node-some, pop_node-none, without, without-IsValid,
}

-- The invariant of the buffer, and a range that fits the circle of sequence numbers.
pub record IsSound (w : Window) : Type 0 where
  pub buffer : IsValid w
  pub small : w.max_seqnum < 2 ^ 63
  pub pos_in : w.pos ≤ w.max_seqnum
  pub circle : w.capacity ≤ w.max_seqnum + 1

pub IsSound-IsRange : {w : Window} → IsSound w → IsRange w
IsSound-IsRange v = omega arith

-- The calls that change a window.
pub data Op : Type 0 where
  slides : Op
  slides_to resizes : ℕ → Op
  pushes : Pkt → Bool → Op
  updates : ℕ → ℕ → Op
  pops_timestamp : ℕ → Op
  pops_min_timestamp pops_min_seqnum : Op

-- `none` is a failed assertion.
unfoldable pub step : Window → Op → Option Window
step w slides = some (slide w)
step w (slides_to n) = slide_to w n
step w (resizes n) = some (resize w n).1
step w (pushes p b) = some (push w p b).1
step w (updates old new) = some (update_timestamp w old new).1
step w (pops_timestamp t) = some (pop_timestamp w t).1
step w pops_min_timestamp = some (pop_min_timestamp w).1
step w pops_min_seqnum = some (pop_min_seqnum w).1

-- Nothing changes the capacity or the circle.
pub record SameShape (w u : Window) : Type 0 where
  pub capacity : u.capacity ≡ w.capacity
  pub max_seqnum : u.max_seqnum ≡ w.max_seqnum

pub pop_node-Sound :
    (w : Window) (i : ℕ) → IsSound w → IsSound (pop_node w i).1 × SameShape w (pop_node w i).1
pop_node-Sound w i v = elim (Option-cases (get_elem? w.front i)) [
  | inl e ↦ rw (pop_node-none w i e) (v, record { capacity = refl; max_seqnum = refl })
  | inr (p, e) ↦
      let b = without-IsValid w i v.buffer e in rw (pop_node-some w i v.buffer e) (omega arith)
]

-- Every call that does not fail an assertion keeps a sound window sound, and leaves its capacity and
-- the number of sequence numbers as they were.
pub step-IsSound :
    (w : Window) (o : Op) {u : Window} → IsSound w → step w o ≡ some u → IsSound u × SameShape w u
unfolding step slide slide_to resize push full pop_timestamp pop_min_timestamp pop_min_seqnum
step-IsSound w slides v e = let r = slide-IsRange (IsSound-IsRange v) in ground (arith, r)
step-IsSound w (slides_to n) v e = ground arith
step-IsSound w (resizes n) v e = ground arith
step-IsSound w (pushes p b) v e = ground arith
step-IsSound w (updates old new) v e = elim (update_timestamp_lem w old new) [
  | inl (a, f) ↦ ground (arith, f)
  | inr (i, p, a, f) ↦ ground (arith, f, length-set w.front i (set_timestamp p new).1)
]
step-IsSound w (pops_timestamp t) v e = ground (arith, pop_node-Sound w (match_timestamp w t) v)
step-IsSound w pops_min_timestamp v e = ground (arith, pop_node-Sound w (find_min_timestamp w) v)
step-IsSound w pops_min_seqnum v e = ground (arith, pop_node-Sound w (find_min_seqnum w) v)

-- A new window is sound.
pub create-IsSound :
    (size max_size max_seqnum : ℕ) (allocated : Bool) {w : Window}
    → max_seqnum + 1 < 2 ^ 63
    → max_size ≤ max_seqnum + 1
    → create size max_size max_seqnum allocated ≡ some w
    → IsSound w
unfolding create
create-IsSound size max_size max_seqnum allocated s c e = ground arith

-- The calls in order; an assertion that fails ends the program.
unfoldable pub run : Window → List Op → Option Window
run w [] = some w
run w (o ∷ os) = elim (step w o) [ none ↦ none | some u ↦ run u os ]

run-IsSound :
    (w : Window) (os : List Op) {u : Window}
    → IsSound w
    → run w os ≡ some u
    → IsSound u × SameShape w u
unfolding run
run-IsSound w [] v e = ground arith
run-IsSound w (o ∷ os) {u} v e = elim (Option-cases (step w o)) [
  | inl f ↦ ground (arith, f)
  | inr (x, f) ↦
      let (y, a) = step-IsSound w o v f in
      let (z, b) = run-IsSound x os y (rw (f, run) at e) in
      (z, record { capacity = b.capacity ∙ a.capacity; max_seqnum = b.max_seqnum ∙ a.max_seqnum })
]

-- Every window that a program can reach from `window_create` by the calls that change a window is
-- sound, if the sequence numbers fit 63 bits and the capacity is at most their number: the count of
-- its nodes is right, the buffer and the size are within the capacity, the start is a sequence number.
-- It has the capacity and the sequence numbers that it was created with.
pub reached-IsSound :
    (size max_size max_seqnum : ℕ) (allocated : Bool) (os : List Op) {w u : Window}
    → max_seqnum + 1 < 2 ^ 63
    → max_size ≤ max_seqnum + 1
    → create size max_size max_seqnum allocated ≡ some w
    → run w os ≡ some u
    → IsSound u × SameShape w u
reached-IsSound size max_size max_seqnum allocated os {w} {u} h k e f =
    run-IsSound w os (create-IsSound size max_size max_seqnum allocated h k e) f

pub slide-IsSound : {w : Window} → IsSound w → IsSound (slide w)
unfolding slide
slide-IsSound {w} v = let r = slide-IsRange (IsSound-IsRange v) in ground (arith, r)

pub without-IsSound :
    (w : Window) (i : ℕ) {p : Pkt}
    → IsSound w
    → get_elem? w.front i ≡ some p
    → IsSound (without w i)
without-IsSound w i v e = let b = without-IsValid w i v.buffer e in omega arith
