-- ===== src/Window/Promises.antt =====
-- What src/window.h promises of the range and of the room in the buffer holds of src/window.c.
use lossless_transport.Common.{
  ℕ, ◌+◌, ◌-◌, ◌%◌, ◌^◌, ◌<◌, ◌≤◌, ◌≡◌, ◌↔◌, refl, sym, Bool, true, false, none, some, [], ◌∷◌,
  length, arith,
}
use mathlib.Core.List.{Perm}
use mathlib.Core.List.Perm
use lossless_transport.Packet.{Pkt}
use lossless_transport.Window
use lossless_transport.Window.{Window, Code, done, failed, find_min, pop_node}
use lossless_transport.Window.Range.{end-nth, modulus, has-nth, slide-pos}
use lossless_transport.Window.Buffer.{full-available}
use lossless_transport.Window.Invariant.{IsSound, IsSound-IsRange, create-IsSound}

pub has_range :
    (w : Window) (s : ℕ)
    → IsSound w
    → s < modulus w
    → (Window.has w s ≡ true)
      ↔ ((k : ℕ) × (k < Window.get_size w) × ((Window.start w + k) % modulus w ≡ s))
unfolding Window.start Window.get_size
has_range w s v h = has-nth w s (IsSound-IsRange v) (omega arith)

pub start_first :
    (w : Window) → IsSound w → 0 < Window.get_size w → Window.has w (Window.start w) ≡ true
unfolding Window.start Window.get_size
start_first w v h =
    (has_range w w.pos v (omega (arith, v.pos_in))).1
      (0, h, let e : (w.pos + 0) % modulus w ≡ w.pos = grind arith in e)

pub end_last :
    (w : Window)
    → IsSound w
    → 0 < Window.get_size w
    → (Window.has w (Window.end w) ≡ true)
      × (Window.end w ≡ (Window.start w + (Window.get_size w - 1)) % modulus w)
unfolding Window.start Window.get_size
end_last w v h =
    let e = end-nth (IsSound-IsRange v) h in
    let below : Window.end w < modulus w = rw e (grind arith) in
    ((has_range w (Window.end w) v below).1 (w.size - 1, omega (arith, h), sym e), e)

pub slide_unit :
    (w : Window)
    → IsSound w
    → (Window.start (Window.slide w) ≡ (Window.start w + 1) % modulus w)
      × (Window.get_size (Window.slide w) ≡ Window.get_size w)
      × ((Window.slide w).front ≡ w.front)
unfolding Window.start Window.get_size
slide_unit w v =
    (slide-pos (IsSound-IsRange v), unfold Window.slide in refl, unfold Window.slide in refl)

pub slide_to_position :
    (w : Window) (pos : ℕ)
    → pos < modulus w
    → (u : Window) × (Window.slide_to w pos ≡ some u) × (Window.start u ≡ pos) × (u.front ≡ w.front)
unfolding Window.slide_to Window.start
slide_to_position w pos h = (record w { pos = pos }, ground arith, refl, refl)

pub create_new :
    (size max_size max_seqnum : ℕ)
    → size ≤ max_size
    → max_seqnum + 1 < 2 ^ 63
    → max_size ≤ max_seqnum + 1
    → (w : Window) × (Window.create size max_size max_seqnum true ≡ some w)
      × IsSound w
      × (Window.get_size w ≡ size)
      × (Window.get_max_size w ≡ max_size)
      × (Window.start w ≡ 0)
      × (w.front ≡ [])
      × (modulus w ≡ max_seqnum + 1)
unfolding Window.create Window.get_size Window.get_max_size Window.start
create_new size max_size max_seqnum h k l =
    let w : Window = record {
      max_seqnum = max_seqnum;
      capacity = max_size;
      size = size;
      pos = 0;
      bufsize = 0;
      front = [];
    } in
    let e : Window.create size max_size max_seqnum true ≡ some w = ground arith in
    (w, e, create-IsSound size max_size max_seqnum true k l e, refl, refl, refl, refl, refl)

pub create_too_large :
    (size max_size max_seqnum : ℕ) (b : Bool)
    → max_size < size
    → Window.create size max_size max_seqnum b ≡ none
unfolding Window.create
create_too_large size max_size max_seqnum b h = ground arith

pub create_out_of_memory :
    (size max_size max_seqnum : ℕ) → Window.create size max_size max_seqnum false ≡ none
unfolding Window.create
create_out_of_memory size max_size max_seqnum = ground arith

pub resize_fits :
    (w : Window) (n : ℕ)
    → n ≤ Window.get_max_size w
    → ((Window.resize w n).0 ≡ done)
      × (Window.get_size (Window.resize w n).1 ≡ n)
      × ((Window.resize w n).1.front ≡ w.front)
unfolding Window.resize Window.get_size Window.get_max_size
resize_fits w n h = ground arith

pub resize_too_large :
    (w : Window) (n : ℕ) → Window.get_max_size w < n → Window.resize w n ≡ (failed, w)
unfolding Window.resize Window.get_max_size
resize_too_large w n h = ground arith

pub push_full :
    (w : Window) (p : Pkt) (b : Bool)
    → IsSound w
    → Window.full w ≡ true
    → Window.push w p b ≡ (failed, w)
unfolding Window.push
push_full w p b v h = rw h

pub push_out_of_memory : (w : Window) (p : Pkt) → IsSound w → Window.push w p false ≡ (failed, w)
unfolding Window.push
push_out_of_memory w p v = ground arith

pub push_new :
    (w : Window) (p : Pkt)
    → IsSound w
    → Window.full w ≡ false
    → ((Window.push w p true).0 ≡ done) × Perm (Window.push w p true).1.front (p ∷ w.front)
unfolding Window.push
push_new w p v h = rw h (refl, Perm.rfl)

pub available_slots :
    (w : Window)
    → IsSound w
    → length w.front ≤ Window.get_size w
    → Window.available w + length w.front ≡ Window.get_size w
unfolding Window.available Window.get_size
available_slots w v h = let b = v.buffer in ground arith

pub available_none :
    (w : Window) → IsSound w → Window.get_size w < length w.front → Window.available w ≡ 0
unfolding Window.available Window.get_size
available_none w v h = let b = v.buffer in ground arith

pub empty_reports : (w : Window) → IsSound w → (Window.empty w ≡ true) ↔ (length w.front ≡ 0)
unfolding Window.empty
empty_reports w v = let b = v.buffer in ground arith

pub full_reports : (w : Window) → IsSound w → (Window.full w ≡ true) ↔ (Window.available w ≡ 0)
full_reports w v = let e = full-available w v.buffer in ground arith
