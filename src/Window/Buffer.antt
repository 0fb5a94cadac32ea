-- ===== src/Window/Buffer.antt =====
-- The buffer operations of src/window.c: what is returned, what stays, and the invariant.
use lossless_transport.Common.{
  ℕ, zero, suc, ◌+◌, ◌-◌, ◌^◌, ◌<◌, ◌≤◌, ◌≡◌, ◌⊎◌, refl, ap, ◌∙◌, inl, inr, Bool, true, false, none,
  some, List, [], ◌∷◌, ◌==◌, arith, dec_lt, length, add_size, Bool-cases, sub_size, get_elem?,
  erase_at, set, List-cases, length-erase_at,
}
use mathlib.Core.List.{Perm}
use mathlib.Core.List.Perm
use lossless_transport.Packet.{Pkt, get_seqnum, get_timestamp, set_timestamp}
use lossless_transport.Window.{
  Window, done, failed, available, full, push, pop_node, pop_timestamp, match_timestamp, match_from,
  find_seqnum, find_min, find_min_timestamp, find_min_seqnum, peek_min_timestamp, peek_min_seqnum,
  pop_min_timestamp, pop_min_seqnum, update_timestamp,
}
use lossless_transport.Window.Search.{
  IsAbsent, IsFirst, match_from-First, update_from-First, find_from-First,
}
use lossless_transport.Window.Least.{IsLeast, find_min-Least_of_pos}

-- `bufsize` counts the nodes, and neither it nor the size exceeds the capacity.
pub record IsValid (w : Window) : Type 0 where
  pub small : w.capacity < 2 ^ 63
  pub size_in : w.size ≤ w.capacity
  pub counted : w.bufsize ≡ length w.front
  pub buffered : w.bufsize ≤ w.capacity

pub get-lt-length {ℓ} :
    {A : Type ℓ} (xs : List A) (i : ℕ) {x : A} → get_elem? xs i ≡ some x → i < length xs
get-lt-length [] i e = cc
get-lt-length (x ∷ xs) zero e = omega arith
get-lt-length (x ∷ xs) (suc i) e = omega (arith, get-lt-length xs i e)

pub erase_at-perm {ℓ} :
    {A : Type ℓ} (xs : List A) (i : ℕ) {x : A}
    → get_elem? xs i ≡ some x
    → Perm xs (x ∷ erase_at xs i)
erase_at-perm [] i e = cc
erase_at-perm (y ∷ xs) zero {x} e = Perm.cons' (ground arith) Perm.rfl
erase_at-perm (y ∷ xs) (suc i) {x} e =
    Perm.trans (Perm.cons y (erase_at-perm xs i e)) (Perm.swap x y _)

-- The window without the node at a position.
abbrev pub without : Window → ℕ → Window
without w i = record w { front = erase_at w.front i; bufsize = w.bufsize - 1 }

pub pop_node-some :
    (w : Window) (i : ℕ) {p : Pkt}
    → IsValid w
    → get_elem? w.front i ≡ some p
    → pop_node w i ≡ (some p, without w i)
unfolding pop_node
pop_node-some w i {p} v e =
    let l = get-lt-length w.front i e in
    let s : sub_size w.bufsize 1 ≡ w.bufsize - 1 = omega (arith, l) in rw (e, pop_node, s)

pub without-IsValid :
    (w : Window) (i : ℕ) {p : Pkt}
    → IsValid w
    → get_elem? w.front i ≡ some p
    → IsValid (without w i)
without-IsValid w i v e = omega (arith, get-lt-length w.front i e, length-erase_at w.front i)

pub pop_node-none : (w : Window) (i : ℕ) → get_elem? w.front i ≡ none → pop_node w i ≡ (none, w)
unfolding pop_node
pop_node-none w i e = rw (e, pop_node)

-- `window_pop_timestamp` removes and returns the first packet with the timestamp. If there is
-- none, it does not return NULL, but removes and returns the packet pushed last; only on an empty
-- buffer does it return NULL.
pub pop_timestamp-cases :
    (w : Window) (t : ℕ)
    → IsValid w
    → ((i : ℕ) × (p : Pkt) × IsFirst get_timestamp t w.front i p
        × (pop_timestamp w t ≡ (some p, without w i)))
      ⊎ (((p : Pkt) × (ps : List Pkt) × IsAbsent get_timestamp t w.front
            × (w.front ≡ p ∷ ps)
            × (pop_timestamp w t ≡ (some p, record w { front = ps; bufsize = w.bufsize - 1 })))
          ⊎ ((w.front ≡ []) × (pop_timestamp w t ≡ (none, w))))
unfolding pop_timestamp match_timestamp
pop_timestamp-cases w t v = elim (match_from-First t w.front 0 0) [
  | inl (a, e) ↦ rw e (
      inr (elim (List-cases w.front) [
        | inl n ↦ inr (n, pop_node-none w 0 (rw n))
        | inr (p, ps, n) ↦
            let pops = pop_node-some w 0 {p = p} v (rw n) in
            inl (
              p,
              ps,
              a,
              n,
              pops ∙ λ i. (some p, record w { front = erase_at (n i) 0; bufsize = w.bufsize - 1 }),
            )
      ]))
  | inr (i, p, f, e) ↦
      let g : match_from t w.front 0 0 ≡ i = omega (arith, e) in
      rw g (inl (i, p, f, pop_node-some w i v f.here))
]

pop_node-find_min :
    (key : Pkt → ℕ) (w : Window)
    → IsValid w
    → 0 < w.bufsize
    → (p : Pkt) × IsLeast key w.front (find_min key w.front) p
      × (get_elem? w.front (find_min key w.front) ≡ some p)
      × (pop_node w (find_min key w.front) ≡ (some p, without w (find_min key w.front)))
      × Perm w.front (p ∷ (pop_node w (find_min key w.front)).1.front)
pop_node-find_min key w v h =
    let i = find_min key w.front in
    let (p, l) = find_min-Least_of_pos key w.front (omega arith) in
    let pops = pop_node-some w i v l.here in
    (p, l, l.here, pops, rw pops (erase_at-perm w.front i l.here))

-- On a buffer that is not empty `window_pop_min_timestamp` removes and returns the packet that
-- `window_peek_min_timestamp` returns, the first of those with the least timestamp, and no other.
pub pop_min_timestamp_lem :
    (w : Window)
    → IsValid w
    → 0 < w.bufsize
    → (p : Pkt) × IsLeast get_timestamp w.front (find_min_timestamp w) p
      × (peek_min_timestamp w ≡ some p)
      × (pop_min_timestamp w ≡ (some p, without w (find_min_timestamp w)))
      × Perm w.front (p ∷ (pop_min_timestamp w).1.front)
unfolding peek_min_timestamp pop_min_timestamp find_min_timestamp
pop_min_timestamp_lem w v h = pop_node-find_min get_timestamp w v h

-- On a buffer that is not empty `window_pop_min_seqnum` removes and returns the packet that
-- `window_peek_min_seqnum` returns, the first of those with the least number, and no other.
pub pop_min_seqnum_lem :
    (w : Window)
    → IsValid w
    → 0 < w.bufsize
    → (p : Pkt) × IsLeast get_seqnum w.front (find_min_seqnum w) p
      × (peek_min_seqnum w ≡ some p)
      × (pop_min_seqnum w ≡ (some p, without w (find_min_seqnum w)))
      × Perm w.front (p ∷ (pop_min_seqnum w).1.front)
unfolding peek_min_seqnum pop_min_seqnum find_min_seqnum
pop_min_seqnum_lem w v h = pop_node-find_min get_seqnum w v h

-- `window_full` tells just whether `window_available` counts no free slot.
pub full-available : (w : Window) → IsValid w → full w ≡ (available w == 0)
unfolding full available
full-available w v = ground arith

-- `window_push` fails without effect if no slot is free or the node cannot be allocated;
-- otherwise it puts the packet first and takes one free slot.
pub push-cases :
    (w : Window) (p : Pkt) (allocated : Bool)
    → IsValid w
    → (((available w ≡ 0) ⊎ (allocated ≡ false)) × (push w p allocated ≡ (failed, w)))
      ⊎ ((0 < available w)
          × (allocated ≡ true)
          × (push w p allocated ≡ (done, record w { front = p ∷ w.front; bufsize = w.bufsize + 1 }))
          × (suc (available (push w p allocated).1) ≡ available w))
unfolding push full available
push-cases w p true v = elim (dec_lt 0 (available w)) [
  | yes h ↦ inr (h, refl, ground arith, ground arith)
  | no h ↦ inl (inl (omega arith), ground arith)
]
push-cases w p false v = inl (inr refl, ground arith)

-- `window_find_seqnum` returns the first packet with the number, and NULL exactly if there is
-- none.
pub find_seqnum_lem :
    (w : Window) (s : ℕ)
    → (IsAbsent get_seqnum s w.front × (find_seqnum w s ≡ none))
      ⊎ ((i : ℕ) × (p : Pkt) × IsFirst get_seqnum s w.front i p × (find_seqnum w s ≡ some i))
unfolding find_seqnum
find_seqnum_lem w s = elim (find_from-First s 0 w.front) [
  | inl (a, e) ↦ inl (a, e)
  | inr (i, p, f, e) ↦ inr (i, p, f, e ∙ ap some (let z : 0 + i ≡ i = omega arith in z))
]

-- `window_update_timestamp` gives the first packet with the old timestamp the new one and leaves
-- all else alone, or fails without effect if there is no such packet.
pub update_timestamp_lem :
    (w : Window) (old new : ℕ)
    → (IsAbsent get_timestamp old w.front × (update_timestamp w old new ≡ (failed, w)))
      ⊎ ((i : ℕ) × (p : Pkt) × IsFirst get_timestamp old w.front i p
          × (update_timestamp w old new
              ≡ (done, record w { front = set w.front i (set_timestamp p new).1 })))
unfolding update_timestamp
update_timestamp_lem w old new = elim (update_from-First old new w.front) [
  | inl (a, e) ↦ inl (a, rw (e, update_timestamp))
  | inr (i, p, f, e) ↦ inr (i, p, f, rw (e, update_timestamp))
]

-- The two ways in which `window_push` ends, for any window.
pub push-either :
    (w : Window) (p : Pkt) (allocated : Bool)
    → (push w p allocated ≡ (failed, w))
      ⊎ (push w p allocated
          ≡ (done, record w { front = p ∷ w.front; bufsize = add_size w.bufsize 1 }))
unfolding push
push-either w p allocated = elim (Bool-cases (full w)) [
  | inl f ↦ inl (rw f)
  | inr f ↦
      elim allocated
        as (λ b.
          (push w p b ≡ (failed, w))
          ⊎ (push w p b
              ≡ (done, record w { front = p ∷ w.front; bufsize = add_size w.bufsize 1 }))) [
                | true ↦ inr (rw f)
                | false ↦ inl (rw f)
              ]
]
