-- ===== src/Window/Range.antt =====
-- The range of sequence numbers of src/window.c.
use lossless_transport.Common.{
  ℕ, ◌+◌, ◌-◌, ◌%◌, ◌^◌, ◌<◌, ◌≤◌, ◌≡◌, ◌↔◌, ◌⊎◌, sym, ap, ◌∙◌, inl, inr, true, ltb, arith, dec_lt,
  lt→ltb, ltb→lt, add_size, sub_size,
}
use native.Mathlib.Nat.{mod-eq_of_lt, mod-eq-sub-mod, mod-add-mod}
use lossless_transport.Window.{Window, start, end, slide, has}

-- The sequence numbers go round below `2 ^ 63`, so no sum of two of them wraps, and the window is
-- not larger than the circle.
pub record IsRange (w : Window) : Type 0 where
  pub small : w.max_seqnum < 2 ^ 63
  pub pos_in : w.pos ≤ w.max_seqnum
  pub size_in : w.size ≤ w.max_seqnum + 1

-- The number of sequence numbers, and the one `k` places after the start.
abbrev pub modulus : Window → ℕ
modulus w = w.max_seqnum + 1

abbrev pub nth : Window → ℕ → ℕ
nth w k = (w.pos + k) % modulus w

-- How far `seqnum` is after the start.
abbrev pub offset : Window → ℕ → ℕ
offset w seqnum = (seqnum + modulus w - w.pos) % modulus w

pub end-nth : {w : Window} → IsRange w → 0 < w.size → end w ≡ nth w (w.size - 1)
unfolding end
end-nth {w} v h =
    let e : add_size w.pos (sub_size w.size 1) ≡ w.pos + (w.size - 1) = omega arith in
    let f : add_size w.max_seqnum 1 ≡ w.max_seqnum + 1 = omega arith in rw (e, f)

-- `a % m` below `2 * m`
mod_below : (a m : ℕ) → a < m → a % m ≡ a
mod_below a m h = mod-eq_of_lt h

mod_above : (a m : ℕ) → m ≤ a → a < m + m → a % m ≡ a - m
mod_above a m h k =
    mod-eq-sub-mod {n = a} {m = m} h ∙ mod-eq_of_lt {n = a - m} {m = m} (omega arith)

end-cases :
    (w : Window)
    → IsRange w
    → 0 < w.size
    → ((w.pos + w.size ≤ modulus w) × (end w ≡ w.pos + w.size - 1))
      ⊎ ((modulus w < w.pos + w.size) × (end w ≡ w.pos + w.size - 1 - modulus w))
end-cases w v h = elim (dec_lt (modulus w) (w.pos + w.size)) [
  | yes k ↦ inr (
    k,
    end-nth v h
        ∙ mod_above (w.pos + (w.size - 1)) (modulus w) (omega arith) (omega arith)
        ∙ omega arith,
  )
  | no k ↦ inl (
    omega arith,
    end-nth v h ∙ mod_below (w.pos + (w.size - 1)) (modulus w) (omega arith) ∙ omega arith,
  )
]

offset-cases :
    (w : Window) (s : ℕ)
    → IsRange w
    → s ≤ w.max_seqnum
    → ((w.pos ≤ s) × (offset w s ≡ s - w.pos))
      ⊎ ((s < w.pos) × (offset w s ≡ s + modulus w - w.pos))
offset-cases w s v h = elim (dec_lt s w.pos) [
  | yes k ↦ inr (k, mod_below (s + modulus w - w.pos) (modulus w) (omega arith))
  | no k ↦ inl (
    omega arith,
    mod_above (s + modulus w - w.pos) (modulus w) (omega arith) (omega arith) ∙ omega arith,
  )
]

-- `window_has` tells whether the distance from the start is less than the size.
pub has-offset :
    (w : Window) (s : ℕ) → IsRange w → s ≤ w.max_seqnum → has w s ≡ ltb (offset w s) w.size
unfolding has start
has-offset w s v h = elim (dec_lt 0 w.size) [
  | yes k ↦ ground (arith, end-cases w v k, offset-cases w s v h)
  | no k ↦ ground arith
]

nth-le : (w : Window) (k : ℕ) → nth w k ≤ w.max_seqnum
nth-le w k = omega arith

nth-cases :
    (w : Window) (k : ℕ)
    → IsRange w
    → k < modulus w
    → ((w.pos + k < modulus w) × (nth w k ≡ w.pos + k))
      ⊎ ((modulus w ≤ w.pos + k) × (nth w k ≡ w.pos + k - modulus w))
nth-cases w k v h = elim (dec_lt (w.pos + k) (modulus w)) [
  | yes l ↦ inl (l, mod_below (w.pos + k) (modulus w) l)
  | no l ↦ inr (omega arith, mod_above (w.pos + k) (modulus w) (omega arith) (omega arith))
]

-- `nth` and `offset` are inverse.
pub offset-nth : (w : Window) (k : ℕ) → IsRange w → k < modulus w → offset w (nth w k) ≡ k
offset-nth w k v h = omega (arith, nth-cases w k v h, offset-cases w (nth w k) v (nth-le w k))

pub nth-offset : (w : Window) (s : ℕ) → IsRange w → s ≤ w.max_seqnum → nth w (offset w s) ≡ s
nth-offset w s v h = elim (offset-cases w s v h) [
  | inl (k, e) ↦ rw e (mod_below (w.pos + (s - w.pos)) (modulus w) (omega arith) ∙ omega arith)
  | inr (k, e) ↦ rw e (
      mod_above (w.pos + (s + modulus w - w.pos)) (modulus w) (omega arith) (omega arith)
      ∙ omega arith)
]

-- `window_has` holds of a sequence number exactly if it is one of the `size` numbers from the
-- start, counted round the circle; the window is not larger than the circle, and the circle has
-- fewer than 2 ^ 63 numbers.
pub has-nth :
    (w : Window) (s : ℕ)
    → IsRange w
    → s ≤ w.max_seqnum
    → (has w s ≡ true) ↔ ((k : ℕ) × (k < w.size) × (nth w k ≡ s))
has-nth w s v h = rw (has-offset w s v h) (
  (λ t. (offset w s, ltb→lt (offset w s) w.size t, nth-offset w s v h)),
  (λ (k, l, e). rw (← e, offset-nth w k v (omega arith)) (lt→ltb k w.size l)),
)

-- window_slide moves by one
pub slide-nth : (w : Window) (k : ℕ) → IsRange w → nth (slide w) k ≡ nth w (k + 1)
unfolding slide
slide-nth w k v =
    let e : (w.pos + 1) % 2 ^ 64 ≡ w.pos + 1 = omega arith in
    let f : modulus w % 2 ^ 64 ≡ modulus w = omega arith in
    rw (e, f)
      (mod-add-mod (w.pos + 1) (modulus w) k
        ∙ ap (λ (n : ℕ). n % modulus w)
            (let g : w.pos + 1 + k ≡ w.pos + (k + 1) = omega arith in g))

pub slide-IsRange : {w : Window} → IsRange w → IsRange (slide w)
unfolding slide
slide-IsRange {w} v =
    let e : (w.pos + 1) % 2 ^ 64 ≡ w.pos + 1 = omega arith in
    let f : modulus w % 2 ^ 64 ≡ modulus w = omega arith in
    record { small = v.small; pos_in = rw (e, f) (omega arith); size_in = v.size_in }

-- Sliding shifts the range by one: the numbers held afterwards are those from the second place of
-- the old range to the place just after its end.
pub slide-has :
    (w : Window) (s : ℕ)
    → IsRange w
    → s ≤ w.max_seqnum
    → (has (slide w) s ≡ true) ↔ ((k : ℕ) × (0 < k) × (k ≤ w.size) × (nth w k ≡ s))
unfolding slide
slide-has w s v h =
    let (to, from) = has-nth (slide w) s (slide-IsRange v) h in
    (
      (λ t. let (k, l, e) = to t in (k + 1, omega arith, omega arith, sym (slide-nth w k v) ∙ e)),
      (λ (k, z, l, e).
          let g : k - 1 + 1 ≡ k = omega arith in
          from (k - 1, omega arith, slide-nth w (k - 1) v ∙ ap (nth w) g ∙ e)),
    )

pub slide-pos : {w : Window} → IsRange w → (slide w).pos ≡ (w.pos + 1) % modulus w
unfolding slide
slide-pos {w} v =
    let e : (w.pos + 1) % 2 ^ 64 ≡ w.pos + 1 = omega arith in
    let f : modulus w % 2 ^ 64 ≡ modulus w = omega arith in rw (e, f)
