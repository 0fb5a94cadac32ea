-- ===== src/Window/Least.antt =====
-- `window_find_min_timestamp` and `window_find_min_seqnum` of src/window.c: the least packet.
use lossless_transport.Common.{
  ℕ, zero, suc, ◌+◌, ◌<◌, ◌≤◌, ◌≡◌, ◌⊎◌, refl, inl, inr, some, List, [], ◌∷◌, get_elem?, length,
  arith, dec_lt, lt→ltb, le→ltb,
}
use lossless_transport.Packet.{Pkt}
use lossless_transport.Window.{min_from, find_min}

module _ (key : Pkt → ℕ) where
  -- No packet has less than `n`.
  pub record IsBelow (n : ℕ) (ps : List Pkt) : Type 0 where
    pub below : (j : ℕ) (q : Pkt) → get_elem? ps j ≡ some q → n ≤ key q

  -- `p`, at position `i`, is the first of the packets that have the least value.
  pub record IsLeast (ps : List Pkt) (i : ℕ) (p : Pkt) : Type 0 where
    pub here : get_elem? ps i ≡ some p
    pub least : (j : ℕ) (q : Pkt) → get_elem? ps j ≡ some q → key p ≤ key q
    pub earlier : (j : ℕ) (q : Pkt) → j < i → get_elem? ps j ≡ some q → key p < key q

  below-cons :
      (n : ℕ) (p : Pkt) (ps : List Pkt)
      → n ≤ key p
      → IsBelow n ps
      → (j : ℕ) (q : Pkt) → get_elem? (p ∷ ps) j ≡ some q
      → n ≤ key q
  below-cons n p ps h b zero q e = ground arith
  below-cons n p ps h b (suc j) q e = b.below j q e

  earlier-cons :
      (p r : Pkt) (ps : List Pkt) (i : ℕ)
      → key r < key p
      → IsLeast ps i r
      → (j : ℕ) (q : Pkt) → j < suc i
      → get_elem? (p ∷ ps) j ≡ some q
      → key r < key q
  earlier-cons p r ps i h l zero q k e = ground arith
  earlier-cons p r ps i h l (suc j) q k e = l.earlier j q (omega arith) e

  IsLeast-head : (p : Pkt) (ps : List Pkt) → IsBelow (key p) ps → IsLeast (p ∷ ps) 0 p
  IsLeast-head p ps b = record {
    here = refl;
    least = below-cons (key p) p ps (omega arith) b;
    earlier = λ j q l. absurd (omega arith);
  }

  IsLeast-cons :
      (p r : Pkt) (ps : List Pkt) (i : ℕ)
      → key r < key p
      → IsLeast ps i r
      → IsLeast (p ∷ ps) (suc i) r
  IsLeast-cons p r ps i h l = record {
    here = l.here;
    least = below-cons (key r) p ps (omega arith) (record { below = l.least });
    earlier = earlier-cons p r ps i h l;
  }

  min_from-Least :
      (ps : List Pkt) (cur min least : ℕ)
      → (IsBelow least ps × (min_from key ps cur min least ≡ min))
        ⊎ ((i : ℕ) × (p : Pkt) × IsLeast ps i p
            × (key p < least)
            × (min_from key ps cur min least ≡ cur + i))
  unfolding min_from
  min_from-Least [] cur min least = inl (record { below = λ j q e. cc }, refl)
  min_from-Least (p ∷ ps) cur min least = elim (dec_lt (key p) least) [
    | yes h ↦ rw (lt→ltb (key p) least h) (elim (min_from-Least ps (cur + 1) cur (key p)) [
      | inl (b, e) ↦ inr (0, p, IsLeast-head p ps b, h, omega (arith, e))
      | inr (i, q, l, k, e) ↦
          inr (suc i, q, IsLeast-cons p q ps i k l, omega arith, omega (arith, e))
    ])
    | no h ↦ rw (le→ltb (key p) least (omega arith)) (elim (min_from-Least ps (cur + 1) min least) [
      | inl (b, e) ↦ inl (record { below = below-cons least p ps (omega arith) b }, e)
      | inr (i, q, l, k, e) ↦
          inr (suc i, q, IsLeast-cons p q ps i (omega arith) l, k, omega (arith, e))
    ])
  ]

  -- On a buffer that is not empty the walk stops at the first of the least packets.
  pub find_min-Least :
      (p : Pkt) (ps : List Pkt) → (q : Pkt) × IsLeast (p ∷ ps) (find_min key (p ∷ ps)) q
  unfolding find_min
  find_min-Least p ps = elim (min_from-Least (p ∷ ps) 0 0 (key p)) [
    | inl (b, e) ↦ (p, rw e (IsLeast-head p ps (record { below = λ j. b.below (suc j) })))
    | inr (i, q, l, k, e) ↦
        (q, let f : min_from key (p ∷ ps) 0 0 (key p) ≡ i = omega (arith, e) in rw f l)
  ]

  pub find_min-Least_of_pos :
      (ps : List Pkt) → 0 < length ps → (q : Pkt) × IsLeast ps (find_min key ps) q
  find_min-Least_of_pos [] h = absurd (omega arith)
  find_min-Least_of_pos (p ∷ ps) h = find_min-Least p ps
