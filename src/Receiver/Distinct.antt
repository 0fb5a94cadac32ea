-- ===== src/Receiver/Distinct.antt =====
-- Packets of the receiver's buffer that differ in a field.
use lossless_transport.Common.{
  ℕ, zero, suc, ◌≡◌, refl, sym, ap, ◌∙◌, some, List, [], ◌∷◌, ltb, if◌then◌else◌, get_elem?,
  erase_at, arith,
}
use lossless_transport.Packet.{Pkt}
use lossless_transport.Window.Search.{IsAbsent}

pub get-erase_at {ℓ} :
    {A : Type ℓ} (xs : List A) (i j : ℕ)
    → get_elem? (erase_at xs i) j ≡ get_elem? xs (if ltb j i then j else suc j)
get-erase_at [] i j = ground arith
get-erase_at (x ∷ xs) zero j = ground arith
get-erase_at (x ∷ xs) (suc i) zero = ground arith
get-erase_at (x ∷ xs) (suc i) (suc j) = ground (arith, get-erase_at xs i j)

module _ (key : Pkt → ℕ) where
  pub record IsDistinct (ps : List Pkt) : Type 0 where
    pub one :
        (i j : ℕ) (p q : Pkt)
        → get_elem? ps i ≡ some p
        → get_elem? ps j ≡ some q
        → key p ≡ key q
        → i ≡ j

  pub IsDistinct-erase : {ps : List Pkt} (i : ℕ) → IsDistinct ps → IsDistinct (erase_at ps i)
  IsDistinct-erase {ps} i d = record {
    one = λ j k p q e f g.
        let h =
          d.one (if ltb j i then j else suc j) (if ltb k i then k else suc k) p q
            (sym (get-erase_at ps i j) ∙ e) (sym (get-erase_at ps i k) ∙ f) g in
        ground (arith, h);
  }

  -- A packet with a value of its own.
  pub IsDistinct-cons :
      (p : Pkt) (ps : List Pkt) → IsDistinct ps → IsAbsent key (key p) ps → IsDistinct (p ∷ ps)
  IsDistinct-cons p ps d a = record { one = go }
    where
      go :
          (i j : ℕ) (q r : Pkt)
          → get_elem? (p ∷ ps) i ≡ some q
          → get_elem? (p ∷ ps) j ≡ some r
          → key q ≡ key r
          → i ≡ j
      go zero zero q r e f g = refl
      go zero (suc j) q r e f g =
          let h : p ≡ q = ground arith in absurd (a.absent j r f (sym g ∙ ap key (sym h)))
      go (suc i) zero q r e f g =
          let h : p ≡ r = ground arith in absurd (a.absent i q e (g ∙ ap key (sym h)))
      go (suc i) (suc j) q r e f g = ap suc (d.one i j q r e f g)
