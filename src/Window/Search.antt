-- ===== src/Window/Search.antt =====
-- The walks over the buffer of src/window.c: which node each of them stops at.
use lossless_transport.Common.{
  dec_lt, ℕ, zero, suc, ◌+◌, ◌<◌, ◌≡◌, ◌≢◌, ◌⊎◌, refl, inl, inr, none, some, List, [], ◌∷◌,
  get_elem?, set, arith, ℕ_discrete,
}
use lossless_transport.Packet.{Pkt, get_seqnum, get_timestamp, set_timestamp}
use lossless_transport.Window.{find_from, update_from, match_from}

module _ (key : Pkt → ℕ) (v : ℕ) where
  -- No packet of the list has the value.
  pub record IsAbsent (ps : List Pkt) : Type 0 where
    pub absent : (j : ℕ) (q : Pkt) → get_elem? ps j ≡ some q → key q ≢ v

  -- The first packet with the value is `p`, at position `i`.
  pub record IsFirst (ps : List Pkt) (i : ℕ) (p : Pkt) : Type 0 where
    pub here : get_elem? ps i ≡ some p
    pub matches : key p ≡ v
    pub earlier : (j : ℕ) (q : Pkt) → j < i → get_elem? ps j ≡ some q → key q ≢ v

  absent-cons :
      (p : Pkt) (ps : List Pkt)
      → key p ≢ v
      → IsAbsent ps
      → (j : ℕ) (q : Pkt) → get_elem? (p ∷ ps) j ≡ some q
      → key q ≢ v
  absent-cons p ps n a zero q e = λ k. n (ground arith)
  absent-cons p ps n a (suc j) q e = a.absent j q e

  earlier-cons :
      (p : Pkt) (ps : List Pkt) (i : ℕ) (r : Pkt)
      → key p ≢ v
      → IsFirst ps i r
      → (j : ℕ) (q : Pkt) → j < suc i
      → get_elem? (p ∷ ps) j ≡ some q
      → key q ≢ v
  earlier-cons p ps i r n f zero q l e = λ k. n (ground arith)
  earlier-cons p ps i r n f (suc j) q l e = f.earlier j q (omega arith) e

  IsAbsent-nil : IsAbsent []
  IsAbsent-nil = record { absent = λ j q e. cc }

  IsAbsent-cons : {p : Pkt} {ps : List Pkt} → key p ≢ v → IsAbsent ps → IsAbsent (p ∷ ps)
  IsAbsent-cons {p} {ps} n a = record { absent = absent-cons p ps n a }

  IsFirst-head : {p : Pkt} {ps : List Pkt} → key p ≡ v → IsFirst (p ∷ ps) 0 p
  IsFirst-head e = record { here = refl; matches = e; earlier = λ j q l. absurd (omega arith) }

  IsFirst-cons :
      {p : Pkt} {ps : List Pkt} {i : ℕ} {r : Pkt}
      → key p ≢ v
      → IsFirst ps i r
      → IsFirst (p ∷ ps) (suc i) r
  IsFirst-cons {p} {ps} {i} {r} n f = record {
    here = f.here;
    matches = f.matches;
    earlier = earlier-cons p ps i r n f;
  }

-- Two packets that are the first with a value are at one position.
pub IsFirst-position :
    (key : Pkt → ℕ) (v : ℕ) (ps : List Pkt) (i j : ℕ) (p q : Pkt)
    → IsFirst key v ps i p
    → IsFirst key v ps j q
    → i ≡ j
IsFirst-position key v ps i j p q f g = elim (dec_lt i j) [
  | yes l ↦ absurd (g.earlier i p l f.here f.matches)
  | no n ↦ elim (dec_lt j i) [
    | yes l ↦ absurd (f.earlier j q l g.here g.matches)
    | no m ↦ omega arith
  ]
]

-- The walk by sequence number returns the first match, and NULL exactly if there is none.
pub find_from-First :
    (s cur : ℕ) (ps : List Pkt)
    → (IsAbsent get_seqnum s ps × (find_from s cur ps ≡ none))
      ⊎ ((i : ℕ) × (p : Pkt) × IsFirst get_seqnum s ps i p × (find_from s cur ps ≡ some (cur + i)))
unfolding find_from
find_from-First s cur [] = inl (IsAbsent-nil get_seqnum s, refl)
find_from-First s cur (p ∷ ps) = elim (ℕ_discrete (get_seqnum p) s) [
  | yes e ↦ inr (0, p, IsFirst-head get_seqnum s e, ground arith)
  | no n ↦ elim (find_from-First s (cur + 1) ps) [
    | inl (a, e) ↦ inl (IsAbsent-cons get_seqnum s n a, ground arith)
    | inr (i, q, f, e) ↦ inr (suc i, q, IsFirst-cons get_seqnum s n f, ground arith)
  ]
]

-- The walk by timestamp stops at the first match, and leaves `match` alone if there is none.
pub match_from-First :
    (t : ℕ) (ps : List Pkt) (cur match : ℕ)
    → (IsAbsent get_timestamp t ps × (match_from t ps cur match ≡ match))
      ⊎ ((i : ℕ) × (p : Pkt) × IsFirst get_timestamp t ps i p
          × (match_from t ps cur match ≡ cur + i))
unfolding match_from
match_from-First t [] cur match = inl (IsAbsent-nil get_timestamp t, refl)
match_from-First t (p ∷ ps) cur match = elim (ℕ_discrete (get_timestamp p) t) [
  | yes e ↦ inr (0, p, IsFirst-head get_timestamp t e, ground arith)
  | no n ↦ elim (match_from-First t ps (cur + 1) match) [
    | inl (a, e) ↦ inl (IsAbsent-cons get_timestamp t n a, ground arith)
    | inr (i, q, f, e) ↦ inr (suc i, q, IsFirst-cons get_timestamp t n f, ground arith)
  ]
]

-- The update changes the first match only, and fails exactly if there is none.
pub update_from-First :
    (old new : ℕ) (ps : List Pkt)
    → (IsAbsent get_timestamp old ps × (update_from old new ps ≡ none))
      ⊎ ((i : ℕ) × (p : Pkt) × IsFirst get_timestamp old ps i p
          × (update_from old new ps ≡ some (set ps i (set_timestamp p new).1)))
unfolding update_from
update_from-First old new [] = inl (IsAbsent-nil get_timestamp old, refl)
update_from-First old new (p ∷ ps) = elim (ℕ_discrete (get_timestamp p) old) [
  | yes e ↦ inr (0, p, IsFirst-head get_timestamp old e, ground arith)
  | no n ↦ elim (update_from-First old new ps) [
    | inl (a, e) ↦ inl (IsAbsent-cons get_timestamp old n a, ground arith)
    | inr (i, q, f, e) ↦ inr (suc i, q, IsFirst-cons get_timestamp old n f, ground arith)
  ]
]
