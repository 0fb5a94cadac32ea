-- ===== src/Window/Nodes/Walk.antt =====
-- The walks of src/window.c along `next`: they stop at the node where the walks over the list of
-- packets stop.
use lossless_transport.Common.{
  ℕ, zero, suc, ◌+◌, ◌<◌, ◌≤◌, ◌≡◌, refl, ap, ◌∙◌, inl, inr, none, some, List, [], ◌∷◌, ◌==◌, ltb,
  arith, get_elem?, length, Bool-cases, returns, ◌⊎◌, if◌then◌else◌,
}
use native.Mathlib.Numerals.{add-one}
use lossless_transport.Packet.{Pkt, get_seqnum, get_timestamp}
use lossless_transport.Window.{match_from, min_from, find_from, find_min}
use lossless_transport.Window.Nodes.{
  Pointer, null, Memory, LinkedWindow, Place, next_field, fetch, match_loop, min_loop, find_loop,
  front_field, window_find_min,
}
use lossless_transport.Window.Nodes.Linked.{
  Item, vals, first, Holds, Chain, IsLinked, at_not_null, load_node-Holds, load_packet-Holds,
}

-- The place that `i` links after `pl` lead to.
abbrev pub place_from : Place → List Item → ℕ → Place
place_from pl xs zero = pl
place_from pl [] (suc i) = pl
place_from pl (c ∷ xs) (suc i) = place_from (next_field c.at) xs i

-- The place numbered `cur` is `pl`, and those after it follow.
abbrev Numbers : (ℕ → Place) → ℕ → Place → List Item → Type 0
Numbers at cur pl xs = (i : ℕ) → at (cur + i) ≡ place_from pl xs i

Numbers-next :
    (at : ℕ → Place) (cur : ℕ) (pl : Place) (c : Item) (xs : List Item)
    → Numbers at cur pl (c ∷ xs)
    → Numbers at (cur + 1) (next_field c.at) xs
Numbers-next at cur pl c xs n i =
    let e : (cur + 1) + i ≡ cur + suc i = omega arith in ap at e ∙ n (suc i)

Numbers-here :
    (at : ℕ → Place) (cur : ℕ) (pl : Place) (xs : List Item) → Numbers at cur pl xs → at cur ≡ pl
Numbers-here at cur pl xs n = let e : cur ≡ cur + 0 = omega arith in ap at e ∙ n 0

module _ (m : Memory) (w : LinkedWindow) where
  -- `*pl` is the first of the nodes.
  abbrev pub Leads : Place → List Item → Type 0
  Leads pl xs = fetch w pl m ≡ returns (first xs, m)

  pub Leads-next : (c : Item) (xs : List Item) → Holds m c (first xs) → Leads (next_field c.at) xs
  unfolding fetch
  Leads-next c xs h = rw (load_node-Holds h)

  pub match_loop_lem :
      (t : ℕ) (at : ℕ → Place) (k cur j : ℕ) (pl : Place) (xs : List Item)
      → Leads pl xs
      → Chain m xs
      → length xs < k
      → Numbers at cur pl xs
      → match_loop t k w pl (at j) m ≡ returns (at (match_from t (vals xs) cur j), m)
  unfolding match_loop match_from
  match_loop_lem t at zero cur j pl xs l h f n = absurd (omega arith)
  match_loop_lem t at (suc k) cur j pl [] l h f n = rw l
  match_loop_lem t at (suc k) cur j pl (c ∷ xs) l h f n =
      rw (l, at_not_null h.0, load_node-Holds h.0, load_packet-Holds h.0)
        (elim (Bool-cases (get_timestamp c.val == t)) [
          | inl e ↦ rw (e, Numbers-here at cur pl (c ∷ xs) n)
          | inr e ↦ rw e (
              match_loop_lem t at k (cur + 1) j (next_field c.at) xs (Leads-next c xs h.0) h.3
                (omega arith) (Numbers-next at cur pl c xs n))
        ])

  -- The place leads to a node that holds the packet.
  pub record Stands (pl : Place) (q : Pkt) : Type 0 where
    item : Item
    after : Pointer
    leads : fetch w pl m ≡ returns (item.at, m)
    holds : Holds m item after
    same : item.val ≡ q

  pub Stands-here :
      (pl : Place) (c : Item) (xs : List Item)
      → Leads pl (c ∷ xs)
      → Holds m c (first xs)
      → Stands pl c.val
  Stands-here pl c xs l h = record { item = c; after = first xs; leads = l; holds = h; same = refl }

  -- One round of the walk for the least.
  min_loop-step :
      (key : Pkt → ℕ) (k : ℕ) (cur min : Place) (c : Item) (xs : List Item) (q : Pkt)
      → Leads cur (c ∷ xs)
      → Holds m c (first xs)
      → Stands min q
      → min_loop key (suc k) w cur min m
        ≡ min_loop key k w (next_field c.at) (if ltb (key c.val) (key q) then cur else min) m
  unfolding min_loop
  min_loop-step key k cur min c xs q l h s = rw (
    l,
    at_not_null h,
    load_node-Holds h,
    load_packet-Holds h,
    s.leads,
    load_node-Holds s.holds,
    load_packet-Holds s.holds,
    s.same,
  )

  pub min_loop_lem :
      (key : Pkt → ℕ) (at : ℕ → Place) (k cur j : ℕ) (pl : Place) (xs : List Item) (q : Pkt)
      → Leads pl xs
      → Chain m xs
      → length xs < k
      → Numbers at cur pl xs
      → Stands (at j) q
      → min_loop key k w pl (at j) m ≡ returns (at (min_from key (vals xs) cur j (key q)), m)
  unfolding min_from
  min_loop_lem key at zero cur j pl xs q l h f n s = absurd (omega arith)
  min_loop_lem key at (suc k) cur j pl [] q l h f n s = unfold min_loop in rw l
  min_loop_lem key at (suc k) cur j pl (c ∷ xs) q l h f n s =
      min_loop-step key k pl (at j) c xs q l h.0 s ∙ elim (Bool-cases (ltb (key c.val) (key q))) [
        | inl e ↦
            let here = Numbers-here at cur pl (c ∷ xs) n in
            rw (e, min_from, ← here)
              (min_loop_lem key at k (cur + 1) cur (next_field c.at) xs c.val (Leads-next c xs h.0)
                h.3 (omega arith) (Numbers-next at cur pl c xs n)
                (rw here (Stands-here pl c xs l h.0)))
        | inr e ↦
            rw (e, min_from)
              (min_loop_lem key at k (cur + 1) j (next_field c.at) xs q (Leads-next c xs h.0) h.3
                (omega arith) (Numbers-next at cur pl c xs n) s)
      ]

  pub find_loop_lem :
      (s k cur : ℕ) (xs : List Item)
      → Chain m xs
      → length xs < k
      → ((find_from s cur (vals xs) ≡ none) × (find_loop s k (first xs) m ≡ returns (null, m)))
        ⊎ ((i : ℕ) × (c : Item) × (get_elem? xs i ≡ some c)
            × (find_from s cur (vals xs) ≡ some (cur + i))
            × (find_loop s k (first xs) m ≡ returns (c.pkt, m)))
  unfolding find_loop find_from
  find_loop_lem s zero cur xs h f = absurd (omega arith)
  find_loop_lem s (suc k) cur [] h f = inl (refl, refl)
  find_loop_lem s (suc k) cur (c ∷ xs) h f =
      rw (at_not_null h.0, load_node-Holds h.0, load_packet-Holds h.0)
        (elim (Bool-cases (get_seqnum c.val == s)) [
          | inl e ↦
              rw e (inr (0, c, refl, ap some (let z : cur ≡ cur + 0 = omega arith in z), refl))
          | inr e ↦ rw e (elim (find_loop_lem s k (cur + 1) xs h.3 (omega arith)) [
            | inl (a, b) ↦ inl (a, b)
            | inr (i, d, g, a, b) ↦ inr (
              suc i,
              d,
              g,
              a ∙ ap some (let z : (cur + 1) + i ≡ cur + suc i = omega arith in z),
              b,
            )
          ])
        ])

-- The place of the first of the least packets.
pub window_find_min_lem :
    (m : Memory) (w : LinkedWindow) (key : Pkt → ℕ) (xs : List Item)
    → IsLinked m w xs
    → length xs ≤ w.bufsize
    → window_find_min key w m ≡ returns (place_from front_field xs (find_min key (vals xs)), m)
unfolding window_find_min find_min fetch
window_find_min_lem m w key [] l f = rw add-one (unfold min_loop in rw (fetch, l.front))
window_find_min_lem m w key (c ∷ xs) l f =
    let leads : Leads m w front_field (c ∷ xs) = rw l.front in
    min_loop_lem m w key (place_from front_field (c ∷ xs)) (w.bufsize + 1) 0 0 front_field (c ∷ xs)
      c.val leads l.chain (omega arith) (λ i. ap (place_from front_field (c ∷ xs)) (omega arith))
      (Stands-here m w front_field c xs leads l.chain.0)

-- The place of the first packet with the timestamp, else the field `front`.
pub match_loop-front :
    (m : Memory) (w : LinkedWindow) (t : ℕ) (xs : List Item)
    → IsLinked m w xs
    → length xs ≤ w.bufsize
    → match_loop t (w.bufsize + 1) w front_field front_field m
      ≡ returns (place_from front_field xs (match_from t (vals xs) 0 0), m)
unfolding fetch
match_loop-front m w t xs l f =
    match_loop_lem m w t (place_from front_field xs) (w.bufsize + 1) 0 0 front_field xs (rw l.front)
      l.chain (omega arith) (λ i. ap (place_from front_field xs) (omega arith))
