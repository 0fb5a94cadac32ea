-- ===== src/Window/Nodes/Restamp.antt =====
-- `window_update_timestamp` of src/window.c on the nodes.
use lossless_transport.Common.{
  ℕ, zero, suc, ◌<◌, ◌≡◌, ◌⊎◌, refl, ◌∙◌, inl, inr, true, false, none, some, List, [], ◌∷◌, ◌==◌,
  arith, length, Bool-cases, returns, if◌then◌else◌,
}
use lossless_transport.Packet.{get_timestamp, set_timestamp}
use lossless_transport.Window.{update_from, done, failed}
use lossless_transport.Window.Nodes.{Pointer, Memory, update_loop, put}
use lossless_transport.Window.Nodes.Linked.{
  Item, vals, first, has_node, has_packet, Chain, Chain-frame, at_not_null, load_node-Holds,
  load_packet-Holds,
}

abbrev pub stamped : Item → ℕ → Item
stamped c new = record c { val = (set_timestamp c.val new).1 }

-- The first packet with the timestamp has another.
unfoldable pub restamp : ℕ → ℕ → List Item → List Item
restamp old new [] = []
restamp old new (c ∷ xs) =
    if get_timestamp c.val == old then stamped c new ∷ xs else c ∷ restamp old new xs

pub first-restamp : (old new : ℕ) (xs : List Item) → first (restamp old new xs) ≡ first xs
unfolding restamp
first-restamp old new [] = refl
first-restamp old new (c ∷ xs) = ground arith

pub has_node-restamp :
    (old new : ℕ) (xs : List Item) (a : Pointer) → has_node a (restamp old new xs) ≡ has_node a xs
unfolding restamp
has_node-restamp old new [] a = refl
has_node-restamp old new (c ∷ xs) a = ground (arith, has_node-restamp old new xs a)

pub has_packet-restamp :
    (old new : ℕ) (xs : List Item) (a : Pointer)
    → has_packet a (restamp old new xs) ≡ has_packet a xs
unfolding restamp
has_packet-restamp old new [] a = refl
has_packet-restamp old new (c ∷ xs) a = ground (arith, has_packet-restamp old new xs a)

abbrev pub rewritten : Memory → Item → ℕ → Memory
rewritten m c new = record m { packets = put m.packets c.pkt (some (stamped c new).val) }

-- The packet of `c` gets the timestamp.
pub record Restamps (m : Memory) (old new : ℕ) (xs : List Item) (c : Item) : Type 0 where
  pub inside : has_packet c.pkt xs ≡ true
  pub chain : Chain (rewritten m c new) (restamp old new xs)
  pub listed : update_from old new (vals xs) ≡ some (vals (restamp old new xs))

module _ (m : Memory) (old new : ℕ) where
  Restamps-head :
      (c : Item) (xs : List Item)
      → Chain m (c ∷ xs)
      → (get_timestamp c.val == old) ≡ true
      → Restamps m old new (c ∷ xs) c
  unfolding restamp put update_from
  Restamps-head c xs h e = record {
    inside = ground arith;
    chain = rw e (
      ground (arith, h.0),
      h.1,
      h.2,
      Chain-frame m (rewritten m c new) xs h.3 (λ a i. refl) (λ a i. ground (arith, h.2)),
    );
    listed = rw e;
  }

  Restamps-cons :
      (d : Item) (xs : List Item) (c : Item)
      → Chain m (d ∷ xs)
      → (get_timestamp d.val == old) ≡ false
      → Restamps m old new xs c
      → Restamps m old new (d ∷ xs) c
  unfolding restamp put update_from
  Restamps-cons d xs c h e r = record {
    inside = ground (arith, r.inside);
    chain = rw e (
      ground (arith, h.0, h.2, r.inside, first-restamp old new xs),
      has_node-restamp old new xs d.at ∙ h.1,
      has_packet-restamp old new xs d.pkt ∙ h.2,
      r.chain,
    );
    listed = rw (e, r.listed);
  }

  -- The walk rewrites the first packet with the timestamp, and fails if there is none.
  pub update_loop_lem :
      (k : ℕ) (xs : List Item)
      → Chain m xs
      → length xs < k
      → ((update_from old new (vals xs) ≡ none)
          × (restamp old new xs ≡ xs)
          × (update_loop old new k (first xs) m ≡ returns (failed, m)))
        ⊎ ((c : Item) × Restamps m old new xs c
            × (update_loop old new k (first xs) m ≡ returns (done, rewritten m c new)))
  unfolding update_loop
  update_loop_lem zero xs h f = absurd (omega arith)
  update_loop_lem (suc k) [] h f = inl (unfold update_from in refl, unfold restamp in refl, refl)
  update_loop_lem (suc k) (c ∷ xs) h f =
      rw (at_not_null h.0, load_node-Holds h.0, load_packet-Holds h.0)
        (elim (Bool-cases (get_timestamp c.val == old)) [
          | inl e ↦ inr (c, Restamps-head c xs h e, rw e)
          | inr e ↦ rw e (elim (update_loop_lem k xs h.3 (omega arith)) [
            | inl (a, s, b) ↦ inl (unfold update_from in rw (e, a), unfold restamp in rw (e, s), b)
            | inr (d, r, b) ↦ inr (d, Restamps-cons c xs d h e r, b)
          ])
        ])
