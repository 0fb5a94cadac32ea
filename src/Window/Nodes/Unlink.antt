-- ===== src/Window/Nodes/Unlink.antt =====
-- `window_pop_node` of src/window.c: the node that a place leads to is unlinked and freed.
use lossless_transport.Common.{
  ℕ, zero, suc, ◌≡◌, refl, false, none, some, List, [], ◌∷◌, arith, get_elem?, erase_at, sub_size,
  subst, returns,
}
use lossless_transport.Window.Nodes.{
  Pointer, null, Memory, LinkedWindow, Place, front_field, next_field, fetch, assign,
  window_pop_node, put, ◌>>=◌,
}
use lossless_transport.Window.Nodes.Linked.{
  Item, first, has_node, Holds, Chain, node, at_not_null, load_node-Holds, free_node-Holds,
  IsLinked, view, Chain-frame, has_node-erase_at, has_packet-erase_at,
}
use lossless_transport.Window.Nodes.Walk.{place_from, Leads}

-- Memory `g` is `m` without the node `c`; of the other nodes only those of the list may change.
pub record Unlinked (m g : Memory) (xs : List Item) (c : Item) : Type 0 where
  pub freed : g.nodes c.at ≡ none
  pub elsewhere : (a : Pointer) → has_node a xs ≡ false → g.nodes a ≡ m.nodes a
  pub packets : g.packets ≡ m.packets

abbrev pub fewer : LinkedWindow → LinkedWindow
fewer w = record w { bufsize = sub_size w.bufsize 1 }

module _ (m : Memory) (w : LinkedWindow) where
  -- At NULL nothing is popped.
  pub pop_node-null :
      (pl : Place) → Leads m w pl [] → window_pop_node w pl m ≡ returns ((null, w), m)
  unfolding window_pop_node
  pop_node-null pl l = rw l

  pub pop_node-front :
      (c : Item) (xs : List Item)
      → w.front ≡ c.at
      → Chain m (c ∷ xs)
      → window_pop_node w front_field m
        ≡ returns (
          (c.pkt, record w { front = first xs; bufsize = sub_size w.bufsize 1 }),
          record m { nodes = put m.nodes c.at none },
        )
  unfolding window_pop_node fetch assign
  pop_node-front c xs e h = rw (e, at_not_null h.0, load_node-Holds h.0, free_node-Holds h.0)

  -- The node `c` after `d` is unlinked: the field `next` of `d` is set, and `c` is freed.
  pub without_next : Item → Item → Pointer → Memory
  without_next d c q = record m { nodes = put (put m.nodes d.at (some (node d.pkt q))) c.at none }

  pop_node-next :
      (d c : Item) (xs : List Item)
      → Chain m (d ∷ c ∷ xs)
      → window_pop_node w (next_field d.at) m
        ≡ returns ((c.pkt, fewer w), without_next d c (first xs))
  unfolding window_pop_node fetch assign without_next put
  pop_node-next d c xs h =
      let m' : Memory = record m { nodes = put m.nodes d.at (some (node d.pkt (first xs))) } in
      let still : Holds m' c (first xs) = ground (arith, h.0, h.3.0) in
      rw (
        load_node-Holds h.0,
        at_not_null h.3.0,
        load_node-Holds h.3.0,
        ◌>>=◌,
        load_node-Holds h.0,
        free_node-Holds still,
      )

  -- The node `c` of `xs`, between `d` and `ys`, is popped.
  abbrev pub PopsAfter : Item → List Item → Place → Item → List Item → Type 0
  PopsAfter d xs pl c ys =
      (g : Memory) × (window_pop_node w pl m ≡ returns ((c.pkt, fewer w), g))
      × Chain g (d ∷ ys)
      × Unlinked m g (d ∷ xs) c

  pop_node-next_Pops :
      (d c : Item) (xs : List Item)
      → Chain m (d ∷ c ∷ xs)
      → PopsAfter d (c ∷ xs) (next_field d.at) c xs
  unfolding without_next put
  pop_node-next_Pops d c xs h =
      let g = without_next d c (first xs) in
      (
        g,
        pop_node-next d c xs h,
        (
          ground (arith, h.0, h.1),
          ground (arith, h.1),
          ground (arith, h.2),
          Chain-frame m g xs h.3.3 (λ a i. ground (arith, h.1, h.3.1)) (λ a i. refl),
        ),
        record { freed = ground arith; elsewhere = λ a n. ground arith; packets = refl },
      )

  PopsAfter-cons :
      (d e : Item) (xs : List Item) (i : ℕ) (pl : Place) (c : Item)
      → Chain m (d ∷ e ∷ xs)
      → PopsAfter e xs pl c (erase_at xs i)
      → PopsAfter d (e ∷ xs) pl c (e ∷ erase_at xs i)
  PopsAfter-cons d e xs i pl c h (g, p, k, u) = (
    g,
    p,
    (
      ground (arith, h.0, u.elsewhere d.at h.1, u.packets),
      has_node-erase_at (e ∷ xs) (suc i) d.at h.1,
      has_packet-erase_at (e ∷ xs) (suc i) d.pkt h.2,
      k,
    ),
    record {
      freed = u.freed;
      elsewhere = λ a n. u.elsewhere a (ground arith);
      packets = u.packets;
    },
  )

  pop_node-after :
      (d : Item) (xs : List Item) (i : ℕ) {c : Item}
      → Chain m (d ∷ xs)
      → get_elem? xs i ≡ some c
      → PopsAfter d xs (place_from (next_field d.at) xs i) c (erase_at xs i)
  pop_node-after d [] i h e = cc
  pop_node-after d (b ∷ xs) zero h e =
      subst (λ c. PopsAfter d (b ∷ xs) (next_field d.at) c xs) (cc) (pop_node-next_Pops d b xs h)
  pop_node-after d (b ∷ xs) (suc i) {c} h e =
      PopsAfter-cons d b xs i (place_from (next_field b.at) xs i) c h (pop_node-after b xs i h.3 e)

  -- The node `c` is popped, and the list is `ys`.
  abbrev pub Pops : List Item → Place → Item → List Item → Type 0
  Pops xs pl c ys =
      (g : Memory) × (w' : LinkedWindow) × (window_pop_node w pl m ≡ returns ((c.pkt, w'), g))
      × IsLinked g w' ys
      × (view w' ys ≡ view (fewer w) ys)
      × Unlinked m g xs c

  pop_node-front_Pops :
      (c : Item) (xs : List Item) → IsLinked m w (c ∷ xs) → Pops (c ∷ xs) front_field c xs
  unfolding put
  pop_node-front_Pops c xs l =
      let h = l.chain in
      let g : Memory = record m { nodes = put m.nodes c.at none } in
      (
        g,
        record w { front = first xs; bufsize = sub_size w.bufsize 1 },
        pop_node-front c xs l.front h,
        record {
          front = refl;
          chain = Chain-frame m g xs h.3 (λ a i. ground (arith, h.1)) (λ a i. refl);
        },
        refl,
        record { freed = ground arith; elsewhere = λ a n. ground arith; packets = refl },
      )

  -- The node that `i` links lead to is unlinked and freed, and its packet returned.
  pub pop_node-Pops :
      (xs : List Item) (i : ℕ) {c : Item}
      → IsLinked m w xs
      → get_elem? xs i ≡ some c
      → Pops xs (place_from front_field xs i) c (erase_at xs i)
  pop_node-Pops [] i l e = cc
  pop_node-Pops (b ∷ xs) zero l e =
      subst (λ c. Pops (b ∷ xs) front_field c xs) (cc) (pop_node-front_Pops b xs l)
  pop_node-Pops (b ∷ xs) (suc i) l e =
      let (g, p, k, u) = pop_node-after b xs i l.chain e in
      (g, fewer w, p, record { front = l.front; chain = k }, refl, u)
