-- ===== src/Window/Nodes/Take.antt =====
-- The calls of src/window.c that pop or peek at a packet, on the nodes.
use lossless_transport.Common.{
  ℕ, zero, suc, ◌≡◌, ◌≤◌, refl, ap, ◌∙◌, inl, inr, false, ◌||◌, none, some, List, [], ◌∷◌, ◌==◌,
  arith, get_elem?, erase_at, length, Bool-cases, Option-cases, returns, if◌then◌else◌,
}
use lossless_transport.Packet.{Pkt, get_timestamp, get_seqnum}
use lossless_transport.Window
use lossless_transport.Window.{Window, find_min, match_from}
use lossless_transport.Window.Buffer.{pop_node-none}
use lossless_transport.Window.Nodes.{
  Pointer, null, Memory, LinkedWindow, Cmd, Place, front_field, next_field, fetch, window_pop_node,
  window_pop_timestamp, window_peek_min, window_pop_min,
}
use lossless_transport.Window.Nodes.Linked.{
  Item, vals, first, has_node, view, IsLinked, Chain, Holds, get_elem?-vals, get_elem?-vals-none,
  vals-erase_at, at_not_null, load_node-Holds,
}
use lossless_transport.Window.Nodes.Walk.{
  Leads, Leads-next, place_from, window_find_min_lem, match_loop-front,
}
use lossless_transport.Window.Nodes.Unlink.{fewer, Unlinked, pop_node-null, pop_node-Pops}
use lossless_transport.Window.Nodes.Calls.{
  Follows, packet, answers, answers_same, Refines, perform, specify, after, pops_timestamp,
  peeks_min_timestamp, pops_min_timestamp, peeks_min_seqnum, pops_min_seqnum,
}
use lossless_transport.Window.Nodes.Push.{Follows-unchanged}

module _ (m : Memory) (w : LinkedWindow) where
  place_from-end :
      (pl : Place) (xs : List Item) (i : ℕ)
      → Leads m w pl xs
      → Chain m xs
      → get_elem? xs i ≡ none
      → Leads m w (place_from pl xs i) []
  place_from-end pl [] zero l h e = l
  place_from-end pl [] (suc i) l h e = l
  place_from-end pl (c ∷ xs) zero l h e = cc
  place_from-end pl (c ∷ xs) (suc i) l h e =
      place_from-end (next_field c.at) xs i (Leads-next m w c xs h.0) h.3 e

  pub place_from-at :
      (pl : Place) (xs : List Item) (i : ℕ) {c : Item}
      → Leads m w pl xs
      → Chain m xs
      → get_elem? xs i ≡ some c
      → (q : Pointer) × (fetch w (place_from pl xs i) m ≡ returns (c.at, m)) × Holds m c q
  place_from-at pl [] i l h e = cc
  place_from-at pl (b ∷ xs) zero {c} l h e =
      let s : b ≡ c = cc in (first xs, rw (← s) l, rw (← s) h.0)
  place_from-at pl (b ∷ xs) (suc i) l h e =
      place_from-at (next_field b.at) xs i (Leads-next m w b xs h.0) h.3 e

erase_at-none : (xs : List Item) (i : ℕ) → get_elem? xs i ≡ none → erase_at xs i ≡ xs
erase_at-none [] i e = refl
erase_at-none (c ∷ xs) zero e = cc
erase_at-none (c ∷ xs) (suc i) e = ap (◌∷◌ c) (erase_at-none xs i e)

has_node-erased :
    (xs : List Item) (i : ℕ) (a : Pointer) {c : Item}
    → get_elem? xs i ≡ some c
    → has_node a xs ≡ ((a == c.at) || has_node a (erase_at xs i))
has_node-erased [] i a e = cc
has_node-erased (b ∷ xs) zero a {c} e = let s : b ≡ c = cc in rw s
has_node-erased (b ∷ xs) (suc i) a e = ground (arith, has_node-erased xs i a e)

-- Of the nodes outside the shorter list just `c` is freed.
Unlinked-nodes :
    (m g : Memory) (xs : List Item) (i : ℕ) (c : Item)
    → Unlinked m g xs c
    → get_elem? xs i ≡ some c
    → (a : Pointer) → has_node a (erase_at xs i) ≡ false
    → g.nodes a ≡ (if has_node a xs then none else m.nodes a)
Unlinked-nodes m g xs i c u e a n = elim (Bool-cases (a == c.at)) [
  | inl s ↦ ground (arith, has_node-erased xs i a e, u.freed)
  | inr s ↦ ground (arith, has_node-erased xs i a e, u.elsewhere a)
]

module _ (m : Memory) (w : LinkedWindow) (xs : List Item) (l : IsLinked m w xs) where
  pub leads : Leads m w front_field xs
  unfolding fetch
  leads = rw l.front

  pop-Follows :
      (c : Cmd (Pointer × LinkedWindow)) (i : ℕ)
      → c m ≡ window_pop_node w (place_from front_field xs i) m
      → Follows m xs
          (erase_at xs i)
          (answers packet c)
          (packet (Window.pop_node (view w xs) i).0)
          (Window.pop_node (view w xs) i).1
  pop-Follows c i e = elim (Option-cases (get_elem? xs i)) [
    | inl n ↦
        rw (erase_at-none xs i n, pop_node-none (view w xs) i (get_elem?-vals-none xs i n))
          (Follows-unchanged m w xs (answers packet c) (packet null) (packet none) (view w xs)
            (rw (e, pop_node-null m w _ (place_from-end m w front_field xs i leads l.chain n))) l
            refl refl)
    | inr (b, s) ↦
        let (g, w', p, k, v, u) = pop_node-Pops m w xs i l s in
        let (q, d, h) = place_from-at m w front_field xs i leads l.chain s in
        unfold Window.pop_node in
        rw (get_elem?-vals xs i s, Window.pop_node)
          (record {
            memory = g;
            window = w';
            answer = packet b.pkt;
            returned = rw (e, p);
            linked = k;
            viewed = v ∙ ap (λ f. record (view (fewer w) xs) { front = f }) (vals-erase_at xs i);
            agrees = (h.pkt_ne_null, ap (λ f. f b.pkt) u.packets ∙ h.packet_at);
            nodes = Unlinked-nodes m g xs i b u s;
            packets = λ a n. ap (λ h. h a) u.packets;
          })
  ]

  pub pops_timestamp-Refines :
      (t : ℕ)
      → length xs ≤ w.bufsize
      → Refines m w xs (pops_timestamp t) (specify (view w xs) (pops_timestamp t))
  unfolding perform specify after Window.pop_timestamp Window.match_timestamp window_pop_timestamp
  pops_timestamp-Refines t f =
      pop-Follows (window_pop_timestamp w t) (match_from t (vals xs) 0 0)
        (rw (match_loop-front m w t xs l f))

  pop_min-Follows :
      (key : Pkt → ℕ)
      → length xs ≤ w.bufsize
      → Follows m xs
          (erase_at xs (find_min key (vals xs)))
          (answers packet (window_pop_min key w))
          (packet (Window.pop_node (view w xs) (find_min key (vals xs))).0)
          (Window.pop_node (view w xs) (find_min key (vals xs))).1
  unfolding window_pop_min
  pop_min-Follows key f =
      pop-Follows (window_pop_min key w) (find_min key (vals xs))
        (rw (window_find_min_lem m w key xs l f))

  -- The packet is read, and nothing changes.
  peek-Follows :
      (key : Pkt → ℕ)
      → length xs ≤ w.bufsize
      → Follows m xs xs
          (answers_same packet w (window_peek_min key w))
          (packet (get_elem? (vals xs) (find_min key (vals xs))))
          (view w xs)
  unfolding window_peek_min
  peek-Follows key f =
      let i = find_min key (vals xs) in
      let finds = window_find_min_lem m w key xs l f in
      let c = answers_same packet w (window_peek_min key w) in
      elim (Option-cases (get_elem? xs i)) [
        | inl n ↦ rw (get_elem?-vals-none xs i n) (
            Follows-unchanged m w xs c (packet null) (packet none) (view w xs)
              (rw (finds, place_from-end m w front_field xs i leads l.chain n)) l refl refl)
        | inr (b, s) ↦
            let (q, d, h) = place_from-at m w front_field xs i leads l.chain s in
            rw (get_elem?-vals xs i s) (
              Follows-unchanged m w xs c (packet b.pkt) (packet (some b.val)) (view w xs)
                (rw (finds, d, at_not_null h, load_node-Holds h)) l refl
                (h.pkt_ne_null, h.packet_at))
      ]

  module _ (f : length xs ≤ w.bufsize) where
    pub peeks_min_timestamp-Refines :
        Refines m w xs peeks_min_timestamp (specify (view w xs) peeks_min_timestamp)
    unfolding perform specify after Window.peek_min_timestamp Window.find_min_timestamp
    peeks_min_timestamp-Refines = peek-Follows get_timestamp f

    pub pops_min_timestamp-Refines :
        Refines m w xs pops_min_timestamp (specify (view w xs) pops_min_timestamp)
    unfolding perform specify after Window.pop_min_timestamp Window.find_min_timestamp
    pops_min_timestamp-Refines = pop_min-Follows get_timestamp f

    pub peeks_min_seqnum-Refines :
        Refines m w xs peeks_min_seqnum (specify (view w xs) peeks_min_seqnum)
    unfolding perform specify after Window.peek_min_seqnum Window.find_min_seqnum
    peeks_min_seqnum-Refines = peek-Follows get_seqnum f

    pub pops_min_seqnum-Refines :
        Refines m w xs pops_min_seqnum (specify (view w xs) pops_min_seqnum)
    unfolding perform specify after Window.pop_min_seqnum Window.find_min_seqnum
    pops_min_seqnum-Refines = pop_min-Follows get_seqnum f
