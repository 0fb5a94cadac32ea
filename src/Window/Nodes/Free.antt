-- ===== src/Window/Nodes/Free.antt =====
-- `window_free` of src/window.c: the nodes of the list are freed, and no other.
use lossless_transport.Common.{
  ℕ, zero, suc, ◌+◌, ◌<◌, ◌≤◌, ◌≡◌, refl, none, List, [], ◌∷◌, arith, length, returns,
  if◌then◌else◌,
}
use lossless_transport.Window.Nodes.{Pointer, Memory, LinkedWindow, free_loop, window_free, put}
use lossless_transport.Window.Nodes.Linked.{
  Item, first, has_node, Chain, Chain-frame, IsLinked, at_not_null, load_node-Holds,
  free_node-Holds,
}

-- Memory `g` is `m` without the nodes of `xs`.
pub record Without (m g : Memory) (xs : List Item) : Type 0 where
  pub nodes : (a : Pointer) → g.nodes a ≡ (if has_node a xs then none else m.nodes a)
  pub packets : g.packets ≡ m.packets

free_loop_lem :
    (k : ℕ) (m : Memory) (xs : List Item)
    → Chain m xs
    → length xs < k
    → (g : Memory) × (free_loop k (first xs) m ≡ returns (tt, g)) × Without m g xs
unfolding free_loop put
free_loop_lem zero m xs h f = absurd (omega arith)
free_loop_lem (suc k) m [] h f = (m, refl, record { nodes = λ a. refl; packets = refl })
free_loop_lem (suc k) m (c ∷ xs) h f =
    let m' : Memory = record m { nodes = put m.nodes c.at none } in
    let h' : Chain m' xs = Chain-frame m m' xs h.3 (λ a i. ground (arith, h.1)) (λ a i. refl) in
    let (g, e, u) = free_loop_lem k m' xs h' (omega arith) in
    (
      g,
      rw (at_not_null h.0, load_node-Holds h.0, free_node-Holds h.0) e,
      record { nodes = λ a. ground (arith, u.nodes a); packets = u.packets },
    )

pub window_free-Without :
    (m : Memory) (w : LinkedWindow) (xs : List Item)
    → IsLinked m w xs
    → length xs ≤ w.bufsize
    → (g : Memory) × (window_free w m ≡ returns (tt, g)) × Without m g xs
unfolding window_free
window_free-Without m w xs l f =
    let (g, e, u) = free_loop_lem (w.bufsize + 1) m xs l.chain (omega arith) in (g, rw l.front e, u)
