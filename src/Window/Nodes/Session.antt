-- ===== src/Window/Nodes/Session.antt =====
-- A program that creates a window of src/window.c, calls it, and frees it.
use lossless_transport.Common.{
  ℕ, ◌+◌, ◌^◌, ◌<◌, ◌≡◌, ◌≤◌, ◌⊎◌, refl, ap, sym, ◌∙◌, subst, inl, inr, true, false, none, some,
  List, [], arith, Bool-cases, not, Option, Option-cases, Outcome, returns, aborts, length, ◌==◌,
}
use lossless_transport.Packet.{Pkt}
use lossless_transport.Window
use lossless_transport.Window.{Window}
use lossless_transport.Window.Invariant
use lossless_transport.Window.Invariant.{IsSound, SameShape, step, step-IsSound, create-IsSound}
use lossless_transport.Window.Nodes.{
  Pointer, null, Memory, LinkedWindow, window_create, window_free,
}
use lossless_transport.Window.Nodes.Linked.{
  Item, has_node, has_packet, view, IsLinked, Chain-frame, length-vals, has_node-erase_at,
}
use lossless_transport.Window.Nodes.Restamp.{has_node-restamp}
use lossless_transport.Window.Nodes.Free.{window_free-Without}
use lossless_transport.Window.Nodes.Calls.{
  Call, slides, slides_to, resizes, pushes, finds_seqnum, updates_timestamp, pops_timestamp,
  peeks_min_timestamp, pops_min_timestamp, peeks_min_seqnum, pops_min_seqnum, Answer, perform,
  specify, after, Fits, Follows, Refines,
}
use lossless_transport.Window.Nodes.Refine.{perform-Refines}

-- The states after `window_create`, calls that return, and what the program does to packets that are
-- not in the buffer meanwhile. The memory at `window_create` is `m₀`.
pub data Reached (m₀ : Memory) : Memory → LinkedWindow → List Item → Type 0 where
  creates :
      (size max_size max_seqnum : ℕ) {w : LinkedWindow}
      → max_seqnum + 1 < 2 ^ 63
      → max_size ≤ max_seqnum + 1
      → window_create size max_size max_seqnum true ≡ some w
      → Reached m₀ m₀ w []
  calls :
      {m g : Memory} {w w' : LinkedWindow} {xs ys : List Item} (c : Call) {a : Answer Pointer}
      → Reached m₀ m w xs
      → Fits m xs c
      → perform w c m ≡ returns ((a, w'), g)
      → ys ≡ after (view w xs) xs c
      → Reached m₀ g w' ys
  elsewhere :
      {m g : Memory} {w : LinkedWindow} {xs : List Item}
      → Reached m₀ m w xs
      → g.nodes ≡ m.nodes
      → ((a : Pointer) → has_packet a xs ≡ true → g.packets a ≡ m.packets a)
      → Reached m₀ g w xs

-- Since `m₀` only the nodes of the list were allocated.
pub record Added (m₀ m : Memory) (xs : List Item) : Type 0 where
  pub outside : (a : Pointer) → has_node a xs ≡ false → m.nodes a ≡ m₀.nodes a
  pub inside : (a : Pointer) → has_node a xs ≡ true → m₀.nodes a ≡ none

specify-IsSound :
    (u : Window) (c : Call) {r : Answer (Option Pkt)} {v : Window}
    → IsSound u
    → specify u c ≡ some (r, v)
    → IsSound v
unfolding specify step
specify-IsSound u slides s e = ground (arith, step-IsSound u Invariant.slides s refl)
specify-IsSound u (slides_to n) {r} {v} s e =
    ground (arith, step-IsSound u (Invariant.slides_to n) {u = v} s)
specify-IsSound u (resizes n) s e = ground (arith, step-IsSound u (Invariant.resizes n) s refl)
specify-IsSound u (pushes f p v) s e =
    ground (arith, step-IsSound u (Invariant.pushes v (not (f == null))) s refl)
specify-IsSound u (finds_seqnum n) s e = ground arith
specify-IsSound u (updates_timestamp old new) s e =
    ground (arith, step-IsSound u (Invariant.updates old new) s refl)
specify-IsSound u (pops_timestamp t) s e =
    ground (arith, step-IsSound u (Invariant.pops_timestamp t) s refl)
specify-IsSound u peeks_min_timestamp s e = ground arith
specify-IsSound u pops_min_timestamp s e =
    ground (arith, step-IsSound u Invariant.pops_min_timestamp s refl)
specify-IsSound u peeks_min_seqnum s e = ground arith
specify-IsSound u pops_min_seqnum s e =
    ground (arith, step-IsSound u Invariant.pops_min_seqnum s refl)

-- What a call adds to the list was not allocated.
after-old :
    (m : Memory) (u : Window) (xs : List Item) (c : Call) (a : Pointer)
    → Fits m xs c
    → has_node a (after u xs c) ≡ true
    → (has_node a xs ≡ true) ⊎ (m.nodes a ≡ none)
unfolding after
after-old m u xs slides a f h = inl h
after-old m u xs (slides_to n) a f h = inl h
after-old m u xs (resizes n) a f h = inl h
after-old m u xs (pushes fresh p v) a f h = ground (arith, f.0)
after-old m u xs (finds_seqnum s) a f h = inl h
after-old m u xs (updates_timestamp old new) a f h =
    inl (ground (arith, has_node-restamp old new xs a))
after-old m u xs (pops_timestamp t) a f h =
    inl (ground (arith, has_node-erase_at xs (Window.match_timestamp u t) a))
after-old m u xs peeks_min_timestamp a f h = inl h
after-old m u xs pops_min_timestamp a f h =
    inl (ground (arith, has_node-erase_at xs (Window.find_min_timestamp u) a))
after-old m u xs peeks_min_seqnum a f h = inl h
after-old m u xs pops_min_seqnum a f h =
    inl (ground (arith, has_node-erase_at xs (Window.find_min_seqnum u) a))

module _ (m₀ : Memory) where
  -- A call keeps the list of a sound window, and the nodes that were there before.
  called :
      (m : Memory) (w : LinkedWindow) (xs ys : List Item) (c : Call) (r : Answer (Option Pkt))
      (u : Window)
      → IsSound u
      → Added m₀ m xs
      → Fits m xs c
      → ys ≡ after (view w xs) xs c
      → (d : Follows m xs ys (perform w c) r u)
      → IsLinked d.memory d.window ys × IsSound (view d.window ys) × Added m₀ d.memory ys
  called m w xs ys c r u v n f e d = (
    d.linked,
    subst IsSound (sym d.viewed) v,
    record {
      outside = λ a h. elim (Bool-cases (has_node a xs)) [
        | inl k ↦ ground (arith, d.nodes a h, n.inside a k)
        | inr k ↦ ground (arith, d.nodes a h, n.outside a k)
      ];
      inside = λ a h.
          let h' : has_node a (after (view w xs) xs c) ≡ true = rw (← e) h in
          elim (after-old m (view w xs) xs c a f h') [
            | inl k ↦ n.inside a k
            | inr k ↦ elim (Bool-cases (has_node a xs)) [
              | inl i ↦ n.inside a i
              | inr i ↦ sym (n.outside a i) ∙ k
            ]
          ];
    },
  )

  created :
      (size max_size max_seqnum : ℕ) {w : LinkedWindow}
      → max_seqnum + 1 < 2 ^ 63
      → max_size ≤ max_seqnum + 1
      → window_create size max_size max_seqnum true ≡ some w
      → IsLinked m₀ w [] × IsSound (view w []) × Added m₀ m₀ []
  unfolding window_create
  created size max_size max_seqnum h k e =
      (ground arith, ground arith, record { outside = λ a i. refl; inside = λ a i. cc })

  pub Reached-IsLinked :
      {m : Memory} {w : LinkedWindow} {xs : List Item}
      → Reached m₀ m w xs
      → IsLinked m w xs × IsSound (view w xs) × Added m₀ m xs
  Reached-IsLinked {m} {w} (creates size max_size max_seqnum h k e) =
      created size max_size max_seqnum h k e
  Reached-IsLinked {m} {w} {xs} (calls {m = m'} {w = w'} {xs = xs'} c {a} z f e i) =
      let (l, v, n) = Reached-IsLinked z in
      let p = perform-Refines m' w' xs' c l v f in
      elim (Option-cases (specify (view w' xs') c)) [
        | inl k ↦ let q : perform w' c m' ≡ aborts = subst (Refines m' w' xs' c) k p in cc
        | inr ((r, u), k) ↦
            let q : Follows m' xs' (after (view w' xs') xs' c) (perform w' c) r u =
              subst (Refines m' w' xs' c) k p in
            let same : ◌≡◌ {A = Outcome ((Answer Pointer × LinkedWindow) × Memory)}
                (returns ((a, w), m)) (returns ((q.answer, q.window), q.memory)) =
              sym e ∙ q.returned in
            let same_memory : m ≡ q.memory = cc in
            let same_window : w ≡ q.window = cc in
            rw (same_memory, same_window, i)
              (called m' w' xs' (after (view w' xs') xs' c) c r u
                (specify-IsSound (view w' xs') c v k) n f refl q)
      ]
  Reached-IsLinked {m} {w} {xs} (elsewhere {m = m'} z e p) =
      let (l, v, n) = Reached-IsLinked z in
      (
        record {
          front = l.front;
          chain = Chain-frame m' m xs l.chain (λ a i. ap (λ h. h a) e) (λ a i. p a (ground arith));
        },
        v,
        record { outside = λ a h. ap (λ h. h a) e ∙ n.outside a h; inside = n.inside },
      )

  -- A program can create a window, make any calls that fit, and do what it likes with packets that
  -- are not in the buffer: when it frees the window, just the nodes that were allocated before it
  -- created the window are allocated, with what they held, and every packet is as it was.
  pub window_free-Reached :
      {m : Memory} {w : LinkedWindow} {xs : List Item}
      → Reached m₀ m w xs
      → (g : Memory) × (window_free w m ≡ returns (tt, g))
        × ((a : Pointer) → g.nodes a ≡ m₀.nodes a)
        × (g.packets ≡ m.packets)
  window_free-Reached {m} {w} {xs} z =
      let (l, v, n) = Reached-IsLinked z in
      let f : length xs ≤ w.bufsize = omega (arith, v.buffer.counted, length-vals xs) in
      let (g, e, d) = window_free-Without m w xs l f in
      (
        g,
        e,
        λ a. elim (Bool-cases (has_node a xs)) [
          | inl h ↦ ground (arith, d.nodes a, n.inside a h)
          | inr h ↦ ground (arith, d.nodes a, n.outside a h)
        ],
        d.packets,
      )
