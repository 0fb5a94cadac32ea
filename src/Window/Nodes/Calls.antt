-- ===== src/Window/Nodes/Calls.antt =====
-- The calls of src/window.c that change a window or read its buffer: on the nodes, on the list of
-- packets, and what connects the two.
use lossless_transport.Common.{
  ℕ, ◌≡◌, ◌≢◌, ◌⊎◌, false, not, Option, none, some, List, ◌∷◌, ◌==◌, get_elem?, erase_at,
  if◌then◌else◌, aborts, returns,
}
use lossless_transport.Packet.{Pkt, get_seqnum, get_timestamp}
use lossless_transport.Window
use lossless_transport.Window.{Window, Code, done}
use lossless_transport.Window.Nodes.{
  Pointer, null, Memory, LinkedWindow, Cmd, pure, ◌>>=◌, window_slide, window_slide_to,
  window_resize, window_push, window_find_seqnum, window_update_timestamp, window_pop_timestamp,
  window_peek_min, window_pop_min,
}
use lossless_transport.Window.Nodes.Linked.{Item, has_node, has_packet, view, IsLinked}
use lossless_transport.Window.Nodes.Restamp.{restamp}

-- A push names what `calloc` returns, the packet's address, and the packet there.
pub data Call : Type 0 where
  slides : Call
  slides_to resizes : ℕ → Call
  pushes : Pointer → Pointer → Pkt → Call
  finds_seqnum : ℕ → Call
  updates_timestamp : ℕ → ℕ → Call
  pops_timestamp : ℕ → Call
  peeks_min_timestamp pops_min_timestamp peeks_min_seqnum pops_min_seqnum : Call

-- What a call returns, where `P` stands for a pointer to a packet.
pub data Answer (P : Type 0) : Type 0 where
  nothing : Answer P
  code : Code → Answer P
  packet : P → Answer P

module _ {A : Type 0} (f : A → Answer Pointer) where
  abbrev pub answers : Cmd (A × LinkedWindow) → Cmd (Answer Pointer × LinkedWindow)
  answers c = c >>= λ (a, w). pure (f a, w)

  abbrev pub answers_same : LinkedWindow → Cmd A → Cmd (Answer Pointer × LinkedWindow)
  answers_same w c = c >>= λ a. pure (f a, w)

unfoldable pub perform : LinkedWindow → Call → Cmd (Answer Pointer × LinkedWindow)
perform w slides = pure (nothing, window_slide w)
perform w (slides_to n) = window_slide_to w n >>= λ w'. pure (nothing, w')
perform w (resizes n) = answers code (pure (window_resize w n))
perform w (pushes fresh p v) = answers code (window_push fresh w p)
perform w (finds_seqnum s) = answers_same packet w (window_find_seqnum w s)
perform w (updates_timestamp old new) = answers_same code w (window_update_timestamp w old new)
perform w (pops_timestamp t) = answers packet (window_pop_timestamp w t)
perform w peeks_min_timestamp = answers_same packet w (window_peek_min get_timestamp w)
perform w pops_min_timestamp = answers packet (window_pop_min get_timestamp w)
perform w peeks_min_seqnum = answers_same packet w (window_peek_min get_seqnum w)
perform w pops_min_seqnum = answers packet (window_pop_min get_seqnum w)

abbrev pub map_answer :
    {A : Type 0} → (A → Answer (Option Pkt)) → A × Window → Option (Answer (Option Pkt) × Window)
map_answer f (a, u) = some (f a, u)

abbrev pub found : Window → Option ℕ → Option Pkt
found u none = none
found u (some i) = get_elem? u.front i

-- The same calls on the list of packets; `none` is a failed assertion.
unfoldable pub specify : Window → Call → Option (Answer (Option Pkt) × Window)
specify u slides = some (nothing, Window.slide u)
specify u (slides_to n) = elim (Window.slide_to u n) [ none ↦ none | some v ↦ some (nothing, v) ]
specify u (resizes n) = map_answer code (Window.resize u n)
specify u (pushes fresh p v) = map_answer code (Window.push u v (not (fresh == null)))
specify u (finds_seqnum s) = some (packet (found u (Window.find_seqnum u s)), u)
specify u (updates_timestamp old new) = map_answer code (Window.update_timestamp u old new)
specify u (pops_timestamp t) = map_answer packet (Window.pop_timestamp u t)
specify u peeks_min_timestamp = some (packet (Window.peek_min_timestamp u), u)
specify u pops_min_timestamp = map_answer packet (Window.pop_min_timestamp u)
specify u peeks_min_seqnum = some (packet (Window.peek_min_seqnum u), u)
specify u pops_min_seqnum = map_answer packet (Window.pop_min_seqnum u)

-- The nodes of the list after the call.
unfoldable pub after : Window → List Item → Call → List Item
unfolding restamp
after u xs (pushes fresh p v) =
    if Window.full u
    then xs
    else if fresh == null
    then xs
    else record { at = fresh; pkt = p; val = v } ∷ xs
after u xs (updates_timestamp old new) = restamp old new xs
after u xs (pops_timestamp t) = erase_at xs (Window.match_timestamp u t)
after u xs pops_min_timestamp = erase_at xs (Window.find_min_timestamp u)
after u xs pops_min_seqnum = erase_at xs (Window.find_min_seqnum u)
after u xs other = xs

-- `calloc` returns NULL or what is not allocated; the packet is allocated, and not in the buffer.
abbrev pub Fits : Memory → List Item → Call → Type 0
Fits m xs (pushes fresh p v) =
    ((fresh ≡ null) ⊎ (m.nodes fresh ≡ none))
    × (p ≢ null)
    × (m.packets p ≡ some v)
    × (has_packet p xs ≡ false)
Fits m xs other = Unit {0}

-- A pointer is NULL where there is no packet; else the packet is there.
abbrev pub Points : Memory → Pointer → Option Pkt → Type 0
Points m p none = p ≡ null
Points m p (some v) = (p ≢ null) × (m.packets p ≡ some v)

abbrev pub Agrees : Memory → Answer Pointer → Answer (Option Pkt) → Type 0
Agrees m nothing nothing = Unit {0}
Agrees m (code c) (code d) = c ≡ d
Agrees m (packet p) (packet v) = Points m p v
Agrees m _ _ = ⊥

-- The command returns `r`, up to addresses, and the window is `u` with the nodes `ys`. Nodes that
-- leave the list are freed; no other node, and no packet outside the buffer, is changed.
pub record Follows (m : Memory) (xs ys : List Item) (c : Cmd (Answer Pointer × LinkedWindow))
    (r : Answer (Option Pkt)) (u : Window) : Type 0 where
  pub memory : Memory
  pub window : LinkedWindow
  pub answer : Answer Pointer
  pub returned : c m ≡ returns ((answer, window), memory)
  pub linked : IsLinked memory window ys
  pub viewed : view window ys ≡ u
  pub agrees : Agrees memory answer r
  pub nodes :
      (a : Pointer)
      → has_node a ys ≡ false
      → memory.nodes a ≡ (if has_node a xs then none else m.nodes a)
  pub packets : (a : Pointer) → has_packet a xs ≡ false → memory.packets a ≡ m.packets a

-- A call ends as it does on the list of packets.
abbrev pub Refines :
    Memory → LinkedWindow → List Item → Call → Option (Answer (Option Pkt) × Window) → Type 0
Refines m w xs c none = perform w c m ≡ aborts
Refines m w xs c (some (r, u)) = Follows m xs (after (view w xs) xs c) (perform w c) r u
