-- ===== src/Window/Nodes.antt =====
-- src/window.c on the nodes of its linked list.
--
-- A `Memory` holds the nodes and the packets that are allocated, by address; 0 is NULL. Reading or
-- freeing what is not allocated is a fault. The `struct window` itself is a value that the functions
-- return, so `free (w)` is left out. A `struct node **` is a `Place`: the field `front` of the window,
-- or the field `next` of a node. A walk takes one round for each node, and one more.
pub mod Linked
pub mod Walk
pub mod Unlink
pub mod Restamp
pub mod Free
pub mod Calls
pub mod Push
pub mod Take
pub mod Refine
pub mod Session
mod Tests
use lossless_transport.Common
use lossless_transport.Common.{
  ℕ, zero, suc, ◌+◌, ◌%◌, Bool, not, ◌||◌, Option, none, some, ◌==◌, ltb, leb, if◌then◌else◌,
  add_size, sub_size, Outcome, returns, exits, aborts, faults, spins,
}
use lossless_transport.Packet.{Pkt, get_seqnum, get_timestamp, set_timestamp}
use lossless_transport.Window.{Code, done, failed}

abbrev pub Pointer : Type 0
Pointer = ℕ

abbrev pub null : Pointer
null = 0

pub record Node : Type 0 where
  pub pkt : Pointer
  pub next : Pointer

pub record Memory : Type 0 where
  pub nodes : Pointer → Option Node
  pub packets : Pointer → Option Pkt

-- `struct window`
pub record LinkedWindow : Type 0 where
  pub max_seqnum : ℕ
  pub capacity : ℕ
  pub size : ℕ
  pub pos : ℕ
  pub bufsize : ℕ
  pub front : Pointer

-- A piece of a program over the memory, and how it ends.
abbrev pub Cmd : Type 0 → Type 0
Cmd A = Memory → Outcome (A × Memory)

abbrev pub pure : {A : Type 0} → A → Cmd A
pure a m = returns (a, m)

infixl 5 ◌>>=◌ ◌>>◌
abbrev pub ◌>>=◌ : {A B : Type 0} → Cmd A → (A → Cmd B) → Cmd B
◌>>=◌ c k m = Common.◌>>=◌ (c m) (λ (a, m'). k a m')

abbrev pub ◌>>◌ : {A B : Type 0} → Cmd A → Cmd B → Cmd B
c >> d = c >>= λ _. d

-- The store with another content at one address.
unfoldable pub put : {A : Type 0} → (Pointer → Option A) → Pointer → Option A → Pointer → Option A
put h p c a = if a == p then c else h a

abbrev found : {A : Type 0} → Option A → Cmd A
found none m = faults
found (some a) m = returns (a, m)

unfoldable pub load_node : Pointer → Cmd Node
load_node p m = if p == null then faults else found (m.nodes p) m

unfoldable pub load_packet : Pointer → Cmd Pkt
load_packet p m = if p == null then faults else found (m.packets p) m

abbrev pub store_node : Pointer → Option Node → Cmd (Unit {0})
store_node p c m = returns (tt, record m { nodes = put m.nodes p c })

abbrev pub store_packet : Pointer → Pkt → Cmd (Unit {0})
store_packet p c m = returns (tt, record m { packets = put m.packets p (some c) })

unfoldable pub free_node : Pointer → Cmd (Unit {0})
free_node p = load_node p >> store_node p none

pub data Place : Type 0 where
  front_field : Place
  next_field : Pointer → Place

-- `*place`
unfoldable pub fetch : LinkedWindow → Place → Cmd Pointer
fetch w front_field = pure w.front
fetch w (next_field p) = do n ← load_node p; pure n.next

-- `*place = q`
unfoldable pub assign : LinkedWindow → Place → Pointer → Cmd LinkedWindow
assign w front_field q = pure (record w { front = q })
assign w (next_field p) q = do n ← load_node p; store_node p (some (record n { next = q })); pure w

-- `allocated` says whether `calloc` succeeds.
unfoldable pub window_create :
    (size max_size max_seqnum : ℕ) (allocated : Bool) → Option LinkedWindow
window_create size max_size max_seqnum allocated =
    if ltb max_size size
    then none
    else if not allocated
    then none
    else some (record {
      max_seqnum = max_seqnum;
      capacity = max_size;
      size = size;
      pos = 0;
      bufsize = 0;
      front = null;
    })

unfoldable pub window_slide : LinkedWindow → LinkedWindow
window_slide w = record w { pos = add_size w.pos 1 % add_size w.max_seqnum 1 }

unfoldable pub window_slide_to : LinkedWindow → ℕ → Cmd LinkedWindow
window_slide_to w pos = if leb pos w.max_seqnum then pure (record w { pos = pos }) else λ _. aborts

unfoldable pub window_resize : LinkedWindow → ℕ → Code × LinkedWindow
window_resize w new_size =
    if ltb w.capacity new_size then (failed, w) else (done, record w { size = new_size })

unfoldable pub free_loop : ℕ → Pointer → Cmd (Unit {0})
free_loop zero cur = λ _. spins
free_loop (suc k) cur =
    if cur == null then pure tt else do n ← load_node cur; free_node cur; free_loop k n.next

unfoldable pub window_free : LinkedWindow → Cmd (Unit {0})
window_free w = free_loop (w.bufsize + 1) w.front

unfoldable pub window_full : LinkedWindow → Bool
window_full w = (w.bufsize == w.capacity) || leb w.size w.bufsize

-- `fresh` is what `calloc` returns.
unfoldable pub window_push : Pointer → LinkedWindow → Pointer → Cmd (Code × LinkedWindow)
window_push fresh w pkt =
    if window_full w then pure (failed, w) else if fresh == null then pure (failed, w) else do
      store_node fresh (some (record { pkt = pkt; next = w.front }))
      pure (done, record w { front = fresh; bufsize = add_size w.bufsize 1 })

unfoldable pub find_loop : ℕ → ℕ → Pointer → Cmd Pointer
find_loop seqnum zero cur = λ _. spins
find_loop seqnum (suc k) cur = if cur == null then pure null else do
  n ← load_node cur
  p ← load_packet n.pkt
  if get_seqnum p == seqnum then pure n.pkt else find_loop seqnum k n.next

unfoldable pub window_find_seqnum : LinkedWindow → ℕ → Cmd Pointer
window_find_seqnum w seqnum = find_loop seqnum (w.bufsize + 1) w.front

unfoldable pub update_loop : ℕ → ℕ → ℕ → Pointer → Cmd Code
update_loop old new zero cur = λ _. spins
update_loop old new (suc k) cur = if cur == null then pure failed else do
  n ← load_node cur
  p ← load_packet n.pkt
  let hit = store_packet n.pkt (set_timestamp p new).1 >> pure done
  if get_timestamp p == old then hit else update_loop old new k n.next

unfoldable pub window_update_timestamp : LinkedWindow → ℕ → ℕ → Cmd Code
window_update_timestamp w old new = update_loop old new (w.bufsize + 1) w.front

unfoldable pub window_pop_node : LinkedWindow → Place → Cmd (Pointer × LinkedWindow)
window_pop_node w node = do
  tmp ← fetch w node
  if tmp == null then pure (null, w) else do
    n ← load_node tmp
    w' ← assign w node n.next
    free_node tmp
    pure (n.pkt, record w' { bufsize = sub_size w'.bufsize 1 })

unfoldable pub match_loop : ℕ → ℕ → LinkedWindow → Place → Place → Cmd Place
match_loop timestamp zero w cur match = λ _. spins
match_loop timestamp (suc k) w cur match = do
  at ← fetch w cur
  if at == null then pure match else do
    n ← load_node at
    p ← load_packet n.pkt
    if get_timestamp p == timestamp
        then pure cur
        else match_loop timestamp k w (next_field at) match

unfoldable pub window_pop_timestamp : LinkedWindow → ℕ → Cmd (Pointer × LinkedWindow)
window_pop_timestamp w timestamp =
    match_loop timestamp (w.bufsize + 1) w front_field front_field >>= window_pop_node w

-- The loop of `window_find_min_timestamp` and `window_find_min_seqnum`, by the field they read.
unfoldable pub min_loop : (Pkt → ℕ) → ℕ → LinkedWindow → Place → Place → Cmd Place
min_loop key zero w cur min = λ _. spins
min_loop key (suc k) w cur min = do
  at ← fetch w cur
  if at == null then pure min else do
    n ← load_node at
    p ← load_packet n.pkt
    least ← fetch w min
    n' ← load_node least
    p' ← load_packet n'.pkt
    min_loop key k w (next_field at) (if ltb (key p) (key p') then cur else min)

unfoldable pub window_find_min : (Pkt → ℕ) → LinkedWindow → Cmd Place
window_find_min key w = min_loop key (w.bufsize + 1) w front_field front_field

unfoldable pub window_peek_min : (Pkt → ℕ) → LinkedWindow → Cmd Pointer
window_peek_min key w = do
  min ← window_find_min key w
  least ← fetch w min
  if least == null then pure null else do n ← load_node least; pure n.pkt

unfoldable pub window_pop_min : (Pkt → ℕ) → LinkedWindow → Cmd (Pointer × LinkedWindow)
window_pop_min key w = window_find_min key w >>= window_pop_node w
