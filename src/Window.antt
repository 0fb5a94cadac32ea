-- ===== src/Window.antt =====
-- src/window.c and src/window.h: the sliding window with its buffer of packets.
--
-- `Window` is `struct window`. The linked list from `front` is the list of its packets in order, so
-- a `struct node **` is the number of links followed to reach it, and it points to NULL at the end
-- of the list. A pointer to a packet of the buffer is its position too. `size_t` has 64 bits.
-- `none` is NULL, and `failed` is the return of -1.
pub mod Search
pub mod Invariant
pub mod Buffer
pub mod Range
pub mod Least
pub mod Contract
pub mod Promises
pub mod Nodes
pub mod Implements
mod Tests
use lossless_transport.Common.{
  ℕ, ◌+◌, ◌%◌, Bool, false, ◌||◌, ◌&&◌, not, Option, none, some, List, [], ◌∷◌, ltb, leb, ◌==◌,
  if◌then◌else◌, get_elem?, erase_at, add_size, sub_size,
}
use lossless_transport.Packet.{Pkt, get_seqnum, get_timestamp, set_timestamp}

pub record Window : Type 0 where
  pub max_seqnum : ℕ
  pub capacity : ℕ
  pub size : ℕ
  pub pos : ℕ
  pub bufsize : ℕ
  pub front : List Pkt

-- The `int` results: 0 and -1
pub data Code : Type 0 where
  done failed : Code

-- The last argument of `create` says whether `calloc` succeeds.
unfoldable pub create : ℕ → ℕ → ℕ → Bool → Option Window
create size max_size max_seqnum allocated =
    if ltb max_size size
    then none
    else if not allocated
    then none
    else some (record {
      max_seqnum = max_seqnum;
      capacity = max_size;
      size = size;
      pos = 0;
      bufsize = 0;
      front = [];
    })

unfoldable pub start : Window → ℕ
start w = w.pos

unfoldable pub end : Window → ℕ
end w = add_size w.pos (sub_size w.size 1) % add_size w.max_seqnum 1

unfoldable pub slide : Window → Window
slide w = record w { pos = add_size w.pos 1 % add_size w.max_seqnum 1 }

-- `none` is the failure of the assertion, which aborts the program.
unfoldable pub slide_to : Window → ℕ → Option Window
slide_to w pos = if leb pos w.max_seqnum then some (record w { pos = pos }) else none

unfoldable pub has : Window → ℕ → Bool
has w seqnum =
    if w.size == 0
    then false
    else if ltb (end w) (start w)
    then leb (start w) seqnum || leb seqnum (end w)
    else leb (start w) seqnum && leb seqnum (end w)

unfoldable pub resize : Window → ℕ → Code × Window
resize w new_size =
    if ltb w.capacity new_size then (failed, w) else (done, record w { size = new_size })

unfoldable pub get_max_size : Window → ℕ
get_max_size w = w.capacity

unfoldable pub get_size : Window → ℕ
get_size w = w.size

unfoldable pub available : Window → ℕ
available w = if ltb w.size w.bufsize then 0 else sub_size w.size w.bufsize

unfoldable pub buffer_size : Window → ℕ
buffer_size w = w.bufsize

unfoldable pub empty : Window → Bool
empty w = w.bufsize == 0

unfoldable pub full : Window → Bool
full w = (w.bufsize == w.capacity) || leb w.size w.bufsize

-- The last argument says whether `calloc` succeeds.
unfoldable pub push : Window → Pkt → Bool → Code × Window
push w pkt allocated =
    if full w
    then (failed, w)
    else if not allocated
    then (failed, w)
    else (done, record w { front = pkt ∷ w.front; bufsize = add_size w.bufsize 1 })

-- The position of the packet that `window_find_seqnum` returns, counted from `cur`.
unfoldable pub find_from : ℕ → ℕ → List Pkt → Option ℕ
find_from seqnum cur [] = none
find_from seqnum cur (p ∷ ps) =
    if get_seqnum p == seqnum then some cur else find_from seqnum (cur + 1) ps

unfoldable pub find_seqnum : Window → ℕ → Option ℕ
find_seqnum w seqnum = find_from seqnum 0 w.front

-- The list with the timestamp updated, or `none` if no packet matches.
unfoldable pub update_from : ℕ → ℕ → List Pkt → Option (List Pkt)
update_from old new [] = none
update_from old new (p ∷ ps) =
    let rest = update_from old new ps in
    if get_timestamp p == old
    then some ((set_timestamp p new).1 ∷ ps)
    else elim rest [ none ↦ none | some qs ↦ some (p ∷ qs) ]

unfoldable pub update_timestamp : Window → ℕ → ℕ → Code × Window
update_timestamp w old new = elim (update_from old new w.front) [
  | none ↦ (failed, w)
  | some ps ↦ (done, record w { front = ps })
]

-- `node` is a position; the packet there is unlinked and returned.
unfoldable pub pop_node : Window → ℕ → Option Pkt × Window
pop_node w node = elim (get_elem? w.front node) [
  | none ↦ (none, w)
  | some p ↦ (some p, record w { front = erase_at w.front node; bufsize = sub_size w.bufsize 1 })
]

-- The loop of `window_pop_timestamp`: `match` is the first position of a match, else what it was.
unfoldable pub match_from : ℕ → List Pkt → ℕ → ℕ → ℕ
match_from timestamp [] cur match = match
match_from timestamp (p ∷ ps) cur match =
    if get_timestamp p == timestamp then cur else match_from timestamp ps (cur + 1) match

unfoldable pub match_timestamp : Window → ℕ → ℕ
match_timestamp w timestamp = match_from timestamp w.front 0 0

unfoldable pub pop_timestamp : Window → ℕ → Option Pkt × Window
pop_timestamp w timestamp = pop_node w (match_timestamp w timestamp)

-- The loop of `window_find_min_timestamp` and `window_find_min_seqnum`, by the field they read:
-- `min` is a position, `least` the value of the field there.
unfoldable pub min_from : (Pkt → ℕ) → List Pkt → ℕ → ℕ → ℕ → ℕ
min_from key [] cur min least = min
min_from key (p ∷ ps) cur min least =
    let better = ltb (key p) least in
    min_from key ps (cur + 1) (if better then cur else min) (if better then key p else least)

-- At the first node `cur` and `min` are the same.
unfoldable pub find_min : (Pkt → ℕ) → List Pkt → ℕ
find_min key [] = 0
find_min key (p ∷ ps) = min_from key (p ∷ ps) 0 0 (key p)

unfoldable pub find_min_timestamp : Window → ℕ
find_min_timestamp w = find_min get_timestamp w.front

unfoldable pub peek_min_timestamp : Window → Option Pkt
peek_min_timestamp w = get_elem? w.front (find_min_timestamp w)

unfoldable pub pop_min_timestamp : Window → Option Pkt × Window
pop_min_timestamp w = pop_node w (find_min_timestamp w)

unfoldable pub find_min_seqnum : Window → ℕ
find_min_seqnum w = find_min get_seqnum w.front

unfoldable pub peek_min_seqnum : Window → Option Pkt
peek_min_seqnum w = get_elem? w.front (find_min_seqnum w)

unfoldable pub pop_min_seqnum : Window → Option Pkt × Window
pop_min_seqnum w = pop_node w (find_min_seqnum w)
