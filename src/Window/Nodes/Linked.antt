-- ===== src/Window/Nodes/Linked.antt =====
-- The linked list of src/window.c in memory, and the buffer of packets that it stands for.
use lossless_transport.Common.{
  ℕ, zero, suc, ◌≡◌, ◌≢◌, refl, ap, Bool, false, ◌||◌, none, some, List, [], ◌∷◌, ◌==◌, arith,
  get_elem?, erase_at, length, returns,
}
use lossless_transport.Packet.{Pkt}
use lossless_transport.Window.{Window}
use lossless_transport.Window.Nodes.{
  Pointer, null, Node, Memory, LinkedWindow, load_node, load_packet, free_node, put,
}

-- A node of the list: its address, the address of its packet, and the packet there.
pub record Item : Type 0 where
  pub at : Pointer
  pub pkt : Pointer
  pub val : Pkt

abbrev pub vals : List Item → List Pkt
vals [] = []
vals (c ∷ xs) = c.val ∷ vals xs

abbrev pub first : List Item → Pointer
first [] = null
first (c ∷ xs) = c.at

-- Whether a node, or the packet of a node, is at the address.
abbrev pub has_node : Pointer → List Item → Bool
has_node a [] = false
has_node a (c ∷ xs) = (a == c.at) || has_node a xs

abbrev pub has_packet : Pointer → List Item → Bool
has_packet a [] = false
has_packet a (c ∷ xs) = (a == c.pkt) || has_packet a xs

abbrev pub node : Pointer → Pointer → Node
node p q = record { pkt = p; next = q }

-- The node and its packet are allocated, and `q` is the next node.
pub record Holds (m : Memory) (c : Item) (q : Pointer) : Type 0 where
  pub at_ne_null : c.at ≢ null
  pub pkt_ne_null : c.pkt ≢ null
  pub node_at : m.nodes c.at ≡ some (node c.pkt q)
  pub packet_at : m.packets c.pkt ≡ some c.val

-- The nodes follow each other up to NULL, no two are one, and no two have one packet.
abbrev pub Chain : Memory → List Item → Type 0
Chain m [] = Unit {0}
Chain m (c ∷ xs) =
    Holds m c (first xs) × (has_node c.at xs ≡ false) × (has_packet c.pkt xs ≡ false) × Chain m xs

module _ {m : Memory} {c : Item} {q : Pointer} (h : Holds m c q) where
  pub at_not_null : (c.at == null) ≡ false
  at_not_null = let n = h.at_ne_null in ground arith

  pub pkt_not_null : (c.pkt == null) ≡ false
  pkt_not_null = let n = h.pkt_ne_null in ground arith

  pub load_node-Holds : load_node c.at m ≡ returns (node c.pkt q, m)
  unfolding load_node
  load_node-Holds = rw (at_not_null, h.node_at)

  pub load_packet-Holds : load_packet c.pkt m ≡ returns (c.val, m)
  unfolding load_packet
  load_packet-Holds = rw (pkt_not_null, h.packet_at)

  pub free_node-Holds : free_node c.at m ≡ returns (tt, record m { nodes = put m.nodes c.at none })
  unfolding free_node
  free_node-Holds = rw load_node-Holds

-- The list stays where memory changes outside its nodes and packets only.
pub Chain-frame :
    (m m' : Memory) (xs : List Item)
    → Chain m xs
    → ((a : Pointer) → has_node a xs ≢ false → m'.nodes a ≡ m.nodes a)
    → ((a : Pointer) → has_packet a xs ≢ false → m'.packets a ≡ m.packets a)
    → Chain m' xs
Chain-frame m m' [] h n p = tt
Chain-frame m m' (c ∷ xs) h n p = (
  ground (arith, n c.at, p c.pkt),
  h.1,
  h.2,
  Chain-frame m m' xs h.3 (λ a i. n a (ground arith)) (λ a i. p a (ground arith)),
)

-- Nothing that is not allocated is in the list.
pub has_node-none :
    (m : Memory) (xs : List Item) (a : Pointer)
    → Chain m xs
    → m.nodes a ≡ none
    → has_node a xs ≡ false
has_node-none m [] a h e = refl
has_node-none m (c ∷ xs) a h e = ground (arith, has_node-none m xs a h.3)

pub has_node-erase_at :
    (xs : List Item) (i : ℕ) (a : Pointer)
    → has_node a xs ≡ false
    → has_node a (erase_at xs i) ≡ false
has_node-erase_at [] i a h = refl
has_node-erase_at (c ∷ xs) zero a h = ground arith
has_node-erase_at (c ∷ xs) (suc i) a h = ground (arith, has_node-erase_at xs i a)

pub has_packet-erase_at :
    (xs : List Item) (i : ℕ) (a : Pointer)
    → has_packet a xs ≡ false
    → has_packet a (erase_at xs i) ≡ false
has_packet-erase_at [] i a h = refl
has_packet-erase_at (c ∷ xs) zero a h = ground arith
has_packet-erase_at (c ∷ xs) (suc i) a h = ground (arith, has_packet-erase_at xs i a)

pub vals-erase_at : (xs : List Item) (i : ℕ) → vals (erase_at xs i) ≡ erase_at (vals xs) i
vals-erase_at [] i = refl
vals-erase_at (c ∷ xs) zero = refl
vals-erase_at (c ∷ xs) (suc i) = ap (◌∷◌ c.val) (vals-erase_at xs i)

pub get_elem?-vals :
    (xs : List Item) (i : ℕ) {c : Item}
    → get_elem? xs i ≡ some c
    → get_elem? (vals xs) i ≡ some c.val
get_elem?-vals [] i e = cc
get_elem?-vals (d ∷ xs) zero {c} e = ground arith
get_elem?-vals (d ∷ xs) (suc i) e = get_elem?-vals xs i e

pub get_elem?-vals-none :
    (xs : List Item) (i : ℕ) → get_elem? xs i ≡ none → get_elem? (vals xs) i ≡ none
get_elem?-vals-none [] i e = refl
get_elem?-vals-none (d ∷ xs) zero e = cc
get_elem?-vals-none (d ∷ xs) (suc i) e = get_elem?-vals-none xs i e

pub length-vals : (xs : List Item) → length (vals xs) ≡ length xs
length-vals [] = refl
length-vals (c ∷ xs) = ap suc (length-vals xs)

-- The window of the model of lists.
abbrev pub view : LinkedWindow → List Item → Window
view w xs = record {
  max_seqnum = w.max_seqnum;
  capacity = w.capacity;
  size = w.size;
  pos = w.pos;
  bufsize = w.bufsize;
  front = vals xs;
}

pub record IsLinked (m : Memory) (w : LinkedWindow) (xs : List Item) : Type 0 where
  pub front : w.front ≡ first xs
  pub chain : Chain m xs
