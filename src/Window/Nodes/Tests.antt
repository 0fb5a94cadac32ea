-- ===== src/Window/Nodes/Tests.antt =====
-- The window on its nodes at concrete memories, and the theorems there.
use lossless_transport.Common.{
  ℕ, ◌≡◌, refl, inr, none, some, true, List, [], ◌∷◌, ◌==◌, arith, if◌then◌else◌, returns, htonl,
}
use lossless_transport.Packet.{Pkt, get_timestamp}
use lossless_transport.Window
use lossless_transport.Window.{done}
use lossless_transport.Window.Invariant.{IsSound}
use lossless_transport.Window.Nodes.{
  Pointer, Memory, LinkedWindow, load_node, load_packet, free_node, fetch, assign, window_full,
  window_create, window_free, window_push, window_pop_timestamp, window_pop_node, match_loop, put,
}
use lossless_transport.Window.Nodes.Linked.{Item, node, view, IsLinked}
use lossless_transport.Window.Nodes.Calls.{
  pushes, pops_timestamp, code, perform, specify, after, Refines,
}
use lossless_transport.Window.Nodes.Refine.{perform-Refines}
use lossless_transport.Window.Nodes.Session.{Reached, creates, calls, window_free-Reached}

abbrev packet : ℕ → ℕ → Pkt
packet seqnum timestamp = record {
  window = 0;
  tr = 0;
  type = 1;
  seqnum = seqnum;
  length = 0;
  timestamp = timestamp;
  crc1 = 0;
  crc2 = 0;
  payload = [];
}

-- The timestamps 2 and 1, as their words in memory
abbrev items : List Item
items =
    record { at = 10; pkt = 100; val = packet 1 33554432 }
    ∷ record { at = 20; pkt = 200; val = packet 252 16777216 }
    ∷ []

-- Two nodes and three packets
abbrev memory : Memory
memory = record {
  nodes = λ a. if a == 10 then some (node 100 20) else if a == 20 then some (node 200 0) else none;
  packets = λ a.
      if a == 100
      then some (packet 1 33554432)
      else if a == 200
      then some (packet 252 16777216)
      else if a == 300
      then some (packet 3 0)
      else none;
}

abbrev linked : LinkedWindow
linked = record { max_seqnum = 255; capacity = 31; size = 10; pos = 250; bufsize = 2; front = 10 }

linked-IsLinked : IsLinked memory linked items
linked-IsLinked = record { front = refl; chain = ground arith }

linked-IsSound : IsSound (view linked items)
linked-IsSound = omega arith

-- The second node is unlinked and freed.
pop_second :
    window_pop_timestamp linked 1 memory
    ≡ returns (
      (200, record linked { bufsize = 1 }),
      record memory { nodes = put (put memory.nodes 10 (some (node 100 0))) 20 none },
    )
unfolding window_pop_timestamp match_loop window_pop_node fetch assign load_node load_packet
    free_node get_timestamp htonl put
pop_second = refl

perform-Refines_example :
    Refines memory linked items (pops_timestamp 1) (specify (view linked items) (pops_timestamp 1))
perform-Refines_example =
    perform-Refines memory linked items (pops_timestamp 1) linked-IsLinked linked-IsSound tt

abbrev created : LinkedWindow
created = record { max_seqnum = 255; capacity = 31; size = 1; pos = 0; bufsize = 0; front = 0 }

abbrev pushed : LinkedWindow
pushed = record created { bufsize = 1; front = 30 }

-- A node at 30 for the packet at 300
abbrev filled : Memory
filled = record memory { nodes = put memory.nodes 30 (some (node 300 0)) }

abbrev pushed_items : List Item
pushed_items = record { at = 30; pkt = 300; val = packet 3 0 } ∷ []

create-created : window_create 1 31 255 true ≡ some created
unfolding window_create
create-created = refl

push-pushed :
    perform created (pushes 30 300 (packet 3 0)) memory ≡ returns ((code done, pushed), filled)
unfolding perform window_push window_full
push-pushed = refl

after-pushed : pushed_items ≡ after (view created []) [] (pushes 30 300 (packet 3 0))
unfolding after Window.full
after-pushed = refl

pushed-Reached : Reached memory filled pushed pushed_items
pushed-Reached =
    calls (pushes 30 300 (packet 3 0)) (creates 1 31 255 (omega arith) (omega arith) create-created)
      (inr refl, omega arith, refl, refl) push-pushed after-pushed

window_free-Reached_example :
    (g : Memory) × (window_free pushed filled ≡ returns (tt, g))
    × ((a : Pointer) → g.nodes a ≡ memory.nodes a)
    × (g.packets ≡ filled.packets)
window_free-Reached_example = window_free-Reached memory pushed-Reached
