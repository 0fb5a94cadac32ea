-- ===== src/Window/Implements.antt =====
-- src/window.c implements what src/window.h declares.
use lossless_transport.Common.{ℕ, Option, none, some, get_elem?}
use lossless_transport.Packet.{Pkt}
use lossless_transport.Window
use lossless_transport.Window.{Window, Code, find_min}
use lossless_transport.Window.Contract.{Operations}

-- The packet that `window_find_seqnum` points to.
abbrev found : Window → ℕ → Option Pkt
found w s = elim (Window.find_seqnum w s) [ none ↦ none | some i ↦ get_elem? w.front i ]

abbrev pub operations : Operations Window
operations = record {
  create = Window.create;
  start = Window.start;
  end = Window.end;
  slide = Window.slide;
  slide_to = Window.slide_to;
  has = Window.has;
  resize = Window.resize;
  get_max_size = Window.get_max_size;
  get_size = Window.get_size;
  push = Window.push;
  available = Window.available;
  buffer_size = Window.buffer_size;
  empty = Window.empty;
  full = Window.full;
  find_seqnum = found;
  update_timestamp = Window.update_timestamp;
  pop_timestamp = Window.pop_timestamp;
  peek_min_timestamp = Window.peek_min_timestamp;
  pop_min_timestamp = Window.pop_min_timestamp;
  peek_min_seqnum = Window.peek_min_seqnum;
  pop_min_seqnum = Window.pop_min_seqnum;
}

abbrev got : Pkt → Option Pkt → Pkt
got p none = p
got p (some q) = q
