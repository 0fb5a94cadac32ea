-- ===== src/Window/Tests.antt =====
-- The window's theorems at concrete windows.
use lossless_transport.Common.{
  ℕ, ◌<◌, ◌≤◌, ◌≡◌, ◌↔◌, ◌⊎◌, refl, none, some, List, [], ◌∷◌, arith, true, false, ℕ_discrete,
  dec_lt, htonl,
}
use lossless_transport.Packet.{Pkt, get_timestamp}
use lossless_transport.Window
use lossless_transport.Window.{
  Window, Code, done, failed, create, slide, slide_to, has, available, push, pop_timestamp,
  find_seqnum, find_min_timestamp, find_min_seqnum, peek_min_timestamp, peek_min_seqnum,
  pop_min_timestamp, pop_min_seqnum, update_timestamp,
}
use lossless_transport.Window.Search.{IsAbsent, IsFirst}
use lossless_transport.Window.Range.{IsRange, nth, has-nth, slide-has}
use lossless_transport.Window.Buffer.{IsValid, without, pop_timestamp-cases}
use lossless_transport.Window.Invariant.{
  IsSound, Op, pushes, slides, pops_timestamp, slides_to, step, run, reached-IsSound, SameShape,
}

-- A packet with a number and a timestamp, the latter as its word in memory.
abbrev packet : ℕ → ℕ → Pkt
packet seqnum timestamp = record {
  window = 0;
  tr = 0;
  type = 1;
  seqnum = seqnum;
  length = 0;
  timestamp = timestamp;
  crc1 = 0;
  crc2 = 0;
  payload = [];
}

-- 250 to 255, then 0 to 3, with two of them in the buffer
abbrev wrapped : Window
wrapped = record {
  max_seqnum = 255;
  capacity = 31;
  size = 10;
  pos = 250;
  bufsize = 2;
  front = packet 1 16777216 ∷ packet 252 33554432 ∷ [];
}

wrapped-IsValid : IsValid wrapped
wrapped-IsValid = omega arith

wrapped-IsSound : IsSound wrapped
wrapped-IsSound = omega arith

wrapped-IsRange : IsRange wrapped
wrapped-IsRange = omega arith

has-wrapped :
    (has wrapped 255 ≡ true)
    × (has wrapped 3 ≡ true)
    × (has wrapped 4 ≡ false)
    × (has wrapped 249 ≡ false)
unfolding has Window.end Window.start ℕ_discrete dec_lt
has-wrapped = (refl, refl, refl, refl)

pop_timestamp-cases_example :
    ((i : ℕ) × (p : Pkt) × IsFirst get_timestamp 9 wrapped.front i p
      × (pop_timestamp wrapped 9 ≡ (some p, without wrapped i)))
    ⊎ (((p : Pkt) × (ps : List Pkt) × IsAbsent get_timestamp 9 wrapped.front
          × (wrapped.front ≡ p ∷ ps)
          × (pop_timestamp wrapped 9 ≡ (some p, record wrapped { front = ps; bufsize = 1 })))
        ⊎ ((wrapped.front ≡ []) × (pop_timestamp wrapped 9 ≡ (none, wrapped))))
pop_timestamp-cases_example = pop_timestamp-cases wrapped 9 wrapped-IsValid

has-nth_example : (has wrapped 3 ≡ true) ↔ ((k : ℕ) × (k < 10) × (nth wrapped k ≡ 3))
has-nth_example = has-nth wrapped 3 wrapped-IsRange (omega arith)

slide-has_example :
    (has (slide wrapped) 4 ≡ true) ↔ ((k : ℕ) × (0 < k) × (k ≤ 10) × (nth wrapped k ≡ 4))
slide-has_example = slide-has wrapped 4 wrapped-IsRange (omega arith)

abbrev script : List Op
script = pushes (packet 2 0) true ∷ slides ∷ pops_timestamp 1 ∷ slides_to 3 ∷ []

abbrev created : Window
created = record { max_seqnum = 255; capacity = 31; size = 1; pos = 0; bufsize = 0; front = [] }

-- The packet popped is the one pushed, though its timestamp is another.
abbrev scripted : Window
scripted = record created { pos = 3 }

create-created : create 1 31 255 true ≡ some created
unfolding create ℕ_discrete dec_lt
create-created = refl

run-created : run created script ≡ some scripted
unfolding run step push slide slide_to pop_timestamp Window.full Window.match_timestamp
    Window.match_from Window.pop_node get_timestamp htonl ℕ_discrete dec_lt
run-created = refl

reached-IsSound_example : IsSound scripted × SameShape created scripted
reached-IsSound_example =
    reached-IsSound 1 31 255 true script (omega arith) (omega arith) create-created run-created
