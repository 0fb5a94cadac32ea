-- ===== src/Window/Contract.antt =====
-- src/window.h: the functions that it declares, and what its comments promise of them.
use lossless_transport.Common.{
  ℕ, ◌+◌, ◌-◌, ◌%◌, ◌^◌, ◌<◌, ◌≤◌, ◌≡◌, ◌↔◌, ◌⊎◌, Bool, true, false, Option, none, some, List, [],
  ◌∷◌, length, set,
}
use mathlib.Core.List.{Perm}
use lossless_transport.Packet.{Pkt, get_seqnum, get_timestamp, set_timestamp}
use lossless_transport.Window.{Code, done, failed}
use lossless_transport.Window.Search.{IsAbsent, IsFirst}
use lossless_transport.Window.Least.{IsLeast}

-- The functions over windows of a type `W`. A function that changes `*w` returns the new window;
-- the last argument of `create` and of `push` says whether memory is there. `none` stands for NULL,
-- and at `slide_to` for a failed assertion.
pub record Operations (W : Type 0) : Type 0 where
  pub create : ℕ → ℕ → ℕ → Bool → Option W
  pub start : W → ℕ
  pub end : W → ℕ
  pub slide : W → W
  pub slide_to : W → ℕ → Option W
  pub has : W → ℕ → Bool
  pub resize : W → ℕ → Code × W
  pub get_max_size : W → ℕ
  pub get_size : W → ℕ
  pub push : W → Pkt → Bool → Code × W
  pub available : W → ℕ
  pub buffer_size : W → ℕ
  pub empty : W → Bool
  pub full : W → Bool
  pub find_seqnum : W → ℕ → Option Pkt
  pub update_timestamp : W → ℕ → ℕ → Code × W
  pub pop_timestamp : W → ℕ → Option Pkt × W
  pub peek_min_timestamp : W → Option Pkt
  pub pop_min_timestamp : W → Option Pkt × W
  pub peek_min_seqnum : W → Option Pkt
  pub pop_min_seqnum : W → Option Pkt × W

-- The packet with the minimum is returned, and removed by the pop only; NULL on an empty buffer.
pub record TakesLeast (key : Pkt → ℕ) (before : List Pkt) (peeked : Option Pkt)
    (popped : Option Pkt) (after : List Pkt) : Type 0 where
  pub nothing : length before ≡ 0 → (peeked ≡ none) × (popped ≡ none) × (after ≡ before)
  pub least :
      0 < length before
      → (i : ℕ) × (p : Pkt) × IsLeast key before i p
        × (peeked ≡ some p)
        × (popped ≡ some p)
        × Perm before (p ∷ after)

-- What the comments promise of windows that satisfy `Inv`; `buffer` is the content of the internal
-- buffer, `modulus` the number of sequence numbers. The promise that `window_pop_timestamp` returns
-- NULL where no packet matches is not among them. The comment on `window_full`, that it reports
-- whether the buffer can receive more packets, says the opposite of its name and of the comment on
-- `window_push`; `full_reports` and `push_full` are by the latter two.
pub record Keeps {W : Type 0} (o : Operations W) (Inv : W → Type 0) (buffer : W → List Pkt)
    (modulus : W → ℕ) : Type 0 where
  pub create_too_large :
      (size max_size max_seqnum : ℕ) (b : Bool)
      → max_size < size
      → o.create size max_size max_seqnum b ≡ none
  pub create_out_of_memory :
      (size max_size max_seqnum : ℕ) → o.create size max_size max_seqnum false ≡ none
  pub create_new :
      (size max_size max_seqnum : ℕ)
      → size ≤ max_size
      → max_seqnum + 1 < 2 ^ 63
      → max_size ≤ max_seqnum + 1
      → (w : W) × (o.create size max_size max_seqnum true ≡ some w)
        × Inv w
        × (o.get_size w ≡ size)
        × (o.get_max_size w ≡ max_size)
        × (o.start w ≡ 0)
        × (buffer w ≡ [])
        × (modulus w ≡ max_seqnum + 1)
  pub start_first : (w : W) → Inv w → 0 < o.get_size w → o.has w (o.start w) ≡ true
  pub end_last :
      (w : W)
      → Inv w
      → 0 < o.get_size w
      → (o.has w (o.end w) ≡ true) × (o.end w ≡ (o.start w + (o.get_size w - 1)) % modulus w)
  pub slide_unit :
      (w : W)
      → Inv w
      → (o.start (o.slide w) ≡ (o.start w + 1) % modulus w)
        × (o.get_size (o.slide w) ≡ o.get_size w)
        × (buffer (o.slide w) ≡ buffer w)
  pub slide_to_position :
      (w : W) (pos : ℕ)
      → pos < modulus w
      → (u : W) × (o.slide_to w pos ≡ some u) × (o.start u ≡ pos) × (buffer u ≡ buffer w)
  pub has_range :
      (w : W) (s : ℕ)
      → Inv w
      → s < modulus w
      → (o.has w s ≡ true) ↔ ((k : ℕ) × (k < o.get_size w) × ((o.start w + k) % modulus w ≡ s))
  pub resize_too_large : (w : W) (n : ℕ) → o.get_max_size w < n → o.resize w n ≡ (failed, w)
  pub resize_fits :
      (w : W) (n : ℕ)
      → n ≤ o.get_max_size w
      → ((o.resize w n).0 ≡ done)
        × (o.get_size (o.resize w n).1 ≡ n)
        × (buffer (o.resize w n).1 ≡ buffer w)
  pub push_full :
      (w : W) (p : Pkt) (b : Bool) → Inv w → o.full w ≡ true → o.push w p b ≡ (failed, w)
  pub push_out_of_memory : (w : W) (p : Pkt) → Inv w → o.push w p false ≡ (failed, w)
  pub push_new :
      (w : W) (p : Pkt)
      → Inv w
      → o.full w ≡ false
      → ((o.push w p true).0 ≡ done) × Perm (buffer (o.push w p true).1) (p ∷ buffer w)
  pub available_slots :
      (w : W)
      → Inv w
      → length (buffer w) ≤ o.get_size w
      → o.available w + length (buffer w) ≡ o.get_size w
  pub available_none : (w : W) → Inv w → o.get_size w < length (buffer w) → o.available w ≡ 0
  pub buffer_size_counts : (w : W) → Inv w → o.buffer_size w ≡ length (buffer w)
  pub empty_reports : (w : W) → Inv w → (o.empty w ≡ true) ↔ (length (buffer w) ≡ 0)
  pub full_reports : (w : W) → Inv w → (o.full w ≡ true) ↔ (o.available w ≡ 0)
  pub find_seqnum_finds :
      (w : W) (s : ℕ)
      → (IsAbsent get_seqnum s (buffer w) × (o.find_seqnum w s ≡ none))
        ⊎ ((i : ℕ) × (p : Pkt) × IsFirst get_seqnum s (buffer w) i p × (o.find_seqnum w s ≡ some p))
  pub update_timestamp_updates :
      (w : W) (old new : ℕ)
      → (IsAbsent get_timestamp old (buffer w) × (o.update_timestamp w old new ≡ (failed, w)))
        ⊎ ((i : ℕ) × (p : Pkt) × IsFirst get_timestamp old (buffer w) i p
            × ((o.update_timestamp w old new).0 ≡ done)
            × (buffer (o.update_timestamp w old new).1 ≡ set (buffer w) i (set_timestamp p new).1))
  pub pop_timestamp_pops :
      (w : W) (t i : ℕ) (p : Pkt)
      → Inv w
      → IsFirst get_timestamp t (buffer w) i p
      → ((o.pop_timestamp w t).0 ≡ some p) × Perm (buffer w) (p ∷ buffer (o.pop_timestamp w t).1)
  pub min_timestamp :
      (w : W)
      → Inv w
      → TakesLeast get_timestamp
          (buffer w)
          (o.peek_min_timestamp w)
          (o.pop_min_timestamp w).0
          (buffer (o.pop_min_timestamp w).1)
  pub min_seqnum :
      (w : W)
      → Inv w
      → TakesLeast get_seqnum
          (buffer w)
          (o.peek_min_seqnum w)
          (o.pop_min_seqnum w).0
          (buffer (o.pop_min_seqnum w).1)
