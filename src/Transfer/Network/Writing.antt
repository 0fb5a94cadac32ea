-- ===== src/Transfer/Network/Writing.antt =====
-- src/receiver.c over any network: what it writes is always the next of the file.
use lossless_transport.Common.{
  ℕ, ◌+◌, ◌*◌, ◌%◌, ◌<◌, ◌≤◌, ◌≡◌, ◌==◌, refl, sym, ap, ◌∙◌, inl, inr, not, ◌||◌, List, ◌++◌, ltb,
  length, take, get_elem?, arith, Bool-cases, Option-cases, append-nil, check, assert,
  OnReturn-after, if◌then◌else◌, add_size,
}
use lossless_transport.Packet.{Pkt, get_seqnum, get_length, get_timestamp, max_payload_size}
use lossless_transport.Window
use lossless_transport.Window.{Window, Code, done, failed, pop_node}
use lossless_transport.Receiver.{Receiver, deliver, written_bytes}
use lossless_transport.Receiver.Keeps.{IsKept}
use lossless_transport.Sender.Ack.{All, All-elim}
use lossless_transport.Sender.Flight.{pop_node-All}
use lossless_transport.Transfer.Network.{chunk}
use lossless_transport.Transfer.Network.Chunks.{take-chunk, chunk-nil, chunk-start}

-- The packet holds the bytes of the file that belong under its number.
pub record IsGenuine (infile : List ℕ) (p : Pkt) : Type 0 where
  pub loaded : written_bytes p ≡ chunk infile (get_seqnum p)
  pub sized : get_length p ≡ length (chunk infile (get_seqnum p))

abbrev pub before : List ℕ → ℕ → List ℕ
before infile k = take (max_payload_size * k) infile

-- The packets of the window hold bytes of the file, and the window starts after the last chunk.
pub record IsFilled (infile : List ℕ) (w : Window) : Type 0 where
  pub circle : w.max_seqnum ≡ 255
  pub within : max_payload_size * w.pos < length infile + max_payload_size
  pub buffer : All (IsGenuine infile) w.front

-- What is written is the file up to the chunk with the number at which the window starts.
pub record IsPrefix (infile : List ℕ) (r : Receiver) : Type 0 where
  pub window : IsFilled infile r.w
  pub written : r.out ≡ before infile r.w.pos

-- A packet is unlinked, and no number changes.
pub record SameNumbers (w u : Window) : Type 0 where
  pub pos : u.pos ≡ w.pos
  pub max_seqnum : u.max_seqnum ≡ w.max_seqnum

pop_node-SameNumbers : (w : Window) (i : ℕ) → SameNumbers w (pop_node w i).1
unfolding pop_node
pop_node-SameNumbers w i = elim (Option-cases (get_elem? w.front i)) [
  | inl e ↦ rw (e, pop_node) (record { pos = refl; max_seqnum = refl })
  | inr (p, e) ↦ rw (e, pop_node) (record { pos = refl; max_seqnum = refl })
]

next_pos : (m pos k : ℕ) → m ≡ 255 → pos ≡ k → k < 255 → add_size pos 1 % add_size m 1 ≡ k + 1
next_pos m pos k e f l = rw (e, f) (omega arith)

module _ (infile : List ℕ) where
  pop_timestamp-IsFilled :
      (w : Window) (t : ℕ)
      → IsFilled infile w
      → SameNumbers w (Window.pop_timestamp w t).1 × IsFilled infile (Window.pop_timestamp w t).1
  unfolding Window.pop_timestamp
  pop_timestamp-IsFilled w t v =
      let i = Window.match_timestamp w t in
      let s = pop_node-SameNumbers w i in
      (
        s,
        record {
          circle = s.max_seqnum ∙ v.circle;
          within = omega (arith, s.pos, v.within);
          buffer = pop_node-All (IsGenuine infile) w i v.buffer;
        },
      )

  -- The window and the file after a packet was written, and unlinked in `w`.
  advanced :
      (r : Receiver) (w : Window) (p : Pkt)
      → length infile ≤ 255 * max_payload_size
      → IsPrefix infile r
      → SameNumbers r.w w
      → IsFilled infile w
      → IsGenuine infile p
      → get_seqnum p ≡ r.w.pos
      → IsPrefix infile (record {
        w = if get_length p == 0 then w else Window.slide w;
        out = r.out ++ written_bytes p;
      })
  unfolding Window.slide
  advanced r w p small v s f g n =
      let loaded = g.loaded ∙ ap (chunk infile) n in
      let sized = g.sized ∙ ap (λ k. length (chunk infile k)) n in
      let grows : r.out ++ written_bytes p ≡ before infile (r.w.pos + 1) =
        ap (◌++◌ r.out) loaded
        ∙ ap (λ (xs : List ℕ). xs ++ chunk infile r.w.pos) v.written
        ∙ take-chunk infile r.w.pos in
      elim (Bool-cases (get_length p == 0)) [
        | inl z ↦
            let nothing = chunk-nil infile r.w.pos (ap (λ k. k == 0) (sym sized) ∙ z) in
            let same = ap (◌++◌ r.out) (loaded ∙ nothing) ∙ append-nil r.out in
            rw z
              (record { window = f; written = same ∙ v.written ∙ ap (before infile) (sym s.pos) })
        | inr z ↦
            let more = chunk-start infile r.w.pos (ap (λ k. k == 0) (sym sized) ∙ z) in
            let next : add_size w.pos 1 % add_size w.max_seqnum 1 ≡ r.w.pos + 1 =
              next_pos w.max_seqnum w.pos r.w.pos f.circle s.pos (omega (arith, more, small)) in
            rw z (record {
              window = record {
                circle = f.circle;
                within = omega (arith, next, more);
                buffer = f.buffer;
              };
              written = grows ∙ ap (before infile) (sym next);
            })
      ]

  pub IsPrefix-IsKept :
      length infile ≤ 255 * max_payload_size → IsKept (IsPrefix infile) (IsGenuine infile)
  unfolding deliver
  IsPrefix-IsKept small = record {
    stores = λ r p v g h a. record {
      window = record {
        circle = v.window.circle;
        within = v.window.within;
        buffer = (g, v.window.buffer);
      };
      written = v.written;
    };
    delivers = λ io r i p v e n.
        let (s, f) = pop_timestamp-IsFilled r.w (get_timestamp p) v.window in
        let g = All-elim (IsGenuine infile) r.w.front i v.window.buffer e in
        OnReturn-after (IsPrefix infile) (check (io.written || not (ltb 0 (get_length p)))) _ λ u.
          OnReturn-after (IsPrefix infile)
            (assert (Window.match_timestamp r.w (get_timestamp p) == i)) _
            λ u'. advanced r (Window.pop_timestamp r.w (get_timestamp p)).1 p small v s f g n;
  }
