-- ===== src/Receiver/Tidy.antt =====
-- The receiver's steps keep its buffer tidy: packets with different numbers, all of the window.
use lossless_transport.Common.{
  ℕ, zero, suc, ◌+◌, ◌%◌, ◌<◌, ◌≤◌, ◌≡◌, ◌≢◌, ◌==◌, sym, ap, ◌∙◌, inl, inr, true, false, not, ◌||◌,
  some, ◌∷◌, ltb, if◌then◌else◌, get_elem?, erase_at, arith, dec_lt, Bool-cases, check, assert,
  OnReturn, OnReturn-bind, OnReturn-after, OnReturn-assert,
}
use lossless_transport.Packet.{Pkt, get_seqnum, get_length, get_timestamp}
use lossless_transport.Window
use lossless_transport.Window.{Window, slide, done}
use lossless_transport.Window.Search.{IsAbsent}
use lossless_transport.Window.Range.{nth, has-nth, slide-has}
use lossless_transport.Window.Buffer.{without, pop_node-some, full-available}
use lossless_transport.Window.Invariant.{
  IsSound, IsSound-IsRange, slide-IsSound, without-IsSound, step, step-IsSound, pushes,
}
use lossless_transport.Receiver.{Receiver, Answers, deliver}
use lossless_transport.Receiver.Distinct.{IsDistinct-erase, IsDistinct-cons, get-erase_at}
use lossless_transport.Receiver.Keeps.{IsKept, pushed}
use lossless_transport.Receiver.Room.{IsTidy, IsTidy-room}

-- Without the packet at a position, the buffer does not hold its number.
others-differ :
    (w : Window) (i : ℕ) (p : Pkt)
    → IsTidy w
    → get_elem? w.front i ≡ some p
    → (j : ℕ) (q : Pkt) → get_elem? (erase_at w.front i) j ≡ some q
    → get_seqnum q ≢ get_seqnum p
others-differ w i p v e j q f same =
    let j' = if ltb j i then j else suc j in
    let one = v.distinct.one j' i q p (sym (get-erase_at w.front i j) ∙ f) e same in
    ground (arith, one)

without-IsTidy :
    (w : Window) (i : ℕ) (p : Pkt) → IsTidy w → get_elem? w.front i ≡ some p → IsTidy (without w i)
unfolding Window.has Window.start Window.end
without-IsTidy w i p v e = record {
  sound = without-IsSound w i v.sound e;
  distinct = IsDistinct-erase get_seqnum i v.distinct;
  inside = λ j q f. v.inside (if ltb j i then j else suc j) q (sym (get-erase_at w.front i j) ∙ f);
}

first_number : (pos m : ℕ) → pos ≤ m → (pos + 0) % (m + 1) ≡ pos
first_number pos m l = grind arith

-- A window that does not hold its first number can slide.
slide-IsTidy :
    (w : Window)
    → IsTidy w
    → ((j : ℕ) (q : Pkt) → get_elem? w.front j ≡ some q → get_seqnum q ≢ w.pos)
    → IsTidy (slide w)
unfolding slide
slide-IsTidy w v n =
    let range = IsSound-IsRange v.sound in
    record {
      sound = slide-IsSound v.sound;
      distinct = v.distinct;
      inside = λ j q e.
          let (l, h) = v.inside j q e in
          let (k, m, f) = (has-nth w (get_seqnum q) range l).0 h in
          let later : 0 < k = elim (dec_lt 0 k) [
            | yes y ↦ y
            | no y ↦
                let zero_k : k ≡ 0 = omega arith in
                let first : nth w 0 ≡ w.pos = first_number w.pos w.max_seqnum v.sound.pos_in in
                absurd (n j q e (sym f ∙ ap (nth w) zero_k ∙ first))
          ] in
          (l, (slide-has w (get_seqnum q) range l).1 (k, later, omega arith, f));
    }

slide-circle : (w : Window) → w.max_seqnum ≡ 255 → (slide w).max_seqnum ≡ 255
unfolding slide
slide-circle w e = e

-- The buffer is tidy, on the circle of the numbers of `uint8_t`.
pub record IsReceiving (r : Receiver) : Type 0 where
  pub tidy : IsTidy r.w
  pub circle : r.w.max_seqnum ≡ 255

abbrev pub IsByte : Pkt → Type 0
IsByte p = get_seqnum p ≤ 255

pushed-IsSound : (w : Window) (p : Pkt) → IsSound w → Window.full w ≡ false → IsSound (pushed w p)
unfolding step Window.push
pushed-IsSound w p v f = (step-IsSound w (pushes p true) {u = pushed w p} v (rw f)).0

deliver-IsReceiving :
    (io : Answers) (r : Receiver) (i : ℕ) (p : Pkt)
    → IsReceiving r
    → get_elem? r.w.front i ≡ some p
    → get_seqnum p ≡ r.w.pos
    → OnReturn IsReceiving (deliver io r i p)
unfolding deliver Window.pop_timestamp
deliver-IsReceiving io r i p v e n =
    let w = r.w in
    let u = without w i in
    let tidy = without-IsTidy w i p v.tidy e in
    OnReturn-after IsReceiving (check (io.written || not (ltb 0 (get_length p)))) _ λ x.
      OnReturn-bind (λ y. (Window.match_timestamp w (get_timestamp p) == i) ≡ true) IsReceiving
        (assert (Window.match_timestamp w (get_timestamp p) == i)) _ (OnReturn-assert _)
        λ y a.
          let at : Window.match_timestamp w (get_timestamp p) ≡ i = ground arith in
          rw (at, pop_node-some w i v.tidy.sound.buffer e)
            (elim (Bool-cases (get_length p == 0)) [
              | inl z ↦ rw z (record { tidy = tidy; circle = v.circle })
              | inr z ↦ rw z (record {
                tidy =
                    slide-IsTidy u tidy (λ j q f k. others-differ w i p v.tidy e j q f (k ∙ sym n));
                circle = slide-circle u v.circle;
              })
            ])

not-full :
    (w : Window) (p : Pkt)
    → IsTidy w
    → get_seqnum p ≤ w.max_seqnum
    → Window.has w (get_seqnum p) ≡ true
    → IsAbsent get_seqnum (get_seqnum p) w.front
    → Window.full w ≡ false
not-full w p v l h a = ground (arith, full-available w v.sound.buffer, IsTidy-room w p v l h a)

pushed-IsTidy :
    (w : Window) (p : Pkt)
    → IsTidy w
    → get_seqnum p ≤ w.max_seqnum
    → Window.has w (get_seqnum p) ≡ true
    → IsAbsent get_seqnum (get_seqnum p) w.front
    → IsTidy (pushed w p)
unfolding Window.has Window.start Window.end
pushed-IsTidy w p v l h a = record {
  sound = pushed-IsSound w p v.sound (not-full w p v l h a);
  distinct = IsDistinct-cons get_seqnum p w.front v.distinct a;
  inside = go;
}
  where
    go :
        (j : ℕ) (q : Pkt)
        → get_elem? (p ∷ w.front) j ≡ some q
        → (get_seqnum q ≤ w.max_seqnum) × (Window.has w (get_seqnum q) ≡ true)
    go zero q e = let same : p ≡ q = ground arith in rw (← same) (l, h)
    go (suc j) q e = v.inside j q e

pub IsReceiving-IsKept : IsKept IsReceiving IsByte
IsReceiving-IsKept = record {
  stores = λ r p v b h a. record {
    tidy = pushed-IsTidy r.w p v.tidy (omega (arith, v.circle, b)) h a;
    circle = v.circle;
  };
  delivers = deliver-IsReceiving;
}
