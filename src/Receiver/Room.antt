-- ===== src/Receiver/Room.antt =====
-- Room in the receiver's buffer: packets with different numbers of the window.
use lossless_transport.Common.{
  ℕ, zero, suc, ◌<◌, ◌≤◌, ◌≡◌, refl, sym, ap, ◌∙◌, inl, inr, true, some, List, [], ◌∷◌, ltb,
  if◌then◌else◌, get_elem?, erase_at, length, length-erase_at, arith, ℕ_discrete,
}
use lossless_transport.Packet.{Pkt, get_seqnum}
use lossless_transport.Window
use lossless_transport.Window.{Window, available}
use lossless_transport.Window.Search.{IsAbsent, find_from-First}
use lossless_transport.Window.Range.{nth, has-nth}
use lossless_transport.Window.Buffer.{get-lt-length}
use lossless_transport.Window.Invariant.{IsSound, IsSound-IsRange}
use lossless_transport.Receiver.Distinct.{
  IsDistinct, IsDistinct-erase, IsDistinct-cons, get-erase_at,
}

-- Each packet has one of the first `m` numbers.
pub record IsAmong (number : ℕ → ℕ) (m : ℕ) (ps : List Pkt) : Type 0 where
  pub among :
      (j : ℕ) (q : Pkt) → get_elem? ps j ≡ some q → (k : ℕ) × (k < m) × (number k ≡ get_seqnum q)

-- Packets with different numbers are at most as many as the numbers.
length-le_of_distinct :
    (number : ℕ → ℕ) (m : ℕ) (ps : List Pkt)
    → IsDistinct get_seqnum ps
    → IsAmong number m ps
    → length ps ≤ m
length-le_of_distinct number zero [] d a = omega arith
length-le_of_distinct number zero (p ∷ ps) d a =
    let (k, l, e) = a.among 0 p refl in absurd (omega arith)
length-le_of_distinct number (suc m) ps d a = elim (find_from-First (number m) 0 ps) [
  | inl (none_has, e) ↦
      let fewer : IsAmong number m ps = record {
        among = λ j q f.
            let (k, l, g) = a.among j q f in
            elim (ℕ_discrete k m) [
              | yes same ↦ absurd (none_has.absent j q f (sym g ∙ ap number same))
              | no other ↦ (k, omega arith, g)
            ];
      } in
      let n = length-le_of_distinct number m ps d fewer in omega arith
  | inr (i, p, first, e) ↦
      let fewer : IsAmong number m (erase_at ps i) = record {
        among = λ j q f.
            let j' = if ltb j i then j else suc j in
            let f' = sym (get-erase_at ps i j) ∙ f in
            let (k, l, g) = a.among j' q f' in
            elim (ℕ_discrete k m) [
              | yes same ↦
                  let one =
                    d.one j' i q p f' first.here (sym g ∙ ap number same ∙ sym first.matches) in
                  absurd (ground (arith, one))
              | no other ↦ (k, omega arith, g)
            ];
      } in
      let n =
        length-le_of_distinct number m (erase_at ps i) (IsDistinct-erase get_seqnum i d) fewer in
      omega (arith, length-erase_at ps i, get-lt-length ps i first.here)
]

-- The buffer holds packets with different numbers, all of the window.
pub record IsTidy (w : Window) : Type 0 where
  pub sound : IsSound w
  pub distinct : IsDistinct get_seqnum w.front
  pub inside :
      (j : ℕ) (q : Pkt)
      → get_elem? w.front j ≡ some q
      → (get_seqnum q ≤ w.max_seqnum) × (Window.has w (get_seqnum q) ≡ true)

among-window :
    (w : Window) (s : ℕ)
    → IsSound w
    → s ≤ w.max_seqnum
    → Window.has w s ≡ true
    → (k : ℕ) × (k < w.size) × (nth w k ≡ s)
among-window w s v l h = (has-nth w s (IsSound-IsRange v) l).0 h

-- There is room for a packet of the window whose number is not there.
pub IsTidy-room :
    (w : Window) (p : Pkt)
    → IsTidy w
    → get_seqnum p ≤ w.max_seqnum
    → Window.has w (get_seqnum p) ≡ true
    → IsAbsent get_seqnum (get_seqnum p) w.front
    → 0 < available w
unfolding available
IsTidy-room w p v l h a =
    let d = IsDistinct-cons get_seqnum p w.front v.distinct a in
    let among : IsAmong (nth w) w.size (p ∷ w.front) = record { among = go } in
    let n = length-le_of_distinct (nth w) w.size (p ∷ w.front) d among in ground (arith, v.sound)
  where
    go :
        (j : ℕ) (q : Pkt)
        → get_elem? (p ∷ w.front) j ≡ some q
        → (k : ℕ) × (k < w.size) × (nth w k ≡ get_seqnum q)
    go zero q e =
        let same : p ≡ q = ground arith in
        let (k, m, f) = among-window w (get_seqnum p) v.sound l h in (k, m, f ∙ ap get_seqnum same)
    go (suc j) q e = let (m, g) = v.inside j q e in among-window w (get_seqnum q) v.sound m g
