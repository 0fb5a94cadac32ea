-- ===== src/Receiver/Store.antt =====
-- How `main_loop` of src/receiver.c puts a packet into its buffer.
use lossless_transport.Common.{
  ℕ, ◌+◌, ◌<◌, ◌≡◌, ◌⊎◌, refl, sym, ap, ◌∙◌, subst, inl, inr, true, some, ◌∷◌, ◌==◌, returns,
  ==_refl,
}
use lossless_transport.Packet.{Pkt, get_seqnum, get_timestamp}
use lossless_transport.Window
use lossless_transport.Window.{Window, Code, done, failed, available, find_seqnum, push}
use lossless_transport.Window.Search.{IsAbsent, IsFirst}
use lossless_transport.Window.Buffer.{push-cases, find_seqnum_lem, full-available}
use lossless_transport.Window.Invariant.{IsSound, step, step-IsSound, pushes}
use lossless_transport.Receiver.{Answers, store}
use lossless_transport.Receiver.Distinct.{IsDistinct-cons}
use lossless_transport.Receiver.Deliver.{DistinctTimes}

-- What `main_loop` does with a packet before it writes: it is put into the buffer, unless a packet
-- with its number is there or no slot is free.
pub record Stores (w : Window) (p : Pkt) (w' : Window) : Type 0 where
  pub front :
      (IsAbsent get_seqnum (get_seqnum p) w.front × (0 < available w) × (w'.front ≡ p ∷ w.front))
      ⊎ (((available w ≡ 0) ⊎ ((i : ℕ) × (q : Pkt) × IsFirst get_seqnum (get_seqnum p) w.front i q))
          × (w'.front ≡ w.front))
  pub sound : IsSound w'
  pub pos : w'.pos ≡ w.pos
  pub capacity : w'.capacity ≡ w.capacity
  pub max_seqnum : w'.max_seqnum ≡ w.max_seqnum

push-allocated :
    (io : Answers) (w : Window) (p : Pkt) {r : Code × Window}
    → io.node_allocated ≡ true
    → push w p true ≡ r
    → push w p io.node_allocated ≡ r
push-allocated io w p k f = ap (push w p) k ∙ f

push-IsSound :
    (w : Window) (p : Pkt) {u : Window} → IsSound w → push w p true ≡ (done, u) → IsSound u
unfolding step
push-IsSound w p {u} v f = (step-IsSound w (pushes p true) {u = u} v (ap (λ r. some r.1) f)).0

pub store_lem :
    (io : Answers) (w : Window) (p : Pkt)
    → IsSound w
    → io.node_allocated ≡ true
    → (w' : Window) × (store io w p ≡ returns w') × Stores w p w'
unfolding store
store_lem io w p v k = elim (find_seqnum_lem w (get_seqnum p)) [
  | inr (i, q, f, e) ↦ (
    w,
    rw (e, store),
    record {
      front = inr (inr (i, q, f), refl);
      sound = v;
      pos = refl;
      capacity = refl;
      max_seqnum = refl;
    },
  )
  | inl (a, e) ↦ elim (push-cases w p true v.buffer) [
    | inl (inr c, f) ↦ cc
    | inl (inl c, f) ↦
        let f' = push-allocated io w p k f in
        let full : Window.full w ≡ true =
          full-available w v.buffer ∙ ap (λ n. n == 0) c ∙ ==_refl 0 in
        (
          w,
          rw (e, store) (rw f' (rw f' (rw full))),
          record {
            front = inr (inl c, refl);
            sound = v;
            pos = refl;
            capacity = refl;
            max_seqnum = refl;
          },
        )
    | inr (c, t, f, g) ↦
        let f' = push-allocated io w p k f in
        let u = record w { front = p ∷ w.front; bufsize = w.bufsize + 1 } in
        (
          u,
          rw (e, store) (rw f' (rw f')),
          record {
            front = inl (a, c, refl);
            sound = push-IsSound w p v f;
            pos = refl;
            capacity = refl;
            max_seqnum = refl;
          },
        )
  ]
]

pub Stores-DistinctTimes :
    (w : Window) (p : Pkt) (w' : Window)
    → DistinctTimes w.front
    → IsAbsent get_timestamp (get_timestamp p) w.front
    → Stores w p w'
    → DistinctTimes w'.front
Stores-DistinctTimes w p w' d a s = elim s.front [
  | inl (b, c, e) ↦ subst DistinctTimes (sym e) (IsDistinct-cons get_timestamp p w.front d a)
  | inr (c, e) ↦ subst DistinctTimes (sym e) d
]
