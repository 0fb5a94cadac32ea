-- ===== src/Sender/Flight.antt =====
-- The packets in flight of src/sender.c: what responses leave of them.
use lossless_transport.Common.{
  ℕ, zero, suc, ◌^◌, ◌<◌, ◌≤◌, ◌≡◌, ◌≢◌, subst, ◌==◌, refl, sym, ◌∙◌, ◌⊎◌, inl, inr, Bool, true,
  false, ◌||◌, List, [], ◌∷◌, length, get_elem?, erase_at, set, Outcome, returns, arith, dec_lt,
  length-set, Option-cases, min,
}
use lossless_transport.Packet.{Pkt, get_seqnum, get_timestamp, set_timestamp}
use lossless_transport.Packet.Wire.RoundTrip.{IsSendable}
use lossless_transport.Window
use lossless_transport.Window.{
  Window, pop_node, pop_timestamp, match_timestamp, pop_min_seqnum, peek_min_seqnum,
  find_min_seqnum,
}
use lossless_transport.Window.Invariant.{IsSound, pop_node-Sound}
use lossless_transport.Sender.{Sender, Answers, now, handle_ack, handle_nack, pop_acked}
use lossless_transport.Sender.Respond.{handle_nack_lem}
use lossless_transport.Sender.Expiry.{All-set, restamp}
use lossless_transport.Sender.Ack.{
  All, All-elim, acknowledged, pop_acked_go, pop_acked_stop, pop_acked-none, pop_acked-Acked,
}

All-erase : (P : Pkt → Type 0) (ps : List Pkt) (i : ℕ) → All P ps → All P (erase_at ps i)
All-erase P [] i a = tt
All-erase P (p ∷ ps) zero a = a.1
All-erase P (p ∷ ps) (suc i) a = (a.0, All-erase P ps i a.1)

pub pop_node-All :
    (P : Pkt → Type 0) (w : Window) (i : ℕ) → All P w.front → All P (pop_node w i).1.front
unfolding pop_node
pop_node-All P w i a = elim (Option-cases (get_elem? w.front i)) [
  | inl e ↦ rw (e, pop_node) a
  | inr (p, e) ↦ rw (e, pop_node) (All-erase P w.front i a)
]

-- The window of the sender: at most 31 packets of 256 numbers, all of which can be sent.
pub record IsFlying (w : Window) : Type 0 where
  pub window : IsSound w
  pub circle : w.max_seqnum ≡ 255
  pub few : w.capacity ≤ 31
  pub sendable : All IsSendable w.front

pub pop_timestamp-IsFlying : (w : Window) (t : ℕ) → IsFlying w → IsFlying (pop_timestamp w t).1
unfolding pop_timestamp
pop_timestamp-IsFlying w t v =
    let i = match_timestamp w t in
    let (sound, same) = pop_node-Sound w i v.window in
    record {
      window = sound;
      circle = same.max_seqnum ∙ v.circle;
      few = omega (arith, same.capacity, v.few);
      sendable = pop_node-All IsSendable w i v.sendable;
    }

pop_acked-zero :
    (acked time : ℕ) (w : Window) (popped : Bool) {r : Window × Bool}
    → pop_acked zero acked time w popped ≢ returns r
unfolding pop_acked
pop_acked-zero acked time w popped e = cc

returns-fst :
    {A B : Type 0} {a a' : A} {b b' : B}
    → ◌≡◌ {A = Outcome (A × B)} (returns (a, b)) (returns (a', b'))
    → a ≡ a'
returns-fst {A} {B} {a} {a'} {b} {b'} e = cc

-- The loop of `handle_ack` adds no packet.
pub pop_acked-All :
    (P : Pkt → Type 0) (fuel acked time : ℕ) (w : Window) (popped : Bool) (w' : Window)
    (popped' : Bool)
    → pop_acked fuel acked time w popped ≡ returns (w', popped')
    → All P w.front
    → All P w'.front
unfolding pop_min_seqnum
pop_acked-All P zero acked time w popped w' popped' e a =
    absurd (pop_acked-zero acked time w popped e)
pop_acked-All P (suc fuel) acked time w popped w' popped' e a =
    elim (Option-cases (peek_min_seqnum w)) [
      | inl n ↦
          let same = returns-fst (sym (pop_acked-none fuel acked time w popped n) ∙ e) in
          subst (λ (u : Window). All P u.front) same a
      | inr (p, f) ↦ elim (dec_lt (get_seqnum p) acked) [
        | no k ↦
            let same =
              returns-fst (sym (pop_acked_stop fuel acked time w popped f (omega arith)) ∙ e) in
            subst (λ (u : Window). All P u.front) same a
        | yes k ↦
            pop_acked-All P fuel acked time (pop_min_seqnum w).1 (popped || get_timestamp p == time)
              w' popped'
              (sym (pop_acked_go fuel acked time w (pop_min_seqnum w).1 popped f refl k) ∙ e)
              (pop_node-All P w (find_min_seqnum w) a)
      ]
    ]

acknowledged-IsFlying :
    (w : Window) (popped : Bool) (ack : Pkt)
    → IsFlying w
    → get_seqnum ack ≤ w.max_seqnum
    → IsFlying (acknowledged w popped ack)
acknowledged-IsFlying w popped ack v h =
    let u = record w { pos = get_seqnum ack } in
    let sound : IsSound u = omega (arith, v.window) in
    let f : IsFlying u = record {
      window = sound;
      circle = v.circle;
      few = v.few;
      sendable = v.sendable;
    } in
    elim popped as (λ b. IsFlying (acknowledged w b ack)) [
      | true ↦ f
      | false ↦ pop_timestamp-IsFlying u (get_timestamp ack) f
    ]

-- What a response leaves of the state: the window only, and after a NACK the clock.
pub handle_ack-IsFlying :
    (s : Sender) (ack : Pkt)
    → IsFlying s.w
    → get_seqnum ack < 256
    → (w : Window) × (handle_ack s ack ≡ returns (record s { w = w })) × IsFlying w
unfolding handle_ack Window.slide_to
handle_ack-IsFlying s ack v h =
    let n = get_seqnum ack in
    let time = get_timestamp ack in
    let (w, popped, e, a) =
      pop_acked-Acked (suc (length s.w.front)) n time s.w false v.window.buffer (omega arith) in
    let l : n ≤ w.max_seqnum = omega (arith, a.max_seqnum, v.circle) in
    let sound : IsSound w = omega (arith, a.valid, a.max_seqnum, a.capacity, a.pos, v.window) in
    let f : IsFlying w = record {
      window = sound;
      circle = a.max_seqnum ∙ v.circle;
      few = omega (arith, a.capacity, v.few);
      sendable = pop_acked-All IsSendable _ n time s.w false w popped e v.sendable;
    } in
    (acknowledged w popped ack, rw e (ground (arith, l)), acknowledged-IsFlying w popped ack f l)

-- A list with a packet replaced by one that can be sent too.
set-IsFlying :
    (w : Window) (i : ℕ) (q : Pkt)
    → IsFlying w
    → IsSendable q
    → IsFlying (record w { front = set w.front i q })
set-IsFlying w i q v h =
    let sound : IsSound (record w { front = set w.front i q }) =
      omega (arith, v.window, length-set w.front i q) in
    record {
      window = sound;
      circle = v.circle;
      few = v.few;
      sendable = All-set IsSendable w.front i q v.sendable h;
    }

pub handle_nack-IsFlying :
    (io : Answers) (s : Sender) (nack : Pkt)
    → IsFlying s.w
    → (now io s).0 < 2 ^ 32
    → (handle_nack io s nack ≡ returns s)
      ⊎ ((w : Window) × (handle_nack io s nack ≡ returns (record (now io s).1 { w = w }))
          × IsFlying w)
handle_nack-IsFlying io s nack v h = elim (handle_nack_lem io s nack) [
  | inr (o, e) ↦ inl e
  | inl (i, p, o, f, e) ↦
      let (good, stamp, number) =
        restamp p (now io s).0 (All-elim IsSendable s.w.front i v.sendable f.here) h in
      inr (_, e, set-IsFlying s.w i (set_timestamp p (now io s).0).1 v good)
]

pub resize-IsFlying :
    (w : Window) (n : ℕ) → IsFlying w → IsFlying (record w { size = min w.capacity n })
resize-IsFlying w n v =
    let sound : IsSound (record w { size = min w.capacity n }) = omega (arith, v.window) in
    record { window = sound; circle = v.circle; few = v.few; sendable = v.sendable }
