-- ===== src/Sender/Timer.antt =====
-- `get_timeout` and `retransmit_packets` of src/sender.c.
use lossless_transport.Common.{
  ℕ, zero, suc, ◌-◌, ◌<◌, ◌≡◌, ◌⊎◌, refl, inl, inr, false, not, ◌&&◌, ◌||◌, some, List, [], ◌∷◌,
  length, get_elem?, set, returns, arith, dec_lt, Bool-cases,
}
use lossless_transport.Packet.{Pkt, get_timestamp, set_timestamp}
use lossless_transport.Window
use lossless_transport.Window.{Window, done, failed, peek_min_timestamp, find_min_timestamp}
use lossless_transport.Window.Search.{IsFirst-position, IsFirst}
use lossless_transport.Window.Least.{IsLeast}
use lossless_transport.Window.Buffer.{
  IsValid, pop_min_timestamp_lem, update_timestamp_lem, get-lt-length,
}
use lossless_transport.Sender.{
  Sender, Answers, get_timeout, time_left, now, retransmit, transmit, add32, timer,
}

-- If the end of the file was not sent yet or the buffer is not empty, as it is where the loop of
-- `main` goes on, `get_timeout` dereferences no NULL: it returns 0, or the time until the
-- earliest timestamp in the buffer, and changes nothing but the clock.
pub get_timeout_safe :
    (io : Answers) (s : Sender)
    → IsValid s.w
    → (s.sent_eof ≡ false) ⊎ (0 < s.w.bufsize)
    → (get_timeout io s ≡ returns (0, s))
      ⊎ ((i : ℕ) × (p : Pkt) × IsLeast get_timestamp s.w.front i p
          × (get_timeout io s ≡ returns (get_timestamp p - (now io s).0, (now io s).1)))
unfolding get_timeout time_left Window.full Window.empty
get_timeout_safe io s v h = elim (dec_lt 0 s.w.bufsize) [
  | no z ↦ inl (ground arith)
  | yes z ↦
      let (p, l, peeks, pops, perm) = pop_min_timestamp_lem s.w v z in
      elim (Bool-cases ((Window.full s.w && not (Window.empty s.w)) || s.sent_eof)) [
        | inl b ↦ inr (find_min_timestamp s.w, p, l, ground (arith, peeks))
        | inr b ↦ inl (ground (arith, b))
      ]
]

pub get-set {ℓ} :
    {A : Type ℓ} (xs : List A) (i : ℕ) (v : A) → i < length xs → get_elem? (set xs i v) i ≡ some v
get-set [] i v h = elim h [ ]
get-set (x ∷ xs) zero v h = refl
get-set (x ∷ xs) (suc i) v h = get-set xs i v (omega arith)

IsLeast-IsFirst :
    {ps : List Pkt} {i : ℕ} {p : Pkt}
    → IsLeast get_timestamp ps i p
    → IsFirst get_timestamp (get_timestamp p) ps i p
IsLeast-IsFirst l = record {
  here = l.here;
  matches = refl;
  earlier = λ j q k e f. omega (arith, l.earlier j q k e);
}

update_least :
    (w : Window) (i : ℕ) (p : Pkt) (new : ℕ)
    → IsLeast get_timestamp w.front i p
    → Window.update_timestamp w (get_timestamp p) new
      ≡ (done, record w { front = set w.front i (set_timestamp p new).1 })
update_least w i p new l = elim (update_timestamp_lem w (get_timestamp p) new) [
  | inl (a, e) ↦ absurd (a.absent i p l.here refl)
  | inr (j, q, f, e) ↦
      let g = IsLeast-IsFirst l in
      let k = IsFirst-position get_timestamp (get_timestamp p) w.front i j p q g f in
      ground (arith, e, f.here, l.here, k)
]

module _ (crc32 : ℕ → List ℕ → ℕ) where
  -- The packet whose timer expires first is found again by its timestamp: that packet, and no other,
  -- is given the new time, and is sent with it.
  pub retransmit_lem :
      (io : Answers) (s : Sender) (i : ℕ) (p : Pkt)
      → IsLeast get_timestamp s.w.front i p
      → let (time, t) = now io s in
        let q = (set_timestamp p (add32 time timer)).1 in
        retransmit crc32 io s i p
        ≡ transmit crc32 io (record t { w = record s.w { front = set s.w.front i q } }) q
  unfolding retransmit
  retransmit_lem io s i p l =
      let new = add32 (now io s).0 timer in
      let q = (set_timestamp p new).1 in
      let e = update_least s.w i p new l in
      rw (e, retransmit) (rw (e, get-set s.w.front i q (get-lt-length s.w.front i l.here)))
