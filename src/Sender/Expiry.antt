-- ===== src/Sender/Expiry.antt =====
-- Timers of the packets in flight that have expired, and times that do not come near the wrap.
use lossless_transport.Common.{
  ℕ, zero, suc, ◌+◌, ◌-◌, ◌^◌, ◌<◌, ◌≤◌, ◌≡◌, refl, sym, ap, subst, some, List, [], ◌∷◌, map, leb,
  if◌then◌else◌, length, get_elem?, set, arith, htonl-htonl, htonl-lt,
}
use lossless_transport.Packet.{
  Pkt, get_seqnum, get_timestamp, set_timestamp, get_type, get_length, get_tr,
}
use lossless_transport.Packet.Wire.RoundTrip.{IsSendable}
use lossless_transport.Clock.{Clock, get_monotime, of_timespec}
use lossless_transport.Clock.Monotone.{IsClock, micros, get_monotime-last}
use lossless_transport.Sender.{Sender, Answers, now, timer}
use lossless_transport.Sender.Ack.{All}

-- How many packets have a timer that has expired at the time `n`.
pub expired : ℕ → List Pkt → ℕ
expired n [] = 0
expired n (p ∷ ps) = if leb (get_timestamp p) n then suc (expired n ps) else expired n ps

pub expired-set :
    (n : ℕ) (ps : List Pkt) (i : ℕ) (p q : Pkt)
    → get_elem? ps i ≡ some p
    → get_timestamp p ≤ n
    → n < get_timestamp q
    → suc (expired n (set ps i q)) ≡ expired n ps
unfolding expired
expired-set n [] i p q e h k = cc
expired-set n (x ∷ ps) zero p q e h k = ground arith
expired-set n (x ∷ ps) (suc i) p q e h k = ground (arith, expired-set n ps i p q e h k)

pub expired-le : (n : ℕ) (ps : List Pkt) → expired n ps ≤ length ps
unfolding expired
expired-le n [] = omega arith
expired-le n (p ∷ ps) = ground (arith, expired-le n ps)

pub expired-pos :
    (n : ℕ) (ps : List Pkt) (i : ℕ) (p : Pkt)
    → get_elem? ps i ≡ some p
    → get_timestamp p ≤ n
    → 0 < expired n ps
unfolding expired
expired-pos n [] i p e h = cc
expired-pos n (x ∷ ps) zero p e h = ground arith
expired-pos n (x ∷ ps) (suc i) p e h = ground (arith, expired-pos n ps i p e h)

pub All-set :
    (P : Pkt → Type 0) (ps : List Pkt) (i : ℕ) (q : Pkt) → All P ps → P q → All P (set ps i q)
All-set P [] i q a h = tt
All-set P (x ∷ ps) zero q a h = (h, a.1)
All-set P (x ∷ ps) (suc i) q a h = (a.0, All-set P ps i q a.1 h)

pub map-set :
    (ps : List Pkt) (i : ℕ) (p q : Pkt)
    → get_elem? ps i ≡ some p
    → get_seqnum q ≡ get_seqnum p
    → map get_seqnum (set ps i q) ≡ map get_seqnum ps
map-set [] i p q e h = refl
map-set (x ∷ ps) zero p q e h = let f : x ≡ p = ground arith in ground (arith, f)
map-set (x ∷ ps) (suc i) p q e h = ap (◌∷◌ (get_seqnum x)) (map-set ps i p q e h)

-- A packet with another time may be sent as well, and has that time.
pub restamp :
    (p : Pkt) (n : ℕ)
    → IsSendable p
    → n < 2 ^ 32
    → let q = (set_timestamp p n).1 in
      IsSendable q × (get_timestamp q ≡ n) × (get_seqnum q ≡ get_seqnum p)
unfolding set_timestamp get_timestamp get_seqnum get_type get_length get_tr
restamp p n v h = (ground (arith, htonl-lt n), htonl-htonl n h, refl)

-- The longest time at which a timer can be started without wrapping.
abbrev pub horizon : ℕ
horizon = 2 ^ 32 - timer

abbrev pub elapsed : Clock → ℕ
elapsed c = micros c.last - micros c.first

-- The clock runs, and for the next `k` calls it does not reach the horizon.
pub record IsTimely (io : Answers) (k : ℕ) (s : Sender) : Type 0 where
  pub running : IsClock s.clock
  pub normal : (n : ℕ) → (io.reading n).nsec < 1000000000
  pub early : (n : ℕ) → micros (of_timespec (io.reading n)) + k < micros s.clock.first + horizon
  pub slack : elapsed s.clock + k < horizon

pub now-IsTimely :
    (io : Answers) (k : ℕ) (s : Sender)
    → IsTimely io (suc k) s
    → let (time, t) = now io s in
      (elapsed s.clock < time)
      × (time + timer < 2 ^ 32)
      × (elapsed t.clock ≡ time)
      × IsTimely io k t
unfolding now
now-IsTimely io k s v =
    let (l, t, f, w) =
      get_monotime-last s.clock (io.reading s.calls) v.running (v.normal s.calls) in
    let g = ap micros f in
    let e = v.early s.calls in
    let d = get_monotime s.clock (io.reading s.calls) in
    let x : d.0 ≡ micros d.1.last - micros s.clock.first =
      omega (arith, l, t, e, v.running.ordered, v.slack) in
    let r : IsTimely io k (record s { clock = d.1; calls = s.calls + 1 }) = record {
      running = w;
      normal = v.normal;
      early = λ n. omega (arith, g, v.early n);
      slack = omega (arith, g, l, e, v.slack);
    } in
    (
      omega (arith, x, l, v.running.ordered),
      omega (arith, x, l, e, v.slack),
      omega (arith, x, g),
      r,
    )

-- The same for another buffer, other datagrams sent, and fewer calls.
pub IsTimely-clock :
    (io : Answers) (k l : ℕ) (s s' : Sender)
    → s'.clock ≡ s.clock
    → l ≤ k
    → IsTimely io k s
    → IsTimely io l s'
IsTimely-clock io k l s s' e f v = record {
  running = subst IsClock (sym e) v.running;
  normal = v.normal;
  early = λ n.
      subst (λ c. micros (of_timespec (io.reading n)) + l < micros c.first + horizon) (sym e)
        (omega (arith, f, v.early n));
  slack = subst (λ c. elapsed c + l < horizon) (sym e) (omega (arith, f, v.slack));
}
