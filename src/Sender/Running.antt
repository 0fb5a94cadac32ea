-- ===== src/Sender/Running.antt =====
-- The state of src/sender.c between two rounds.
use lossless_transport.Common.{
  ℕ, ◌+◌, ◌<◌, ◌≤◌, ◌≡◌, refl, sym, ap, ◌∙◌, subst, inl, inr, Bool, ◌∷◌, Outcome, returns, exits,
  Ends, ends, stops, arith,
}
use lossless_transport.Packet.{Pkt}
use lossless_transport.Packet.Wire.RoundTrip.{IsSendable}
use lossless_transport.Clock.Monotone.{IsClock, get_monotime-last}
use lossless_transport.Window
use lossless_transport.Window.{
  Window, Code, done, failed, push, peek_min_timestamp, find_min_timestamp,
}
use lossless_transport.Window.Invariant.{IsSound}
use lossless_transport.Window.Buffer.{push-cases}
use lossless_transport.Sender.{Sender, Answers, now}
use lossless_transport.Sender.Resend.{Resent}
use lossless_transport.Sender.Flight.{IsFlying}

-- Between two rounds: the packets in flight can be sent, the next number is one of 256, and the
-- clock runs.
pub record IsRunning (s : Sender) : Type 0 where
  pub flying : IsFlying s.w
  pub next_lt : s.next < 256
  pub running : IsClock s.clock

pushed-IsFlying :
    (w : Window) (q : Pkt)
    → IsFlying w
    → IsSendable q
    → 0 < Window.available w
    → IsFlying (record w { front = q ∷ w.front; bufsize = w.bufsize + 1 })
unfolding Window.available
pushed-IsFlying w q v h a =
    let room : w.bufsize + 1 ≤ w.size = ground (arith, a) in
    let sound : IsSound (record w { front = q ∷ w.front; bufsize = w.bufsize + 1 }) =
      omega (arith, room, v.window) in
    record { window = sound; circle = v.circle; few = v.few; sendable = (h, v.sendable) }

pub push-IsFlying :
    (w : Window) (q : Pkt) (allocated : Bool)
    → IsFlying w
    → IsSendable q
    → (push w q allocated).0 ≡ done
    → IsFlying (push w q allocated).1
push-IsFlying w q allocated v h e = elim (push-cases w q allocated v.window.buffer) [
  | inl (r, f) ↦ cc
  | inr (a, b, f, k) ↦
      subst IsFlying (sym (ap (λ (r : Code × Window). r.1) f)) (pushed-IsFlying w q v h a)
]

-- The end of a round in which a packet was pushed, or could not be.
pub kept-Ends :
    (s : Sender) (next : ℕ) (eof : Bool) (r : Code × Window)
    → IsRunning s
    → next < 256
    → (r.0 ≡ done → IsFlying r.1)
    → Ends IsRunning (elim r.0 as (λ c. Outcome Sender) [
      | failed ↦ exits
      | done ↦ returns (record s { w = r.1; next = next; sent_eof = eof })
    ])
kept-Ends s next eof (failed, w) v l h = stops
kept-Ends s next eof (done, w) v l h =
    ends (record { flying = h refl; next_lt = l; running = v.running })

pub Resent-IsRunning :
    (s s' : Sender) (n : ℕ) → IsFlying s.w → s.next < 256 → Resent n s s' → IsRunning s'
Resent-IsRunning s s' n v l d =
    let a = ap (λ (w : Window). w.max_seqnum) d.rest in
    let b = ap (λ (w : Window). w.capacity) d.rest in
    let c = ap (λ (w : Window). w.pos) d.rest in
    let sound : IsSound s'.w = omega (arith, d.valid, a, b, c, v.window) in
    record {
      flying = record {
        window = sound;
        circle = a ∙ v.circle;
        few = omega (arith, b, v.few);
        sendable = d.sendable;
      };
      next_lt = omega (arith, d.next, l);
      running = d.running;
    }

-- The readings of the system's clock are normalized.
pub now-IsRunning :
    (io : Answers) (s : Sender)
    → ((n : ℕ) → (io.reading n).nsec < 1000000000)
    → IsFlying s.w
    → s.next < 256
    → IsClock s.clock
    → IsRunning (now io s).1
unfolding now
now-IsRunning io s h v l c =
    let (last, time, first, clock) = get_monotime-last s.clock (io.reading s.calls) c (h s.calls) in
    record { flying = v; next_lt = l; running = clock }
