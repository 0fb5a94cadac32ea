-- ===== src/Packet/Send.antt =====
-- src/util.c: `send_packet`; and the chains of setters by which both programs fill a packet.
use lossless_transport.Common.{ℕ, List, take, Outcome, returns, exits, OnReturn, ◌≡◌, refl}
use lossless_transport.Packet.{Pkt, Status, pkt_ok, max_packet_size}
use lossless_transport.Packet.Wire.{encode}

-- The bytes handed to `send`. The argument is the content of the uninitialized local buffer. An
-- encoding error ends the program.
unfoldable pub send_packet : (ℕ → List ℕ → ℕ) → List ℕ → Pkt → Outcome (List ℕ)
send_packet crc32 scratch p =
    let r = encode crc32 p scratch max_packet_size in
    elim r.0 [ pkt_ok ↦ returns (take r.2 r.1) | _ ↦ exits ]

-- `err = err || setter (pkt, …)`: a setter is called only while there is no error.
infixl 5 ◌&then◌
abbrev pub ◌&then◌ : Status × Pkt → (Pkt → Status × Pkt) → Status × Pkt
(pkt_ok, p) &then f = f p
(code, p) &then f = (code, p)

-- The packet, or the exit on `err != PKT_OK`.
abbrev pub filled : Status × Pkt → Outcome Pkt
filled (pkt_ok, p) = returns p
filled (code, p) = exits

-- Both programs go on with a packet that was decoded, and else do something that does not need it.
pub OnReturn-status :
    {A : Type 0} (P : A → Type 0) (d : Status × Pkt) (k : Pkt → Outcome A) (o : Outcome A)
    → (d.0 ≡ pkt_ok → OnReturn P (k d.1))
    → OnReturn P o
    → OnReturn P (elim d.0 [ pkt_ok ↦ k d.1 | _ ↦ o ])
OnReturn-status P (pkt_ok, p) k o h g = h refl
OnReturn-status P (c, p) k o h g = g
