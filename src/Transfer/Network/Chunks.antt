-- ===== src/Transfer/Network/Chunks.antt =====
-- The chunks of a file.
use lossless_transport.Common.{
  ℕ, zero, suc, ◌+◌, ◌*◌, ◌<◌, ◌≡◌, ◌==◌, ap, ◌∙◌, List, [], ◌∷◌, ◌++◌, length, take, drop, min,
  arith, length-take, length-drop, drop-drop, ◌-◌, true, false, length-zero,
}
use lossless_transport.Packet.{max_payload_size}
use lossless_transport.Transfer.Network.{chunk}

take-add : (m n : ℕ) (xs : List ℕ) → take m xs ++ take n (drop m xs) ≡ take (m + n) xs
take-add zero n xs = let e : n ≡ 0 + n = omega arith in ap (λ (k : ℕ). take k xs) e
take-add (suc m) zero [] =
    let e : suc m ≡ suc m + 0 = omega arith in ap (λ (k : ℕ). take {A = ℕ} k []) e
take-add (suc m) (suc n) [] =
    let e : suc (m + suc n) ≡ suc m + suc n = omega arith in ap (λ (k : ℕ). take {A = ℕ} k []) e
take-add (suc m) n (x ∷ xs) =
    let e : suc (m + n) ≡ suc m + n = omega arith in
    ap (◌∷◌ x) (take-add m n xs) ∙ ap (λ (k : ℕ). take k (x ∷ xs)) e

-- The bytes before a chunk and the chunk are the bytes before the next one.
pub take-chunk :
    (infile : List ℕ) (k : ℕ)
    → take (max_payload_size * k) infile ++ chunk infile k
      ≡ take (max_payload_size * (k + 1)) infile
take-chunk infile k =
    let e : max_payload_size * k + max_payload_size ≡ max_payload_size * (k + 1) = omega arith in
    take-add (max_payload_size * k) max_payload_size infile ∙ ap (λ (n : ℕ). take n infile) e

pub drop-chunk :
    (infile : List ℕ) (k : ℕ)
    → drop max_payload_size (drop (max_payload_size * k) infile)
      ≡ drop (max_payload_size * (k + 1)) infile
drop-chunk infile k =
    let e : max_payload_size * k + max_payload_size ≡ max_payload_size * (k + 1) = omega arith in
    drop-drop (max_payload_size * k) max_payload_size infile ∙ ap (λ (n : ℕ). drop n infile) e

pub length-chunk :
    (infile : List ℕ) (k : ℕ)
    → length (chunk infile k) ≡ min max_payload_size (length infile - max_payload_size * k)
length-chunk infile k =
    length-take max_payload_size (drop (max_payload_size * k) infile)
    ∙ ap (min max_payload_size) (length-drop (max_payload_size * k) infile)

pub chunk-nil :
    (infile : List ℕ) (k : ℕ) → (length (chunk infile k) == 0) ≡ true → chunk infile k ≡ []
chunk-nil infile k e = length-zero (chunk infile k) (ground arith)

-- A chunk that is not empty starts before the end.
pub chunk-start :
    (infile : List ℕ) (k : ℕ)
    → (length (chunk infile k) == 0) ≡ false
    → max_payload_size * k < length infile
chunk-start infile k e = ground (arith, length-chunk infile k)
