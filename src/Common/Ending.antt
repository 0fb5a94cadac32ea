-- ===== src/Common/Ending.antt =====
-- How a piece of the programs ends: it returns, it exits with an error, an assertion aborts it, it
-- dereferences NULL, or the fuel of the model's loop is used up.
use mathlib.Core.Bool.{Bool, true, false}
use lossless_transport.Common.Tests.{if◌then◌else◌}
use mathlib.Core.Path.{◌≡◌, refl, sym, subst}
use mathlib.Core.Option.{Option, none, some}

pub data Outcome {ℓ} (A : Type ℓ) : Type ℓ where
  returns : A → Outcome A
  exits aborts faults spins : Outcome A

infixl 5 ◌>>=◌ ◌>>◌
abbrev pub ◌>>=◌ {ℓ κ} : {A : Type ℓ} {B : Type κ} → Outcome A → (A → Outcome B) → Outcome B
returns a >>= f = f a
exits >>= f = exits
aborts >>= f = aborts
faults >>= f = faults
spins >>= f = spins

-- NULL ends the program by `exit_msg`.
abbrev pub or_exit {ℓ} : {A : Type ℓ} → Option A → Outcome A
or_exit none = exits
or_exit (some a) = returns a

-- NULL is dereferenced.
abbrev pub deref {ℓ} : {A : Type ℓ} → Option A → Outcome A
deref none = faults
deref (some a) = returns a

-- `assert (b)`
abbrev pub assert : Bool → Outcome (Unit {0})
assert true = returns tt
assert false = aborts

-- The program exits unless `b`.
abbrev pub check : Bool → Outcome (Unit {0})
check true = returns tt
check false = exits

abbrev pub ◌>>◌ {ℓ} : {B : Type ℓ} → Outcome (Unit {0}) → Outcome B → Outcome B
m >> k = m >>= λ _. k

-- The piece returns a value with the property, or it exits with an error: no assertion fails, no
-- NULL is dereferenced, and the fuel is enough.
pub data Ends {A : Type 0} (P : A → Type 0) : Outcome A → Type 0 where
  ends : {a : A} → P a → Ends P (returns a)
  stops : Ends P exits

module _ {A B : Type 0} {P : A → Type 0} {Q : B → Type 0} where
  pub Ends-bind :
      (m : Outcome A) (f : A → Outcome B)
      → Ends P m
      → ((a : A) → P a → Ends Q (f a))
      → Ends Q (m >>= f)
  Ends-bind m f (ends {a} p) k = k a p
  Ends-bind m f stops k = stops

pub Ends-check : (b : Bool) → Ends (λ u. b ≡ true) (check b)
Ends-check true = ends refl
Ends-check false = stops

pub Ends-or_exit : {A : Type 0} (o : Option A) → Ends (λ a. o ≡ some a) (or_exit o)
Ends-or_exit none = stops
Ends-or_exit (some a) = ends refl

pub Ends-eq : {A : Type 0} (P : A → Type 0) {m m' : Outcome A} → m ≡ m' → Ends P m' → Ends P m
Ends-eq P {m} {m'} e h = subst (Ends P) (sym e) h

pub Ends-if :
    {A : Type 0} (P : A → Type 0) (b : Bool) (x y : Outcome A)
    → (b ≡ true → Ends P x)
    → (b ≡ false → Ends P y)
    → Ends P (if b then x else y)
Ends-if P true x y a c = a refl
Ends-if P false x y a c = c refl

-- The piece may end in any way, but a value that it returns has the property.
abbrev pub OnReturn : {A : Type 0} → (A → Type 0) → Outcome A → Type 0
OnReturn P (returns a) = P a
OnReturn P exits = Unit {0}
OnReturn P aborts = Unit {0}
OnReturn P faults = Unit {0}
OnReturn P spins = Unit {0}

module _ {A B : Type 0} (P : A → Type 0) (Q : B → Type 0) where
  pub OnReturn-bind :
      (m : Outcome A) (f : A → Outcome B)
      → OnReturn P m
      → ((a : A) → P a → OnReturn Q (f a))
      → OnReturn Q (m >>= f)
  OnReturn-bind (returns a) f h k = k a h
  OnReturn-bind exits f h k = tt
  OnReturn-bind aborts f h k = tt
  OnReturn-bind faults f h k = tt
  OnReturn-bind spins f h k = tt

module _ {A : Type 0} where
  pub OnReturn-refl : (m : Outcome A) → OnReturn (λ a. m ≡ returns a) m
  OnReturn-refl (returns a) = refl
  OnReturn-refl exits = tt
  OnReturn-refl aborts = tt
  OnReturn-refl faults = tt
  OnReturn-refl spins = tt

  pub OnReturn-intro :
      (P : A → Type 0) (m : Outcome A) → ((a : A) → m ≡ returns a → P a) → OnReturn P m
  OnReturn-intro P (returns a) h = h a refl
  OnReturn-intro P exits h = tt
  OnReturn-intro P aborts h = tt
  OnReturn-intro P faults h = tt
  OnReturn-intro P spins h = tt

  pub OnReturn-mono :
      (P Q : A → Type 0) (m : Outcome A) → OnReturn P m → ((a : A) → P a → Q a) → OnReturn Q m
  OnReturn-mono P Q (returns a) h k = k a h
  OnReturn-mono P Q exits h k = tt
  OnReturn-mono P Q aborts h k = tt
  OnReturn-mono P Q faults h k = tt
  OnReturn-mono P Q spins h k = tt

  pub OnReturn-elim : (P : A → Type 0) (m : Outcome A) {a : A} → OnReturn P m → m ≡ returns a → P a
  OnReturn-elim P m h e = subst (OnReturn P) e h

  pub OnReturn-if :
      (P : A → Type 0) (b : Bool) (x y : Outcome A)
      → (b ≡ true → OnReturn P x)
      → (b ≡ false → OnReturn P y)
      → OnReturn P (if b then x else y)
  OnReturn-if P true x y h k = h refl
  OnReturn-if P false x y h k = k refl

-- What comes after a call whose result does not matter.
pub OnReturn-after :
    {A B : Type 0} (Q : B → Type 0) (m : Outcome A) (f : A → Outcome B)
    → ((a : A) → OnReturn Q (f a))
    → OnReturn Q (m >>= f)
OnReturn-after {A} Q m f k = OnReturn-bind (λ a. m ≡ returns a) Q m f (OnReturn-refl m) (λ a e. k a)

pub OnReturn-or_exit : {A : Type 0} (o : Option A) → OnReturn (λ a. o ≡ some a) (or_exit o)
OnReturn-or_exit none = tt
OnReturn-or_exit (some a) = refl

pub OnReturn-deref : {A : Type 0} (o : Option A) → OnReturn (λ a. o ≡ some a) (deref o)
OnReturn-deref none = tt
OnReturn-deref (some a) = refl

pub OnReturn-assert : (b : Bool) → OnReturn (λ u. b ≡ true) (assert b)
OnReturn-assert true = refl
OnReturn-assert false = tt
