-- ===== src/Base/Outcome.antt =====
-- What a method that may raise comes back with. `E` is the type of the exceptions.
use mathlib.Core.Path.{◌≡◌, refl}
use mathlib.Core.Bool.{Bool, true, false}

pub data Outcome {ℓ} (E A : Type ℓ) : Type ℓ where
  ok : A → Outcome E A
  raised : E → Outcome E A

infixl 5 ◌>>=◌ ◌>>◌
abbrev pub ◌>>=◌ {ℓ} : {E A B : Type ℓ} → Outcome E A → (A → Outcome E B) → Outcome E B
ok a >>= f = f a
raised e >>= f = raised e

abbrev pub ◌>>◌ : {E B : Type 0} → Outcome E (Unit {0}) → Outcome E B → Outcome E B
m >> k = m >>= λ _. k

-- `if b: raise e`
abbrev pub raise_if : {E : Type 0} → Bool → E → Outcome E (Unit {0})
raise_if true e = raised e
raise_if false e = ok tt

-- The method returns, and what it returns is so: total correctness.
abbrev pub Returns : {E A : Type 0} → Outcome E A → (A → Type 0) → Type 0
Returns (ok a) P = P a
Returns (raised e) P = ⊥

pub Returns-bind :
    {E A B : Type 0} (m : Outcome E A) (f : A → Outcome E B) (P : A → Type 0) (Q : B → Type 0)
    → Returns m P
    → ((a : A) → P a → Returns (f a) Q)
    → Returns (m >>= f) Q
Returns-bind (ok a) f P Q h k = k a h
Returns-bind (raised e) f P Q h k = absurd h

pub Returns-mono :
    {E A : Type 0} (m : Outcome E A) (P Q : A → Type 0)
    → ((a : A) → P a → Q a)
    → Returns m P
    → Returns m Q
Returns-mono (ok a) P Q k h = k a h
Returns-mono (raised e) P Q k h = h

-- A method that returns has passed its first step.
pub ok_first :
    {E A B : Type 0} {b : B} (k : A → Outcome E B) (o : Outcome E A)
    → (o >>= k) ≡ ok b
    → (first : A) × ((o ≡ ok first) × (k first ≡ ok b))
ok_first k (raised e) h = cc
ok_first k (ok first) h = (first, (refl, h))

-- A step that raises leaves the state `s` behind it.
abbrev pub leaving : {E S A : Type 0} → S → Outcome E A → Outcome (E × S) A
leaving s (ok a) = ok a
leaving s (raised e) = raised (e, s)

pub Returns-leaving :
    {E S A : Type 0} (s : S) (m : Outcome E A) (P : A → Type 0)
    → Returns m P
    → Returns (leaving s m) P
Returns-leaving s (ok a) P h = h
Returns-leaving s (raised e) P h = h
