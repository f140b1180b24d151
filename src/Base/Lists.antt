-- ===== src/Base/Lists.antt =====
-- Lists measured by native numbers, and the membership tests that Python's sets are used for.
use Prim.Native.Nat.{ℕ, suc, ◌+◌}
use mathlib.Core.Path.{◌≡◌, refl}
use mathlib.Core.Bool.{Bool, true, false, ◌||◌}
use mathlib.Core.List.{List, [], ◌∷◌, ◌++◌}
use native.Mathlib.Omega.{arith}
use luicode.Base.Tests.{Eq, ◌==◌, if◌then◌else◌}

module _ {ℓ} {A : Type ℓ} where
  abbrev pub length : List A → ℕ
  length [] = 0
  length (x ∷ xs) = suc (length xs)

  pub length-append : (xs ys : List A) → length (xs ++ ys) ≡ length xs + length ys
  length-append [] ys = omega arith
  length-append (x ∷ xs) ys = omega (arith, length-append xs ys)

  abbrev pub All {κ} : (A → Type κ) → List A → Type κ
  All P [] = Unit
  All P (first ∷ rest) = P first × All P rest

module _ {ℓ} {A : Type ℓ} ⦃e : Eq A⦄ where
  unfoldable pub contains : A → List A → Bool
  contains a [] = false
  contains a (x ∷ xs) = a == x || contains a xs

  -- `[x for x in xs if x != a]`
  unfoldable pub without : A → List A → List A
  without a [] = []
  without a (x ∷ xs) = let rest = without a xs in if x == a then rest else x ∷ rest

  -- No item stands twice.
  abbrev pub Distinct : List A → Type 0
  Distinct [] = Unit {0}
  Distinct (x ∷ xs) = (contains x xs ≡ false) × Distinct xs

  pub contains-append :
      (a : A) (xs ys : List A) → contains a (xs ++ ys) ≡ (contains a xs || contains a ys)
  unfolding contains
  contains-append a [] ys = refl
  contains-append a (x ∷ xs) ys = ground (arith, contains-append a xs ys)

  pub contains-without :
      (a b : A) (xs : List A)
      → contains a (without b xs) ≡ (if a == b then false else contains a xs)
  unfolding contains without
  contains-without a b [] = ground arith
  contains-without a b (x ∷ xs) =
      ground (arith, contains-without a b xs, e.agree_iff a b, e.agree_iff x b, e.agree_iff a x)

  pub without-absent : (a : A) (xs : List A) → contains a xs ≡ false → without a xs ≡ xs
  unfolding contains without
  without-absent a [] h = refl
  without-absent a (x ∷ xs) h =
      ground (arith, without-absent a xs, e.agree_iff a x, e.agree_iff x a)

  pub Distinct-without : (a : A) (xs : List A) → Distinct xs → Distinct (without a xs)
  unfolding without
  Distinct-without a [] h = tt
  Distinct-without a (x ∷ xs) h = ground (arith, Distinct-without a xs h.1, contains-without x a xs)

  pub Distinct-snoc :
      (xs : List A) (a : A) → contains a xs ≡ false → Distinct xs → Distinct (xs ++ a ∷ [])
  unfolding contains
  Distinct-snoc [] a h d = (refl, tt)
  Distinct-snoc (x ∷ xs) a h d =
      ground
        (arith, Distinct-snoc xs a, contains-append x xs (a ∷ []), e.agree_iff a x, e.agree_iff x a)

  pub All-of-contains {κ} :
      (P : A → Type κ) (xs : List A) → ((x : A) → contains x xs ≡ true → P x) → All P xs
  unfolding contains
  All-of-contains P [] h = tt
  All-of-contains P (x ∷ xs) h =
      (h x (ground (arith, e.agree_iff x x)), All-of-contains P xs (λ y m. h y (ground (arith, m))))
