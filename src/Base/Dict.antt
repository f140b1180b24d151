-- ===== src/Base/Dict.antt =====
-- Python's `dict`: entries in the order of insertion, each key once.
use mathlib.Core.Path.{◌≡◌, refl}
use mathlib.Core.Bool.{Bool, ◌||◌}
use mathlib.Core.List.{List, [], ◌∷◌}
use mathlib.Core.Option
use mathlib.Core.Option.{Option, none, some}
use native.Mathlib.Omega.{arith}
use luicode.Base.Tests.{Eq, ◌==◌, if◌then◌else◌, is_some}
use luicode.Base.Lists.{contains, Distinct}

abbrev pub Dict {ℓ} : Type ℓ → Type ℓ → Type ℓ
Dict K V = List (K × V)

module _ {ℓ} {K V : Type ℓ} where
  abbrev pub keys : Dict K V → List K
  keys [] = []
  keys ((k, v) ∷ d) = k ∷ keys d

  abbrev pub values : Dict K V → List V
  values [] = []
  values ((k, v) ∷ d) = v ∷ values d

module _ {ℓ} {K V : Type ℓ} ⦃e : Eq K⦄ where
  -- d.get(k)
  unfoldable pub lookup : K → Dict K V → Option V
  lookup k [] = none
  lookup k ((j, v) ∷ d) = if j == k then some v else lookup k d

  -- k in d
  abbrev pub has : K → Dict K V → Bool
  has k d = is_some (lookup k d)

  -- d[k] = v: a key that is there keeps its place.
  unfoldable pub insert : K → V → Dict K V → Dict K V
  insert k v [] = (k, v) ∷ []
  insert k v ((j, w) ∷ d) = if j == k then (k, v) ∷ d else (j, w) ∷ insert k v d

  -- d.pop(k, None)
  unfoldable pub erase : K → Dict K V → Dict K V
  erase k [] = []
  erase k ((j, w) ∷ d) = let rest = erase k d in if j == k then rest else (j, w) ∷ rest

  -- A change of the object that d[k] refers to.
  unfoldable pub modify : K → (V → V) → Dict K V → Dict K V
  modify k f [] = []
  modify k f ((j, w) ∷ d) = (j, (if j == k then f w else w)) ∷ modify k f d

  pub lookup-insert :
      (k j : K) (v : V) (d : Dict K V)
      → lookup j (insert k v d) ≡ (if k == j then some v else lookup j d)
  unfolding lookup insert
  lookup-insert k j v [] = refl
  lookup-insert k j v ((i, w) ∷ d) =
      ground (arith, lookup-insert k j v d, e.agree_iff i k, e.agree_iff i j, e.agree_iff k j)

  pub lookup-erase :
      (k j : K) (d : Dict K V) → lookup j (erase k d) ≡ (if k == j then none else lookup j d)
  unfolding lookup erase
  lookup-erase k j [] = ground arith
  lookup-erase k j ((i, w) ∷ d) =
      ground (arith, lookup-erase k j d, e.agree_iff i k, e.agree_iff i j, e.agree_iff k j)

  pub lookup-modify :
      (k j : K) (f : V → V) (d : Dict K V)
      → lookup j (modify k f d) ≡ (if k == j then Option.map f (lookup j d) else lookup j d)
  unfolding lookup modify
  lookup-modify k j f [] = ground arith
  lookup-modify k j f ((i, w) ∷ d) =
      ground (arith, lookup-modify k j f d, e.agree_iff i k, e.agree_iff i j, e.agree_iff k j)

  pub keys-modify : (k : K) (f : V → V) (d : Dict K V) → keys (modify k f d) ≡ keys d
  unfolding modify
  keys-modify k f [] = refl
  keys-modify k f ((i, w) ∷ d) = rw (keys-modify k f d)

  pub contains-keys : (k : K) (d : Dict K V) → contains k (keys d) ≡ has k d
  unfolding lookup contains
  contains-keys k [] = refl
  contains-keys k ((i, w) ∷ d) = ground (arith, contains-keys k d, e.agree_iff i k, e.agree_iff k i)

  contains-keys-insert :
      (j k : K) (v : V) (d : Dict K V)
      → contains j (keys (insert k v d)) ≡ (j == k || contains j (keys d))
  unfolding contains insert
  contains-keys-insert j k v [] = ground arith
  contains-keys-insert j k v ((i, w) ∷ d) =
      ground
        (arith, contains-keys-insert j k v d, e.agree_iff i k, e.agree_iff j k, e.agree_iff j i)

  -- A dictionary has each key once.
  pub Distinct-keys-insert :
      (k : K) (v : V) (d : Dict K V) → Distinct (keys d) → Distinct (keys (insert k v d))
  unfolding contains insert
  Distinct-keys-insert k v [] h = (refl, tt)
  Distinct-keys-insert k v ((i, w) ∷ d) h = ground (
    arith,
    Distinct-keys-insert k v d h.1,
    contains-keys-insert i k v d,
    contains-keys k d,
    e.agree_iff i k,
  )
