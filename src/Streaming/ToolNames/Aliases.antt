-- ===== src/Streaming/ToolNames/Aliases.antt =====
-- The search for a free alias: the loop of `_unique_alias`.
use luicode.Base.{
  string_eq, nat_eq, str_eq_iff, ℕ, zero, suc, ◌+◌, ◌<◌, ◌≤◌, Bool, true, false, String, Option,
  some, List, [], ◌∷◌, if◌then◌else◌, ◌≡◌, ◌≢◌, refl, ap, ◌∙◌, arith, contains, without,
  contains-without, length, is_some, Bool-cases, Option-cases, inl, inr,
}
use luicode.Streaming.ToolNames.{candidate, unique_alias}

length-without-le : (x : String) (xs : List String) → length (without x xs) ≤ length xs
unfolding without
length-without-le x [] = ground arith
length-without-le x (y ∷ ys) = ground (arith, length-without-le x ys)

length-without :
    (x : String) (xs : List String) → contains x xs ≡ true → length (without x xs) < length xs
unfolding without contains
length-without x [] h = ground (arith, h)
length-without x (y ∷ ys) h =
    ground (arith, h, length-without x ys, length-without-le x ys, str_eq_iff x y, str_eq_iff y x)

module _ (portable : String → Bool) (sorted : List String → List String)
    (substituted stripped rstripped cut digest : String → String)
    (numbered : String → ℕ → String) where
  -- The alias of an attempt, and the search from an attempt on.
  abbrev pub alias_at : String → ℕ → String
  alias_at = candidate portable sorted substituted stripped rstripped cut digest numbered

  abbrev pub search_alias : ℕ → String → List String → ℕ → Option String
  search_alias = unique_alias portable sorted substituted stripped rstripped cut digest numbered

  search-same :
      (fuel : ℕ) (name : String) (r r' : List String) (a : ℕ)
      → ((j : ℕ)
          → a ≤ j
          → j < a + fuel
          → contains (alias_at name j) r ≡ contains (alias_at name j) r')
      → search_alias fuel name r a ≡ search_alias fuel name r' a
  unfolding unique_alias
  search-same zero name r r' a h = refl
  search-same (suc fuel) name r r' a h = rw (
    h a (omega arith) (omega arith),
    search-same fuel name r r' (a + 1) (λ j le lt. h j (omega (arith, le)) (omega (arith, lt))),
  )

  -- The attempts from `a` to below `b` make different aliases.
  abbrev pub Apart : String → ℕ → ℕ → Type 0
  Apart name a b =
      (i j : ℕ) → a ≤ i → i < b → a ≤ j → j < b → alias_at name i ≡ alias_at name j → i ≡ j

  others_kept :
      (fuel : ℕ) (name : String) (r : List String) (a j : ℕ)
      → Apart name a (a + suc fuel)
      → a + 1 ≤ j
      → j < a + 1 + fuel
      → contains (alias_at name j) r ≡ contains (alias_at name j) (without (alias_at name a) r)
  others_kept fuel name r a j apart le lt =
      let differ : alias_at name j ≢ alias_at name a = λ q. omega (
        arith,
        le,
        apart j a (omega (arith, le)) (omega (arith, lt)) (omega arith) (omega arith) q,
      ) in
      kept (alias_at name j) (alias_at name a) differ
    where
      kept : (x y : String) → x ≢ y → contains x r ≡ contains x (without y r)
      kept x y differ = ground (arith, differ, contains-without x y r, str_eq_iff x y)

  search_found :
      (fuel : ℕ) (name : String) (r : List String) (a : ℕ)
      → length r < fuel
      → Apart name a (a + fuel)
      → is_some (search_alias fuel name r a) ≡ true
  unfolding unique_alias
  search_found zero name r a lt apart = absurd (omega (arith, lt))
  search_found (suc fuel) name r a lt apart =
      let left = without (alias_at name a) r in
      elim (Bool-cases (contains (alias_at name a) r)) [
        | inl taken ↦ rw taken (
            ap is_some (
              search-same fuel name r left (a + 1)
                (λ j le lt'. others_kept fuel name r a j apart le lt'))
            ∙ search_found fuel name left (a + 1)
                (omega (arith, lt, length-without (alias_at name a) r taken))
                (λ i j x y z w q.
                  apart i j (omega (arith, x)) (omega (arith, y)) (omega (arith, z))
                    (omega (arith, w)) q))
        | inr free ↦ rw free refl
      ]

  search_free :
      (fuel : ℕ) (name : String) (r : List String) (a : ℕ) (x : String)
      → search_alias fuel name r a ≡ some x
      → contains x r ≡ false
  unfolding unique_alias
  search_free zero name r a x e = ground (arith, e)
  search_free (suc fuel) name r a x e =
      free_of (alias_at name a) (search_alias fuel name r (a + 1))
        (search_free fuel name r (a + 1) x) e
    where
      free_of :
          (y : String) (rest : Option String)
          → (rest ≡ some x → contains x r ≡ false)
          → (if contains y r then rest else some y) ≡ some x
          → contains x r ≡ false
      free_of y rest later e = ground (arith, later, e)

  -- The loop ends: when the first attempts make different aliases, one more of them than names are
  -- reserved, the search with that much fuel finds an alias that is not reserved.
  pub unique_alias-free :
      (name : String) (reserved : List String)
      → Apart name 0 (suc (length reserved))
      → (alias : String) × (search_alias (suc (length reserved)) name reserved 0 ≡ some alias)
        × (contains alias reserved ≡ false)
  unique_alias-free name reserved apart =
      let found =
        search_found (suc (length reserved)) name reserved 0 (omega arith)
          (λ i j x y z w q. apart i j x (omega (arith, y)) z (omega (arith, w)) q) in
      elim (Option-cases (search_alias (suc (length reserved)) name reserved 0)) [
        | inl lost ↦ absurd (ground (arith, found, lost))
        | inr (alias, e) ↦ (alias, e, search_free (suc (length reserved)) name reserved 0 alias e)
      ]
