-- ===== src/Streaming/Usage/Sums.antt =====
-- The counts of input tokens that a message is closed with.
use luicode.Base.{ℕ, ◌+◌, ◌≡◌, ◌⊎◌, inl, refl, arith, Option, none, some, List, [], ◌∷◌}
use luicode.Base.Dict.{values}
use luicode.Streaming.Usage.{anthropic_input_usage_fields}

abbrev pub sum_of : List ℕ → ℕ
sum_of [] = 0
sum_of (n ∷ ns) = n + sum_of ns

-- The counts are left out, or they add up to the inclusive total: no token is counted twice and none
-- is dropped, whatever the two cached counts are.
pub anthropic_input_usage_fields-total :
    (total : ℕ) (read creation : Option ℕ)
    → (anthropic_input_usage_fields (some total) read creation ≡ [])
      ⊎ (sum_of (values (anthropic_input_usage_fields (some total) read creation)) ≡ total)
unfolding anthropic_input_usage_fields
anthropic_input_usage_fields-total total none none = inl refl
anthropic_input_usage_fields-total total (some r) none = ground arith
anthropic_input_usage_fields-total total none (some w) = ground arith
anthropic_input_usage_fields-total total (some r) (some w) = ground arith
