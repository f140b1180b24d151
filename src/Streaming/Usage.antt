-- ===== src/Streaming/Usage.antt =====
-- `anthropic_input_usage_fields` of src/luicode/core/anthropic/usage.py. A count of tokens that the
-- upstream gives is a natural number or missing; a negative one counts as missing there.
pub mod Sums
use luicode.Base.{
  string_eq, ℕ, ◌-◌, leb, Bool, false, String, Option, none, some, [], ◌∷◌, ◌++◌, if◌then◌else◌,
}
use luicode.Base.Dict.{Dict}

abbrev fits : Option ℕ → ℕ → Bool
fits none left = false
fits (some n) left = leb n left

abbrev count : Option ℕ → ℕ
count none = 0
count (some n) = n

-- `remaining_tokens -= n` where `n` fits
abbrev taken : Option ℕ → ℕ → ℕ
taken n left = if fits n left then left - count n else left

abbrev shown : String → Option ℕ → ℕ → Dict String ℕ
shown key n left = if fits n left then (key, count n) ∷ [] else []

abbrev with_rest : ℕ → Dict String ℕ → Dict String ℕ
with_rest left [] = []
with_rest left (f ∷ fs) = ("input_tokens", left) ∷ f ∷ fs

unfoldable pub anthropic_input_usage_fields : Option ℕ → Option ℕ → Option ℕ → Dict String ℕ
anthropic_input_usage_fields none read creation = []
anthropic_input_usage_fields (some total) read creation =
    let left = taken read total in
    with_rest (taken creation left) (
      shown "cache_read_input_tokens" read total
      ++ shown "cache_creation_input_tokens" creation left)
