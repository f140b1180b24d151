-- ===== src/Streaming/Tests.antt =====
-- The theorems of the streams at concrete responses.
use luicode.Base.{
  str_eq_iff, inl, inr, ◌++◌, List, ◌+◌, some, append, zero, suc, ◌⊎◌, truthy, ap, contains,
  string_eq, nat_eq, ℕ, Bool, true, false, String, Option, none, [], ◌∷◌, ◌++◌, ◌==◌, ◌≡◌, refl,
}
use luicode.Base.Dict.{values, lookup, insert, erase}
use luicode.Base.Json.{Json, str, obj, end, field, get}
use luicode.Base.Outcome.{ok, raised, Returns}
use luicode.Streaming.Contract.{meets_contract, text_content}
use luicode.Streaming.ToolNames.{OpenAiToolNameCodec, decode, encode, from_names}
use luicode.Streaming.ToolNames.Aliases.{alias_at, search_alias, unique_alias-free}
use luicode.Streaming.ToolNames.RoundTrip.{from_names-decode-encode}
use luicode.Streaming.Usage.{anthropic_input_usage_fields}
use luicode.Streaming.Usage.Sums.{sum_of, anthropic_input_usage_fields-total}
use Prim.Native.Nat.{◌%◌, ◌<◌}
use Prim.Native.String.{count}
use native.Mathlib.Omega.{arith}
use text.Mathlib.TextLemmas.{length-append}
use luicode.Streaming.Responses.{ResponsesProviderStream, Fed, new_stream, start}
use luicode.Streaming.Responses.Heard.{text_content-said}
use luicode.Streaming.Responses.Spoken.{said}
use luicode.Streaming.Responses.Whole.{Upstream, feed_all, all_orderly, response-meets_contract}

abbrev no_number : String → Option ℕ
no_number s = none

abbrev never : String → Bool
never s = false

abbrev one_token : String → ℕ
one_token s = 1

abbrev is_empty : String → Bool
is_empty s = s == ""

abbrev plain_names : OpenAiToolNameCodec
plain_names = record { original_to_alias = []; alias_to_original = []; unchanged_names = [] }

abbrev call_item : String → Json
call_item id = obj (
    field "type" (str "function_call") (
      field "id" (str id) (
        field "call_id" (str "call_1")
          (field "name" (str "read") (field "arguments" (str "{}") end)))))

-- A text, a call that is announced, and its end.
abbrev response : Upstream
response =
    ("response.output_text.delta", field "delta" (str "Reading.") end)
    ∷ ("response.output_item.added", field "item" (call_item "fc_1") end)
    ∷ (
      "response.function_call_arguments.delta",
      field "item_id" (str "fc_1") (field "delta" (str "{}") end),
    )
    ∷ ("response.output_item.done", field "item" (call_item "fc_1") end)
    ∷ ("response.completed", end)
    ∷ []

abbrev new_response : ResponsesProviderStream
new_response = new_stream "msg_1" "model" 7

response-meets_contract_example :
    Returns
      (feed_all no_number never one_token plain_names (start new_response).0 response)
      (λ r. meets_contract is_empty ((start new_response).1 ++ r.1) ≡ true)
unfolding all_orderly get lookup insert decode
response-meets_contract_example =
    response-meets_contract no_number never one_token plain_names is_empty refl "msg_1" "model" 7
      response refl refl

text_content-said_example :
    Returns
      (feed_all no_number never one_token plain_names (start new_response).0 response)
      (λ r. (text_content r.1 ≡ said response) ⊎ (text_content r.1 ≡ said response ++ " " ∷ []))
unfolding all_orderly get lookup insert decode
text_content-said_example =
    text_content-said no_number never one_token plain_names "msg_1" "model" 7 response refl refl

abbrev seen_by_client : Fed → Bool
seen_by_client (ok r) = meets_contract is_empty ((start new_response).1 ++ r.1)
seen_by_client (raised e) = true

-- Two calls whose items have no id: the second one's arguments go to the block of the first, which is
-- stopped.
unnamed_calls :
    seen_by_client (
      feed_all no_number never one_token plain_names (start new_response).0 (
        ("response.output_item.done", field "item" (call_item "") end)
        ∷ ("response.output_item.done", field "item" (call_item "") end)
        ∷ ("response.completed", end)
        ∷ []))
    ≡ false
unfolding feed_all meets_contract get lookup insert decode contains erase
unnamed_calls = refl

-- A digest keeps its text, and an attempt adds a mark for each one before it.
abbrev marks : ℕ → String
marks zero = ""
marks (suc n) = append "'" (marks n)

abbrev marked : String → ℕ → String
marked name n = append name (marks n)

abbrev same_text : String → String
same_text s = s

abbrev underscored : String → String
underscored s = "a_b"

abbrev is_portable : String → Bool
is_portable s = s == "read"

abbrev same_list : List String → List String
same_list xs = xs

abbrev example_alias : String → ℕ → String
example_alias =
    alias_at is_portable same_list underscored same_text same_text same_text same_text marked

count-marks : (n : ℕ) → count (marks n) ≡ n
count-marks zero = refl
count-marks (suc n) = omega (arith, length-append "'" (marks n), count-marks n)

count-alias : (name : String) (n : ℕ) → count (example_alias name n) ≡ 4 + count name + n
count-alias name zero = omega (arith, length-append "a_b_" name)
count-alias name (suc n) = omega (
  arith,
  length-append "a_b_" (marked name (suc n)),
  length-append name (marks (suc n)),
  count-marks (suc n),
)

aliases_differ : (name : String) (i j : ℕ) → example_alias name i ≡ example_alias name j → i ≡ j
aliases_differ name i j q =
    let same = ap count q in omega (arith, same, count-alias name i, count-alias name j)

unique_alias-free_example :
    (alias : String) × (search_alias is_portable same_list underscored same_text same_text same_text
        same_text marked 3 "a/b"
        ("read" ∷ "a_b_a/b" ∷ [])
        0
      ≡ some alias)
    × (contains alias ("read" ∷ "a_b_a/b" ∷ []) ≡ false)
unique_alias-free_example =
    unique_alias-free is_portable same_list underscored same_text same_text same_text same_text
      marked "a/b" ("read" ∷ "a_b_a/b" ∷ []) (λ i j x y z w q. aliases_differ "a/b" i j q)

-- A digest of few values, as a cut one has: texts whose lengths differ by 16 have the same.
abbrev short_digest : String → String
short_digest s = marks (count s % 16)

abbrev digest_alias : String → ℕ → String
digest_alias =
    alias_at is_portable same_list underscored same_text same_text same_text short_digest marked

count-digest_alias :
    (name : String) (n : ℕ) → count (digest_alias name n) ≡ 4 + (count name + n) % 16
count-digest_alias name zero =
    omega (arith, length-append "a_b_" (short_digest name), count-marks (count name % 16))
count-digest_alias name (suc n) = omega (
  arith,
  length-append "a_b_" (short_digest (marked name (suc n))),
  count-marks (count (marked name (suc n)) % 16),
  length-append name (marks (suc n)),
  count-marks (suc n),
)

short_digests_differ :
    (name : String) (i j : ℕ)
    → count name ≡ 3
    → i < 5
    → j < 5
    → digest_alias name i ≡ digest_alias name j
    → i ≡ j
short_digests_differ name i j three x y q =
    let same = ap count q in
    omega (arith, same, three, x, y, count-digest_alias name i, count-digest_alias name j)

slashed_or_spaced :
    (name : String)
    → contains name ("read" ∷ "a/b" ∷ "a b" ∷ "" ∷ []) ≡ true
    → truthy name ≡ true
    → is_portable name ≡ false
    → (name ≡ "a/b") ⊎ (name ≡ "a b")
unfolding contains
slashed_or_spaced name k t p = ground (
  arith,
  k,
  t,
  p,
  str_eq_iff name "read",
  str_eq_iff name "a/b",
  str_eq_iff name "a b",
  str_eq_iff name "",
)

three_characters : (name : String) → (name ≡ "a/b") ⊎ (name ≡ "a b") → count name ≡ 3
three_characters name (inl slashed) = ap count slashed
three_characters name (inr spaced) = ap count spaced

from_names-decode-encode_example :
    (c : OpenAiToolNameCodec) × (from_names is_portable same_list underscored same_text same_text
        same_text short_digest marked
        ("read" ∷ "a/b" ∷ "a b" ∷ "" ∷ [])
      ≡ some c)
    × ((n : String)
        → contains n ("read" ∷ "a/b" ∷ "a b" ∷ "" ∷ []) ≡ true
        → truthy n ≡ true
        → decode c (encode c n) ≡ n)
from_names-decode-encode_example =
    from_names-decode-encode is_portable same_list underscored same_text same_text same_text
      short_digest marked (λ xs. refl) (λ x xs. refl) ("read" ∷ "a/b" ∷ "a b" ∷ "" ∷ [])
      (λ name k t p i j x y z w q.
        short_digests_differ name i j (three_characters name (slashed_or_spaced name k t p)) y w q)

anthropic_input_usage_fields-total_example :
    (anthropic_input_usage_fields (some 10) (some 4) (some 9) ≡ [])
    ⊎ (sum_of (values (anthropic_input_usage_fields (some 10) (some 4) (some 9))) ≡ 10)
anthropic_input_usage_fields-total_example = anthropic_input_usage_fields-total 10 (some 4) (some 9)
