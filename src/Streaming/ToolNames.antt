-- ===== src/Streaming/ToolNames.antt =====
-- `OpenAIToolNameCodec` of src/luicode/core/openai_tool_names.py. What `re` and `hashlib` do is a
-- parameter: the portable names, the readable part of an alias, and the digest of a text.
pub mod Aliases
pub mod RoundTrip
use luicode.Base.{
  string_eq, ℕ, zero, suc, ◌+◌, Bool, true, false, not, ◌&&◌, ◌||◌, String, Option, none, some,
  List, [], ◌∷◌, ◌==◌, if◌then◌else◌, truthy, contains, starts_with, append, length,
}
use luicode.Base.Dict.{Dict, lookup, insert, has, keys}

pub record OpenAiToolNameCodec : Type 0 where
  pub original_to_alias : Dict String String
  pub alias_to_original : Dict String String
  pub unchanged_names : List String

abbrev or_same : String → Option String → String
or_same name none = name
or_same name (some s) = s

unfoldable pub encode : OpenAiToolNameCodec → String → String
encode c name = or_same name (lookup name c.original_to_alias)

unfoldable pub decode : OpenAiToolNameCodec → String → String
decode c name = or_same name (lookup name c.alias_to_original)

abbrev pub is_alias : OpenAiToolNameCodec → String → Bool
is_alias c s = has s c.alias_to_original

abbrev pub is_unchanged_name : OpenAiToolNameCodec → String → Bool
is_unchanged_name c s = contains s c.unchanged_names

abbrev nonempty : Dict String String → Bool
nonempty [] = false
nonempty (e ∷ es) = true

abbrev pub has_aliases : OpenAiToolNameCodec → Bool
has_aliases c = nonempty c.original_to_alias

abbrev begins_some : String → List String → Bool
begins_some s [] = false
begins_some s (a ∷ as') = (not (a == s) && starts_with s a) || begins_some s as'

unfoldable pub is_alias_prefix : OpenAiToolNameCodec → String → Bool
is_alias_prefix c s = truthy s && begins_some s (keys c.alias_to_original)

-- `substituted` is `_INVALID_TOOL_NAME_CHARACTERS.sub("_", name)`, `stripped` and `rstripped` take the
-- marks off, `cut` keeps the first 47 characters, `digest` the first 16 of the SHA-256 of a text, and
-- `numbered name attempt` is `f"{name}\0{attempt}"`.
module _ (portable : String → Bool) (sorted : List String → List String)
    (substituted stripped rstripped cut digest : String → String)
    (numbered : String → ℕ → String) where
  abbrev or_tool : String → String
  or_tool s = if truthy s then s else "tool"

  abbrev readable : String → String
  readable name = or_tool (rstripped (cut (or_tool (stripped (substituted name)))))

  abbrev digest_input : String → ℕ → String
  digest_input name zero = name
  digest_input name (suc n) = numbered name (suc n)

  -- The alias of one round of the loop.
  abbrev pub candidate : String → ℕ → String
  candidate name attempt = append (append (readable name) "_") (digest (digest_input name attempt))

  -- `_unique_alias` from an attempt on; `none` when the fuel runs out.
  unfoldable pub unique_alias : ℕ → String → List String → ℕ → Option String
  unique_alias zero name reserved attempt = none
  unique_alias (suc fuel) name reserved attempt =
      let rest = unique_alias fuel name reserved (attempt + 1) in
      if contains (candidate name attempt) reserved then rest else some (candidate name attempt)

  abbrev pub selected : (String → Bool) → List String → List String
  selected p [] = []
  selected p (n ∷ ns) = let rest = selected p ns in if p n then n ∷ rest else rest

  abbrev pub with_alias : String → String → OpenAiToolNameCodec → OpenAiToolNameCodec
  with_alias name alias c = record c {
    original_to_alias = insert name alias c.original_to_alias;
    alias_to_original = insert alias name c.alias_to_original;
  }

  abbrev pub after_alias :
      Option String → (String → Option OpenAiToolNameCodec) → Option OpenAiToolNameCodec
  after_alias none f = none
  after_alias (some alias) f = f alias

  -- The loop over the names that need an alias.
  unfoldable pub add_aliases :
      List String → List String → OpenAiToolNameCodec → Option OpenAiToolNameCodec
  add_aliases [] reserved c = some c
  add_aliases (n ∷ ns) reserved c =
      after_alias (unique_alias (suc (length reserved)) n reserved 0)
        (λ alias. add_aliases ns (alias ∷ reserved) (with_alias n alias c))

  -- `{name for name in names if name}`, in some order
  abbrev pub unique_names : List String → List String
  unique_names [] = []
  unique_names (n ∷ ns) =
      let rest = unique_names ns in if truthy n && not (contains n rest) then n ∷ rest else rest

  abbrev pub codec_of : List String → OpenAiToolNameCodec
  codec_of portable_names = record {
    original_to_alias = [];
    alias_to_original = [];
    unchanged_names = portable_names;
  }

  unfoldable pub from_names : List String → Option OpenAiToolNameCodec
  unfolding add_aliases unique_alias
  from_names names =
      let unique = unique_names names in
      let portable_names = selected portable unique in
      add_aliases (sorted (selected (λ n. not (portable n)) unique)) portable_names
        (codec_of portable_names)
