-- ===== src/Streaming/Responses/Slots.antt =====
-- The calls of a response against the tools of the ledger: each call has an index of its own, and a
-- call that is started and not stopped is a started tool.
use luicode.Base.{
  string_eq, nat_eq, nat_beq_iff, str_eq_iff, ℕ, ◌+◌, ◌<◌, ◌≤◌, true, false, not, String, none,
  some, [], ◌∷◌, ◌==◌, if◌then◌else◌, ◌≡◌, ◌⊎◌, ◌≢◌, inl, inr, refl, sym, ap, ◌∙◌, subst, arith,
  length,
}
use luicode.Base.Dict.{Dict, lookup, insert, has, lookup-insert}
use luicode.Streaming.Blocks.{ToolBlockState}
use luicode.Streaming.Responses.{ToolState}

length-insert :
    (k : String) (v : ToolState) (d : Dict String ToolState)
    → length (insert k v d) ≡ (if has k d then length d else length d + 1)
unfolding insert lookup
length-insert k v [] = refl
length-insert k v ((i, w) ∷ d) = ground (arith, length-insert k v d)

pub record Slots (tools : Dict String ToolState) (states : Dict ℕ ToolBlockState) : Type 0 where
  pub bounded :
      (id : String) (st : ToolState) → lookup id tools ≡ some st → st.tool_index < length tools
  pub apart :
      (i j : String) (s t : ToolState)
      → lookup i tools ≡ some s
      → lookup j tools ≡ some t
      → s.tool_index ≡ t.tool_index
      → i ≡ j
  pub live :
      (id : String) (st : ToolState)
      → lookup id tools ≡ some st
      → st.started ≡ true
      → (x : ToolBlockState) × (lookup st.tool_index states ≡ some x) × (x.started ≡ not st.stopped)
  pub idle :
      (id : String) (st : ToolState)
      → lookup id tools ≡ some st
      → st.started ≡ false
      → lookup st.tool_index states ≡ none
  pub unused : (k : ℕ) → length tools ≤ k → lookup k states ≡ none

-- The state that a call has, or gets.
pub record Placed (tools : Dict String ToolState) (id : String) (i : ℕ) : Type 0 where
  pub at_index :
      (lookup id tools ≡ none × (i ≡ length tools))
      ⊎ ((st : ToolState) × (lookup id tools ≡ some st) × (st.tool_index ≡ i))

module _ (tools : Dict String ToolState) (states : Dict ℕ ToolBlockState) (v : Slots tools states)
    (id : String) (st : ToolState) (place : Placed tools id st.tool_index) where
  others_apart :
      (j : String) (t : ToolState) → lookup j tools ≡ some t → id ≢ j → st.tool_index ≢ t.tool_index
  others_apart j t e other same = elim place.at_index [
    | inl (fresh, last) ↦ ground (arith, last, same, v.bounded j t e)
    | inr (old, found, own) ↦ other (v.apart id j old t found e (own ∙ same))
  ]

  first_index : lookup id tools ≡ none → length tools ≤ st.tool_index
  first_index fresh = elim place.at_index [
    | inl (_, last) ↦ omega (arith, last)
    | inr (old, found, own) ↦ ground (arith, found, fresh)
  ]

  own_bound : st.tool_index < length (insert id st tools)
  own_bound = elim place.at_index [
    | inl (fresh, last) ↦ ground (arith, fresh, last, length-insert id st tools)
    | inr (old, found, own) ↦
        ground (arith, found, own, v.bounded id old found, length-insert id st tools)
  ]

  grown : length tools ≤ length (insert id st tools)
  grown = ground (arith, length-insert id st tools)

  inserted :
      (i : String) (s : ToolState)
      → lookup i (insert id st tools) ≡ some s
      → ((id ≡ i) × (st ≡ s)) ⊎ ((id ≢ i) × (lookup i tools ≡ some s))
  inserted i s e = ground (arith, e, lookup-insert id i st tools, str_eq_iff id i)

  abbrev Found : String → ToolState → Type 0
  Found i s = ((id ≡ i) × (st ≡ s)) ⊎ ((id ≢ i) × (lookup i tools ≡ some s))

  inserted_apart :
      (i j : String) (s t : ToolState) → s.tool_index ≡ t.tool_index → Found i s → Found j t → i ≡ j
  inserted_apart i j s t q (inl (a, _)) (inl (b, _)) = sym a ∙ b
  inserted_apart i j s t q (inl (_, mine)) (inr (other, found)) =
      absurd (others_apart j t found other (ap (λ y. y.tool_index) mine ∙ q))
  inserted_apart i j s t q (inr (other, found)) (inl (_, mine)) =
      absurd (others_apart i s found other (ap (λ y. y.tool_index) mine ∙ sym q))
  inserted_apart i j s t q (inr (_, found)) (inr (_, found')) = v.apart i j s t found found' q

  -- A call is started, or goes on, and its tool in the ledger is `x`.
  pub Slots-put :
      (states' : Dict ℕ ToolBlockState) (x : ToolBlockState)
      → ((k : ℕ) → lookup k states' ≡ (if st.tool_index == k then some x else lookup k states))
      → st.started ≡ true
      → x.started ≡ not st.stopped
      → Slots (insert id st tools) states'
  Slots-put states' x at_k on live = record {
    bounded = λ i s e. elim (inserted i s e) [
      | inl (_, mine) ↦ subst (λ y. y.tool_index < length (insert id st tools)) mine own_bound
      | inr (_, found) ↦ omega (arith, v.bounded i s found, grown)
    ];
    apart = λ i j s t e f q. inserted_apart i j s t q (inserted i s e) (inserted j t f);
    live = λ i s e h. elim (inserted i s e) [
      | inl (_, mine) ↦ (
        x,
        ground (
          arith,
          at_k s.tool_index,
          ap (λ y. y.tool_index) mine,
          nat_beq_iff st.tool_index s.tool_index,
        ),
        live ∙ ap (λ y. not y.stopped) mine,
      )
      | inr (other, found) ↦
          let (y, there, so) = v.live i s found h in
          (
            y,
            ground (
              arith,
              at_k s.tool_index,
              there,
              others_apart i s found other,
              nat_beq_iff st.tool_index s.tool_index,
            ),
            so,
          )
    ];
    idle = λ i s e h. elim (inserted i s e) [
      | inl (_, mine) ↦ ground (arith, on, h, mine)
      | inr (other, found) ↦ ground (
        arith,
        at_k s.tool_index,
        v.idle i s found h,
        others_apart i s found other,
        nat_beq_iff st.tool_index s.tool_index,
      )
    ];
    unused =
        λ k h. ground (arith, at_k k, v.unused k, own_bound, grown, h, nat_beq_iff st.tool_index k);
  }

  -- A call is added that is not started.
  pub Slots-add : lookup id tools ≡ none → st.started ≡ false → Slots (insert id st tools) states
  Slots-add fresh off =
      let last : lookup st.tool_index states ≡ none = v.unused st.tool_index (first_index fresh) in
      record {
        bounded = λ i s e. elim (inserted i s e) [
          | inl (_, mine) ↦ subst (λ y. y.tool_index < length (insert id st tools)) mine own_bound
          | inr (_, found) ↦ omega (arith, v.bounded i s found, grown)
        ];
        apart = λ i j s t e f q. inserted_apart i j s t q (inserted i s e) (inserted j t f);
        live = λ i s e h. elim (inserted i s e) [
          | inl (_, mine) ↦ ground (arith, off, h, mine)
          | inr (_, found) ↦ v.live i s found h
        ];
        idle = λ i s e h. elim (inserted i s e) [
          | inl (_, mine) ↦ subst (λ y. lookup y.tool_index states ≡ none) mine last
          | inr (_, found) ↦ v.idle i s found h
        ];
        unused = λ k h. v.unused k (omega (arith, grown, h));
      }
