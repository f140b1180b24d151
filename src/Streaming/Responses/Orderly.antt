-- ===== src/Streaming/Responses/Orderly.antt =====
-- One event of an upstream that keeps to its protocol: it adds each call once, under a new id, it says
-- nothing of a call that is done, and it does not fail.
use luicode.Base.{
  string_eq, nat_eq, ℕ, Bool, true, false, not, ◌&&◌, ◌||◌, String, Option, none, some, ◌==◌,
  if◌then◌else◌, ◌≡◌, refl, ap, sym, subst, ◌∙◌, arith, inl, inr, truthy, length,
}
use luicode.Base.Dict.{Dict, lookup, insert, has}
use luicode.Base.Json.{Fields, get, fields_of}
use luicode.Streaming.Events.{text_delta, thinking_delta}
use luicode.Streaming.Blocks.{ToolBlockState}
use luicode.Streaming.Ledger.Calls.{
  ◌then_emit◌, emit_text_delta, emit_thinking_delta, ensure_text_block, ensure_thinking_block,
}
use luicode.Streaming.Contract.{Contract, in_text, in_thinking}
use luicode.Streaming.Ledger.Protocol.{
  passes_then, passes_weaken, delta_passes, SameTools, ThinkingOpen,
}
use luicode.Streaming.Ledger.Methods.{
  ensure_text_block_passes, ensure_thinking_block_passes, TextOnly,
}
use luicode.Streaming.ToolNames.{OpenAiToolNameCodec}
use luicode.Streaming.Responses.{
  ResponsesProviderStream, ToolState, nothing, new_tool_state, tool_or, string_at, is_type,
  given_text, either, remembered, tool_delta_of, call_done, hidden_done,
}
use luicode.Streaming.Responses.Feed.{
  add_text, tool_delta_in, reasoning_delta, item_added_in, item_done_in, remember_hidden, named,
  decoded_name,
}
use luicode.Streaming.Responses.Slots.{Slots, Slots-add, Placed}
use luicode.Streaming.Responses.Turns.{Slot}
use luicode.Streaming.Responses.Followed.{
  Follows, goes_on, Answers, nothing-Answers, passes-Answers, if-Answers, tool_delta_of-Answers,
  call_done-Answers, hidden_done-Answers,
}

abbrev implied : Bool → Bool → Bool
implied a b = not a || b

abbrev pub new_call : ResponsesProviderStream → Option Fields → Bool
new_call s none = true
new_call s (some item) =
    implied (is_type "function_call" item) (not (has (string_at "id" item) s.tools))

abbrev pub open_call : ResponsesProviderStream → Option Fields → Bool
open_call s none = true
open_call s (some item) =
    implied (is_type "function_call" item) (goes_on (lookup (string_at "id" item) s.tools))

abbrev pub fails : String → Bool
fails event_type =
    event_type == "response.failed" || event_type == "error" || event_type == "response.error"

-- The upstream's event finds the stream as its protocol has it.
unfoldable pub orderly : ResponsesProviderStream → String → Fields → Bool
orderly s event_type data' =
    s.completed
    || (implied (event_type == "response.output_item.added")
          (new_call s (fields_of (get "item" data')))
        && implied (event_type == "response.function_call_arguments.delta")
            (goes_on (lookup (string_at "item_id" data') s.tools))
        && implied (event_type == "response.output_item.done")
            (open_call s (fields_of (get "item" data')))
        && not (fails event_type))

abbrev pub is_final : String → Bool
is_final event_type = event_type == "response.completed" || event_type == "response.incomplete"

tool_or-Placed :
    (s : ResponsesProviderStream) (id call name : String) (o : Option ToolState)
    → lookup id s.tools ≡ o
    → Placed s.tools id (tool_or o (new_tool_state (length s.tools) call name)).tool_index
tool_or-Placed s id call name none e = record { at_index = inl (e, refl) }
tool_or-Placed s id call name (some st) e = record { at_index = inr (st, e, refl) }

tool_or-Slot :
    (s : ResponsesProviderStream) (states : Dict ℕ ToolBlockState) (id call name : String)
    (o : Option ToolState)
    → lookup id s.tools ≡ o
    → Slots s.tools states
    → Slot states (tool_or o (new_tool_state (length s.tools) call name))
tool_or-Slot s states id call name none e v = record {
  live = λ h. ground (arith, h);
  idle = λ h. v.unused (length s.tools) (ground arith);
}
tool_or-Slot s states id call name (some st) e v = record {
  live = v.live id st e;
  idle = v.idle id st e;
}

goes_on_or :
    (o : Option ToolState) (n : ℕ) (call name : String)
    → goes_on o ≡ true
    → (tool_or o (new_tool_state n call name)).stopped ≡ false
goes_on_or none n call name h = refl
goes_on_or (some st) n call name h = ground (arith, h)

if-Follows :
    (c : Contract) (b : Bool) (s s' : ResponsesProviderStream)
    → (b ≡ true → Follows s c)
    → (b ≡ false → Follows s' c)
    → Follows (if b then s else s') c
if-Follows c true s s' on off = on refl
if-Follows c false s s' on off = off refl

remember_hidden-Follows :
    (s : ResponsesProviderStream) (c : Contract) (id : String) (o : Option String)
    → Follows s c
    → Follows (remember_hidden s id o) c
remember_hidden-Follows s c id none v = v
remember_hidden-Follows s c id (some e) v = record {
  running = v.running;
  streaming = v.streaming;
  slots = v.slots;
}

added_call-Follows :
    (s : ResponsesProviderStream) (c : Contract) (id call name : String)
    → has id s.tools ≡ false
    → Follows s c
    → Follows (record s { tools = insert id (new_tool_state (length s.tools) call name) s.tools }) c
added_call-Follows s c id call name fresh v =
    let none_there : lookup id s.tools ≡ none = ground (arith, fresh) in
    record {
      running = v.running;
      streaming = v.streaming;
      slots =
          Slots-add s.tools s.ledger.blocks.tool_states v.slots id
            (new_tool_state (length s.tools) call name)
            (record { at_index = inl (none_there, refl) }) none_there refl;
    }

named_same :
    (name : String) (st : ToolState)
    → ((named name st).tool_index ≡ st.tool_index)
      × ((named name st).started ≡ st.started)
      × ((named name st).stopped ≡ st.stopped)
named_same name st = ground arith

named-Slot :
    (states : Dict ℕ ToolBlockState) (name : String) (st : ToolState)
    → Slot states st
    → Slot states (named name st)
named-Slot states name st v =
    elim (truthy st.name) as (λ b. Slot states (if b then st else record st { name = name })) [
      | true ↦ v
      | false ↦ record { live = v.live; idle = v.idle }
    ]

module _ (blank : String → Bool) (empty : blank "" ≡ true) where
  pub reasoning_delta-Answers :
      (s : ResponsesProviderStream) (c : Contract) (o : Option String)
      → Follows s c
      → Answers blank c (reasoning_delta s o)
  reasoning_delta-Answers s c none v = nothing-Answers blank s c v
  reasoning_delta-Answers s c (some d) v =
      let l = s.ledger in
      let t = l.blocks.tool_states in
      let r = ensure_thinking_block l in
      passes-Answers blank s c (r then_emit (λ l'. emit_thinking_delta l' d)) true v (
        passes_then blank c r (λ l'. emit_thinking_delta l' d) t t (ThinkingOpen l.blocks)
          (SameTools l.blocks) (ensure_thinking_block_passes blank l c t v.streaming)
          (λ c' v' h.
            passes_weaken blank c' (emit_thinking_delta r.0 d) t (λ b. b ≡ r.0.blocks)
              (SameTools l.blocks) (λ e. ap (λ b. b.tool_states) e ∙ h.0)
              (delta_passes blank r.0 c' t r.0.blocks.thinking_index in_thinking (thinking_delta d)
                (v'.named.thinking h.1) refl v')))

  pub add_text-Answers :
      (s : ResponsesProviderStream) (c : Contract) (o : Option String)
      → Follows s c
      → Answers blank c (add_text s o)
  add_text-Answers s c none v = nothing-Answers blank s c v
  add_text-Answers s c (some d) v =
      let l = s.ledger in
      let t = l.blocks.tool_states in
      let r = ensure_text_block l in
      passes-Answers blank s c (r then_emit (λ l'. emit_text_delta l' d)) true v (
        passes_then blank c r (λ l'. emit_text_delta l' d) t t (TextOnly l.blocks)
          (SameTools l.blocks) (ensure_text_block_passes blank empty l c t v.streaming)
          (λ c' v' h.
            passes_weaken blank c' (emit_text_delta r.0 d) t (λ b. b ≡ r.0.blocks)
              (SameTools l.blocks) (λ e. ap (λ b. b.tool_states) e ∙ h.0)
              (delta_passes blank r.0 c' t r.0.blocks.text_index in_text (text_delta d)
                (v'.named.text h.1) refl v')))

  pub tool_delta-Answers :
      (s : ResponsesProviderStream) (c : Contract) (id : String) (o : Option String)
      → Follows s c
      → goes_on (lookup id s.tools) ≡ true
      → Answers blank c (tool_delta_in s id o)
  tool_delta-Answers s c id none v h = nothing-Answers blank s c v
  tool_delta-Answers s c id (some d) v h =
      let old = lookup id s.tools in
      let st = tool_or old (new_tool_state (length s.tools) id "") in
      if-Answers blank c (truthy id) (tool_delta_of s id st d) (nothing s)
        (λ _.
          tool_delta_of-Answers blank s c id st d v (tool_or-Placed s id id "" old refl)
            (tool_or-Slot s s.ledger.blocks.tool_states id id "" old refl v.slots)
            (goes_on_or old (length s.tools) id "" h))
        (λ _. nothing-Answers blank s c v)

  module _ (int_of : String → Option ℕ) (zero : String → Bool) (tokens : String → ℕ)
      (tool_names : OpenAiToolNameCodec) where
    pub item_added-Follows :
        (s : ResponsesProviderStream) (c : Contract) (o : Option Fields)
        → Follows s c
        → new_call s o ≡ true
        → Follows (item_added_in int_of zero tokens tool_names s o) c
    item_added-Follows s c none v h = v
    item_added-Follows s c (some item) v h =
        let id = string_at "id" item in
        let call = either (string_at "call_id" item) id in
        let name = decoded_name int_of zero tokens tool_names item in
        let added = record s {
          tools = insert id (new_tool_state (length s.tools) call name) s.tools;
        } in
        let is_call = is_type "function_call" item && truthy id in
        let s' = if is_call then added else s in
        let v' =
          if-Follows c is_call added s
            (λ on. added_call-Follows s c id call name (ground (arith, h, on)) v) (λ _. v) in
        if-Follows c (is_type "reasoning" item && truthy id)
          (remember_hidden s' id (given_text (get "encrypted_content" item))) s'
          (λ _. remember_hidden-Follows s' c id (given_text (get "encrypted_content" item)) v')
          (λ _. v')

    pub item_done-Answers :
        (s : ResponsesProviderStream) (c : Contract) (o : Option Fields)
        → Follows s c
        → open_call s o ≡ true
        → Answers blank c (item_done_in int_of zero tokens tool_names s o)
    item_done-Answers s c none v h = nothing-Answers blank s c v
    item_done-Answers s c (some item) v h =
        let id = string_at "id" item in
        let old = lookup id s.tools in
        let call = either (string_at "call_id" item) id in
        let name = decoded_name int_of zero tokens tool_names item in
        let st = tool_or old (new_tool_state (length s.tools) call name) in
        let st' = named name st in
        let same = named_same name st in
        let hidden =
          remembered (given_text (get "encrypted_content" item))
            (lookup id s.encrypted_reasoning) in
        if-Answers blank c (is_type "function_call" item) (call_done s id st' item)
          (if is_type "reasoning" item then hidden_done s hidden else nothing s)
          (λ on.
            call_done-Answers blank s c id st' item v
              (subst (Placed s.tools id) (sym same.0) (tool_or-Placed s id call name old refl))
              (named-Slot s.ledger.blocks.tool_states name st
                (tool_or-Slot s s.ledger.blocks.tool_states id call name old refl v.slots))
              (same.2 ∙ goes_on_or old (length s.tools) call name (ground (arith, h, on))))
          (λ _.
            if-Answers blank c (is_type "reasoning" item) (hidden_done s hidden) (nothing s)
              (λ _. hidden_done-Answers blank s c hidden v) (λ _. nothing-Answers blank s c v))
