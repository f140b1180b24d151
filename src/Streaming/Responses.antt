-- ===== src/Streaming/Responses.antt =====
-- `ResponsesProviderStream` of src/luicode/core/openai_responses/provider_stream.py: the events of an
-- upstream response, turned into the events of an Anthropic message. An event is its type and its
-- JSON. A `_ToolState` that the code changes in place is put back into `tools`.
pub mod Feed
pub mod Slots
pub mod Turns
pub mod Followed
pub mod Orderly
pub mod Ending
pub mod Conforms
pub mod Whole
pub mod Texts
pub mod Said
pub mod Spoken
pub mod Heard
use luicode.Base.{
  string_eq, nat_eq, ℕ, ◌+◌, Bool, true, false, not, ◌&&◌, ◌||◌, String, Option, none, some, List,
  [], ◌∷◌, ◌++◌, ◌==◌, if◌then◌else◌, is_some, truthy, starts_with, length,
}
use luicode.Base.Dict.{Dict, lookup, insert, has}
use luicode.Base.Json.{
  Json, null, bool, num, str, arr, obj, Items, nil, cons, Fields, end, get, text_of, fields_of,
  nonempty,
}
use luicode.Base.Outcome.{Outcome, ok, raised}
use luicode.Streaming.Events.{
  BlockIndex, at, SseEvent, Delta, signature_delta, ContentBlock, redacted_block,
}
use luicode.Streaming.Blocks.{ToolBlockState}
use luicode.Streaming.Ledger.{
  Ledger, new_ledger, start_message, delta_message, stop_message, delta_block, stop_block,
}
use luicode.Streaming.Ledger.Calls.{
  ◌then_emit◌, quiet, with_tool, start_next_block, start_tool_block, emit_tool_delta,
  stop_tool_block, emit_thinking_delta, emit_text_delta, stop_text_block, stop_thinking_block,
  ensure_thinking_block, ensure_text_block, close_content_blocks, close_all_blocks,
  final_stop_reason, has_content_block, estimate_output_tokens,
}
use luicode.Streaming.Usage.{anthropic_input_usage_fields}
use luicode.Streaming.ToolNames.{OpenAiToolNameCodec, decode}

pub record ResponsesStreamFailure : Type 0 where
  pub message : String
  pub code : Option String
  pub body : Fields
  pub event_type : String
  pub payload : Fields

pub data StreamError : Type 0 where
  upstream_failed : ResponsesStreamFailure → StreamError
  key_error : StreamError

pub record ToolState : Type 0 where
  pub tool_index : ℕ
  pub call_id : String
  pub name : String
  pub started : Bool
  pub received_delta : Bool
  pub stopped : Bool

pub record ResponsesProviderStream : Type 0 where
  pub ledger : Ledger
  pub completed : Bool
  pub generated_output : Bool
  pub tools : Dict String ToolState
  pub encrypted_reasoning : Dict String String

abbrev pub new_stream : String → String → ℕ → ResponsesProviderStream
new_stream message_id model input_tokens = record {
  ledger = new_ledger message_id model input_tokens;
  completed = false;
  generated_output = false;
  tools = [];
  encrypted_reasoning = [];
}

abbrev pub start : ResponsesProviderStream → ResponsesProviderStream × List SseEvent
start s = let r = start_message s.ledger in (record s { ledger = r.0 }, r.1)

-- `_string`
abbrev or_empty : Option String → String
or_empty none = ""
or_empty (some t) = t

abbrev pub string_at : String → Fields → String
string_at k fs = or_empty (text_of (get k fs))

-- `d if isinstance(d, dict) else {}`
abbrev or_no_fields : Option Fields → Fields
or_no_fields none = end
or_no_fields (some fs) = fs

abbrev either : String → String → String
either a b = if truthy a then a else b

abbrev is_text : String → Option String → Bool
is_text t none = false
is_text t (some s) = s == t

-- `item.get("type") == t`
abbrev pub is_type : String → Fields → Bool
is_type t item = is_text t (text_of (get "type" item))

-- `isinstance(value, str) and value`
abbrev pub given_text : Option Json → Option String
given_text o = let s = or_empty (text_of o) in if truthy s then some s else none

-- `is_replay` of history_replay.py
abbrev pub is_replay : String → Bool
is_replay s = starts_with "luicode:history:" s || starts_with "luicode:anthropic-reasoning:" s

abbrev pub new_tool_state : ℕ → String → String → ToolState
new_tool_state i call_id name = record {
  tool_index = i;
  call_id = call_id;
  name = name;
  started = false;
  received_delta = false;
  stopped = false;
}

abbrev pub tool_or : Option ToolState → ToolState → ToolState
tool_or none st = st
tool_or (some st) st' = st

-- The events of a call that may raise a KeyError, after those so far.
infixl 6 ◌then_try◌
abbrev pub ◌then_try◌ :
    Option (Ledger × List SseEvent)
    → (Ledger → Option (Ledger × List SseEvent))
    → Option (Ledger × List SseEvent)
none then_try f = none
some (l, out) then_try f = elim (f l) [ none ↦ none | some r ↦ some (r.0, out ++ r.1) ]

-- The start of `_ensure_tool_started`
abbrev pub begin_tool : ToolState → Ledger → Ledger × List SseEvent
begin_tool st l =
    if st.started then quiet l else start_tool_block l st.tool_index st.call_id st.name none

abbrev pub unstarted :
    ℕ → Option ToolBlockState → Ledger × List SseEvent → Option (Ledger × List SseEvent)
unstarted k none r = none
unstarted k (some t) r = some (with_tool k (record t { started = false }) r.0, r.1)

abbrev pub stop_marked : ℕ → Option (Ledger × List SseEvent) → Option (Ledger × List SseEvent)
stop_marked k none = none
stop_marked k (some r) = unstarted k (lookup k r.0.blocks.tool_states) r

-- A tool's block is stopped, and its state in the ledger is not started any more.
unfoldable pub finish_tool : Ledger → ℕ → Option (Ledger × List SseEvent)
unfolding stop_tool_block
finish_tool l k = stop_marked k (stop_tool_block l k)

abbrev pub Fed : Type 0
Fed = Outcome StreamError (ResponsesProviderStream × List SseEvent)

abbrev fed : Option (Ledger × List SseEvent) → (Ledger → ResponsesProviderStream) → Fed
fed none f = raised key_error
fed (some r) f = ok (f r.0, r.1)

abbrev pub nothing : ResponsesProviderStream → Fed
nothing s = ok (s, [])

-- The end of `_tool_delta`
unfoldable pub tool_delta_of : ResponsesProviderStream → String → ToolState → String → Fed
unfolding close_content_blocks start_tool_block emit_tool_delta
tool_delta_of s id st delta =
    let begun = close_content_blocks s.ledger then_emit begin_tool st in
    fed
      (if truthy delta
        then some begun then_try (λ l. emit_tool_delta l st.tool_index delta)
        else some begun)
      (λ l. record s {
        ledger = l;
        generated_output = s.generated_output || not st.started || truthy delta;
        tools =
            insert id
              (record st { started = true; received_delta = st.received_delta || truthy delta })
              s.tools;
      })

-- The arguments of a finished call that no delta brought.
abbrev pub late_arguments : ToolState → Fields → Option String
late_arguments st item = if st.received_delta then none else given_text (get "arguments" item)

abbrev pub emit_late : ToolState → Option String → Ledger → Option (Ledger × List SseEvent)
emit_late st none l = some (quiet l)
emit_late st (some args) l = emit_tool_delta l st.tool_index args

abbrev pub finish_once : ToolState → Ledger → Option (Ledger × List SseEvent)
finish_once st l = if st.stopped then some (quiet l) else finish_tool l st.tool_index

-- The branch of `_item_done` for a function call
unfoldable pub call_done : ResponsesProviderStream → String → ToolState → Fields → Fed
unfolding close_content_blocks start_tool_block emit_tool_delta finish_tool
call_done s id st item =
    fed
      (some (close_content_blocks s.ledger then_emit begin_tool st)
        then_try emit_late st (late_arguments st item)
        then_try finish_once st)
      (λ l. record s {
        ledger = l;
        generated_output = s.generated_output || not st.started || is_some (late_arguments st item);
        tools = insert id (record st { started = true; stopped = true }) s.tools;
      })

abbrev remembered : Option String → Option String → Option String
remembered none old = old
remembered (some e) old = some e

unfoldable pub hidden_done : ResponsesProviderStream → Option String → Fed
unfolding close_content_blocks start_next_block stop_block delta_block
hidden_done s none = nothing s
hidden_done s (some e) =
    let l = s.ledger in
    let replayed =
      delta_block l l.blocks.thinking_index (signature_delta e) then_emit stop_thinking_block in
    let closed = close_content_blocks l in
    let i = closed.0.blocks.next_index in
    let whole = closed then_emit (λ l'.
      start_next_block l' (redacted_block (some e)) then_emit (λ m. stop_block m (at i))) in
    if is_replay e && l.blocks.thinking_started
    then ok (record s { ledger = replayed.0 }, replayed.1)
    else ok (record s { ledger = whole.0; generated_output = true }, whole.1)
