-- ===== src/Streaming/Responses/Feed.antt =====
-- `feed` of `ResponsesProviderStream`, and the methods that it calls for each type of event. What
-- `int` makes of a number's text, whether a number is zero, and `estimate_text_tokens` are parameters.
use luicode.Base.{
  string_eq, nat_eq, ℕ, Bool, true, false, not, ◌&&◌, ◌||◌, String, Option, none, some, List, ◌==◌,
  if◌then◌else◌, truthy, length,
}
use luicode.Base.Dict.{lookup, insert}
use luicode.Base.Json.{
  Json, null, bool, num, str, arr, obj, nil, cons, Fields, end, get, text_of, fields_of, nonempty,
}
use luicode.Base.Outcome.{ok, raised}
use luicode.Streaming.Events.{SseEvent}
use luicode.Streaming.Ledger.{Ledger, delta_message, stop_message}
use luicode.Streaming.Ledger.Calls.{
  ◌then_emit◌, quiet, emit_thinking_delta, emit_text_delta, stop_text_block, ensure_thinking_block,
  ensure_text_block, close_all_blocks, final_stop_reason, has_content_block, estimate_output_tokens,
}
use luicode.Streaming.Usage.{anthropic_input_usage_fields}
use luicode.Streaming.ToolNames.{OpenAiToolNameCodec, decode}
use luicode.Streaming.Responses.{
  ResponsesProviderStream, ResponsesStreamFailure, upstream_failed, ToolState, Fed, nothing,
  string_at, is_type, given_text, new_tool_state, tool_or, either, or_no_fields, remembered,
  tool_delta_of, call_done, hidden_done,
}

-- An object of `data`, and an empty one where there is none
abbrev pub fields_at : String → Fields → Fields
fields_at k fs = or_no_fields (fields_of (get k fs))

-- `_reasoning_delta`
abbrev pub reasoning_delta : ResponsesProviderStream → Option String → Fed
reasoning_delta s none = nothing s
reasoning_delta s (some delta) =
    let r = ensure_thinking_block s.ledger then_emit (λ l. emit_thinking_delta l delta) in
    ok (record s { ledger = r.0; generated_output = true }, r.1)

-- `_text_delta`
abbrev pub add_text : ResponsesProviderStream → Option String → Fed
add_text s none = nothing s
add_text s (some delta) =
    let r = ensure_text_block s.ledger then_emit (λ l. emit_text_delta l delta) in
    ok (record s { ledger = r.0; generated_output = true }, r.1)

abbrev pub tool_delta_in : ResponsesProviderStream → String → Option String → Fed
tool_delta_in s id none = nothing s
tool_delta_in s id (some delta) =
    if truthy id
    then tool_delta_of s id (tool_or (lookup id s.tools) (new_tool_state (length s.tools) id ""))
        delta
    else nothing s

-- `_tool_delta`
abbrev pub tool_delta : ResponsesProviderStream → Fields → Fed
tool_delta s data' = tool_delta_in s (string_at "item_id" data') (text_of (get "delta" data'))

abbrev pub named : String → ToolState → ToolState
named name st = if truthy st.name then st else record st { name = name }

abbrev pub remember_hidden :
    ResponsesProviderStream → String → Option String → ResponsesProviderStream
remember_hidden s id none = s
remember_hidden s id (some e) = record s { encrypted_reasoning = insert id e s.encrypted_reasoning }

-- The code of an error, if it is a text: `error.get("code") or error.get("type")`
abbrev truthy_json : (String → Bool) → Option Json → Bool
truthy_json zero none = false
truthy_json zero (some null) = false
truthy_json zero (some (bool b)) = b
truthy_json zero (some (num n)) = not (zero n)
truthy_json zero (some (str t)) = truthy t
truthy_json zero (some (arr nil)) = false
truthy_json zero (some (arr (cons x xs))) = true
truthy_json zero (some (obj fs)) = nonempty fs

abbrev or_json : Option Json → Option Json → Option Json
or_json none o = o
or_json (some x) o = some x

abbrev error_fields : String → Fields → Option Fields → Fields
error_fields event_type data' none = if event_type == "error" then data' else end
error_fields event_type data' (some e) = e

abbrev message_or : Option String → String
message_or none = "OpenAI response failed."
message_or (some m) = m

unfoldable pub responses_stream_failure_from_event :
    (String → Bool) → String → Fields → ResponsesStreamFailure
responses_stream_failure_from_event zero event_type data' =
    let response = fields_at "response" data' in
    let error =
      error_fields event_type data'
        (fields_of (or_json (get "error" response) (get "error" data'))) in
    let code = get "code" error in
    record {
      message = message_or (given_text (get "message" error));
      code = text_of (if truthy_json zero code then code else get "type" error);
      body = error;
      event_type = event_type;
      payload = data';
    }

abbrev pub add_text_unless_content : Ledger → Ledger × List SseEvent
add_text_unless_content l =
    if has_content_block l
    then quiet l
    else ensure_text_block l then_emit (λ l'. emit_text_delta l' " ") then_emit stop_text_block

module _ (int_of : String → Option ℕ) (zero : String → Bool) (tokens : String → ℕ)
    (tool_names : OpenAiToolNameCodec) where
  -- `self._tool_names.decode(_string(item.get("name")))`
  abbrev pub decoded_name : Fields → String
  decoded_name item = decode tool_names (string_at "name" item)

  abbrev pub added_call : ResponsesProviderStream → String → Fields → ResponsesProviderStream
  added_call s id item = record s {
    tools =
        insert id
          (new_tool_state (length s.tools) (either (string_at "call_id" item) id)
            (decoded_name item))
          s.tools;
  }

  abbrev pub item_added_in : ResponsesProviderStream → Option Fields → ResponsesProviderStream
  item_added_in s none = s
  item_added_in s (some item) =
      let id = string_at "id" item in
      let s' = if is_type "function_call" item && truthy id then added_call s id item else s in
      if is_type "reasoning" item && truthy id
      then remember_hidden s' id (given_text (get "encrypted_content" item))
      else s'

  -- `_item_added`
  abbrev pub item_added : ResponsesProviderStream → Fields → Fed
  item_added s data' = nothing (item_added_in s (fields_of (get "item" data')))

  -- The state of a call that is done: it has a name if the item has one.
  abbrev pub done_state : ResponsesProviderStream → String → Fields → ToolState
  done_state s id item = named (decoded_name item) (
      tool_or (lookup id s.tools) (
        new_tool_state (length s.tools) (either (string_at "call_id" item) id) (decoded_name item)))

  abbrev pub item_done_in : ResponsesProviderStream → Option Fields → Fed
  item_done_in s none = nothing s
  item_done_in s (some item) =
      let id = string_at "id" item in
      if is_type "function_call" item
      then call_done s id (done_state s id item) item
      else if is_type "reasoning" item
      then hidden_done s
          (remembered (given_text (get "encrypted_content" item)) (lookup id s.encrypted_reasoning))
      else nothing s

  -- `_item_done`
  abbrev pub item_done : ResponsesProviderStream → Fields → Fed
  item_done s data' = item_done_in s (fields_of (get "item" data'))

  -- `_integer`
  abbrev integer : Option Json → Option ℕ
  integer (some (num n)) = int_of n
  integer _ = none

  abbrev or_estimated : Option ℕ → Ledger → Option ℕ
  or_estimated none l = some (estimate_output_tokens tokens l)
  or_estimated (some n) l = some n

  abbrev pub closing_message : Fields → Bool → Ledger → Ledger × List SseEvent
  closing_message data' incomplete l =
      let usage = fields_at "usage" (fields_at "response" data') in
      let details = fields_at "input_tokens_details" usage in
      let input_tokens = integer (get "input_tokens" usage) in
      delta_message l (final_stop_reason l (if incomplete then "max_tokens" else "end_turn"))
        (or_estimated (integer (get "output_tokens" usage)) l) input_tokens
        (anthropic_input_usage_fields input_tokens (integer (get "cached_tokens" details))
          (integer (get "cache_write_tokens" details)))

  -- `_finish`
  unfoldable pub finish : ResponsesProviderStream → Fields → Bool → Fed
  unfolding close_all_blocks ensure_text_block final_stop_reason estimate_output_tokens
  finish s data' incomplete =
      let r =
        close_all_blocks s.ledger
        then_emit add_text_unless_content
        then_emit closing_message data' incomplete
        then_emit stop_message in
      ok (record s { ledger = r.0; completed = true }, r.1)

  unfoldable pub feed : ResponsesProviderStream → String → Fields → Fed
  unfolding tool_delta_of call_done hidden_done finish
  feed s event_type data' =
      if s.completed
      then nothing s
      else if event_type == "response.output_item.added"
      then item_added s data'
      else if event_type == "response.reasoning_text.delta"
          || event_type == "response.reasoning_summary_text.delta"
      then reasoning_delta s (given_text (get "delta" data'))
      else if event_type == "response.output_text.delta"
      then add_text s (given_text (get "delta" data'))
      else if event_type == "response.function_call_arguments.delta"
      then tool_delta s data'
      else if event_type == "response.output_item.done"
      then item_done s data'
      else if event_type == "response.completed" || event_type == "response.incomplete"
      then finish s data' (event_type == "response.incomplete")
      else if event_type == "response.failed"
          || event_type == "error"
          || event_type == "response.error"
      then raised (upstream_failed (responses_stream_failure_from_event zero event_type data'))
      else nothing s
