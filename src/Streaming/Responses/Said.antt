-- ===== src/Streaming/Responses/Said.antt =====
-- The text of a whole response, against the text deltas of the upstream.
use luicode.Base.{
  string_eq, nat_eq, Bool, true, false, ◌&&◌, String, Option, none, some, List, [], ◌∷◌, ◌++◌,
  if◌then◌else◌, ◌≡◌, ◌⊎◌, refl, ap, ◌∙◌, truthy, length,
}
use luicode.Base.Dict.{lookup}
use luicode.Base.Json.{Fields}
use luicode.Base.Outcome.{ok, raised}
use luicode.Streaming.Events.{SseEvent, at, redacted_block, signature_delta, thinking_delta}
use luicode.Streaming.Contract.{text_content}
use luicode.Streaming.Ledger.{Ledger, delta_block, stop_block}
use luicode.Streaming.Ledger.Calls.{
  ◌then_emit◌, quiet, start_next_block, emit_tool_delta, stop_thinking_block, emit_text_delta,
  emit_thinking_delta, ensure_text_block, ensure_thinking_block, close_content_blocks,
}
use luicode.Streaming.Responses.{
  ResponsesProviderStream, ToolState, Fed, fed, nothing, tool_delta_of, call_done, hidden_done,
  late_arguments, begin_tool, ◌then_try◌, emit_late, finish_once, finish_tool, is_replay, tool_or,
  new_tool_state,
}
use luicode.Streaming.Responses.Feed.{add_text, reasoning_delta, tool_delta_in}
use luicode.Streaming.Responses.Texts.{
  text_content-append, Silent, Tries, Nothing, then_emit-Silent, stop_block-Silent, quiet-Silent,
  delta_block-Silent, start_next_block-Silent, close_content_blocks-Silent,
  ensure_text_block-Silent, ensure_thinking_block-Silent, begin_tool-Silent, emit_tool_delta-Silent,
  finish_tool-Silent, then_try-Silent,
}

-- What holds of the text of an answer, if the stream gives one.
abbrev pub Speaks : (List String → Type 0) → Fed → Type 0
Speaks P (ok r) = P (text_content r.1)
Speaks P (raised e) = Unit

pub if-Speaks :
    (P : List String → Type 0) (b : Bool) (m m' : Fed)
    → (b ≡ true → Speaks P m)
    → (b ≡ false → Speaks P m')
    → Speaks P (if b then m else m')
if-Speaks P true m m' on off = on refl
if-Speaks P false m m' on off = off refl

fed-Speaks :
    (o : Option (Ledger × List SseEvent)) (f : Ledger → ResponsesProviderStream)
    → Tries Nothing o
    → Speaks Nothing (fed o f)
fed-Speaks none f h = tt
fed-Speaks (some r) f h = h

pub nothing-Speaks : (s : ResponsesProviderStream) → Speaks Nothing (nothing s)
unfolding text_content
nothing-Speaks s = refl

emit_late-Silent :
    (st : ToolState) (args : Option String) (l : Ledger) → Tries Nothing (emit_late st args l)
emit_late-Silent st none l = quiet-Silent l
emit_late-Silent st (some args) l = emit_tool_delta-Silent l st.tool_index args

if-Tries :
    (b : Bool) (o o' : Option (Ledger × List SseEvent))
    → Tries Nothing o
    → Tries Nothing o'
    → Tries Nothing (if b then o else o')
if-Tries true o o' h k = h
if-Tries false o o' h k = k

begun-Silent :
    (l : Ledger) (st : ToolState) → Silent (close_content_blocks l then_emit begin_tool st)
begun-Silent l st =
    let r = close_content_blocks l in
    then_emit-Silent r (begin_tool st) (close_content_blocks-Silent l) (begin_tool-Silent st r.0)

tool_delta_of-Speaks :
    (s : ResponsesProviderStream) (id : String) (st : ToolState) (delta : String)
    → Speaks Nothing (tool_delta_of s id st delta)
unfolding tool_delta_of
tool_delta_of-Speaks s id st delta =
    let begun = close_content_blocks s.ledger then_emit begin_tool st in
    let step = λ (l : Ledger). emit_tool_delta l st.tool_index delta in
    fed-Speaks (if truthy delta then some begun then_try step else some begun) _ (
      if-Tries (truthy delta) (some begun then_try step) (some begun)
        (then_try-Silent (some begun) step (begun-Silent s.ledger st)
          (λ l. emit_tool_delta-Silent l st.tool_index delta))
        (begun-Silent s.ledger st))

pub call_done-Speaks :
    (s : ResponsesProviderStream) (id : String) (st : ToolState) (item : Fields)
    → Speaks Nothing (call_done s id st item)
unfolding call_done
call_done-Speaks s id st item =
    let begun = close_content_blocks s.ledger then_emit begin_tool st in
    let late = emit_late st (late_arguments st item) in
    fed-Speaks (some begun then_try late then_try finish_once st) _ (
      then_try-Silent (some begun then_try late) (finish_once st)
        (then_try-Silent (some begun) late (begun-Silent s.ledger st)
          (emit_late-Silent st (late_arguments st item)))
        (λ l.
          if-Tries st.stopped (some (quiet l)) (finish_tool l st.tool_index) (quiet-Silent l)
            (finish_tool-Silent l st.tool_index)))

pub hidden_done-Speaks :
    (s : ResponsesProviderStream) (o : Option String) → Speaks Nothing (hidden_done s o)
unfolding hidden_done
hidden_done-Speaks s none = nothing-Speaks s
hidden_done-Speaks s (some e) =
    let l = s.ledger in
    let i = l.blocks.thinking_index in
    let first = delta_block l i (signature_delta e) in
    let closed = close_content_blocks l in
    let n = at closed.0.blocks.next_index in
    let begun = start_next_block closed.0 (redacted_block (some e)) in
    if-Speaks Nothing (is_replay e && l.blocks.thinking_started) _ _
      (λ _.
        then_emit-Silent first stop_thinking_block (delta_block-Silent l i (signature_delta e) refl)
          (stop_block-Silent
            (record first.0 { blocks = record first.0.blocks { thinking_started = false } })
            first.0.blocks.thinking_index))
      (λ _.
        then_emit-Silent closed
          (λ l'. start_next_block l' (redacted_block (some e)) then_emit (λ m. stop_block m n))
          (close_content_blocks-Silent l)
          (then_emit-Silent begun (λ m. stop_block m n)
            (start_next_block-Silent closed.0 (redacted_block (some e)) refl)
            (stop_block-Silent begun.0 n)))

abbrev pub optional : Option String → List String
optional none = []
optional (some d) = d ∷ []

pub reasoning_delta-Speaks :
    (s : ResponsesProviderStream) (o : Option String) → Speaks Nothing (reasoning_delta s o)
reasoning_delta-Speaks s none = nothing-Speaks s
reasoning_delta-Speaks s (some d) =
    let r = ensure_thinking_block s.ledger in
    then_emit-Silent r (λ l. emit_thinking_delta l d) (ensure_thinking_block-Silent s.ledger)
      (delta_block-Silent r.0 r.0.blocks.thinking_index (thinking_delta d) refl)

text_of_delta : (l : Ledger) (d : String) → text_content (emit_text_delta l d).1 ≡ d ∷ []
unfolding text_content delta_block
text_of_delta l d = refl

pub spoken :
    (l : Ledger) (d : String)
    → text_content (ensure_text_block l then_emit (λ l'. emit_text_delta l' d)).1 ≡ d ∷ []
spoken l d =
    let r = ensure_text_block l in
    text_content-append r.1 (emit_text_delta r.0 d).1
    ∙ ap (λ ws. ws ++ text_content (emit_text_delta r.0 d).1) (ensure_text_block-Silent l)
    ∙ text_of_delta r.0 d

pub add_text-Speaks :
    (s : ResponsesProviderStream) (o : Option String)
    → Speaks (λ ws. ws ≡ optional o) (add_text s o)
add_text-Speaks s none = nothing-Speaks s
add_text-Speaks s (some d) = spoken s.ledger d

pub tool_delta-Speaks :
    (s : ResponsesProviderStream) (id : String) (o : Option String)
    → Speaks Nothing (tool_delta_in s id o)
tool_delta-Speaks s id none = nothing-Speaks s
tool_delta-Speaks s id (some d) =
    let st = tool_or (lookup id s.tools) (new_tool_state (length s.tools) id "") in
    if-Speaks Nothing (truthy id) (tool_delta_of s id st d) (nothing s)
      (λ _. tool_delta_of-Speaks s id st d) (λ _. nothing-Speaks s)

-- The text that a response ends with when it has no other content.
abbrev pub Closes : List String → Type 0
Closes ws = (ws ≡ []) ⊎ (ws ≡ " " ∷ [])
