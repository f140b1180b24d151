-- ===== src/Streaming/Responses/Texts.antt =====
-- The text of a response: what the client reads is what the upstream said.
use mathlib.Core.List.{append_assoc}
use luicode.Base.{
  string_eq, nat_eq, ℕ, Bool, true, false, String, Option, none, some, List, [], ◌∷◌, ◌++◌,
  if◌then◌else◌, ◌≡◌, refl, ap, sym, ◌∙◌,
}
use luicode.Base.Dict.{lookup, values}
use luicode.Streaming.Responses.{
  ToolState, begin_tool, finish_tool, stop_marked, unstarted, ◌then_try◌,
}
use luicode.Streaming.Events.{
  content_block_start, content_block_delta, tool_block, SseEvent, BlockIndex, at, ContentBlock,
  thinking_block, text_block, Delta, input_json_delta,
}
use luicode.Streaming.Blocks.{ToolBlockState}
use luicode.Streaming.Contract.{text_content, event_text}
use luicode.Streaming.Ledger.{Ledger, delta_block, stop_block}
use luicode.Streaming.Ledger.Calls.{
  ◌then_emit◌, quiet, with_tool, start_next_block, start_tool_block, started_tool, tool_delta_at,
  tool_stop_at, stop_text_if, stop_thinking_if, start_text_unless, start_thinking_unless,
  start_text_block, start_thinking_block, emit_tool_delta, stop_tool_block, stop_thinking_block,
  stop_text_block, ensure_text_block, ensure_thinking_block, close_content_blocks, close_tools,
  close_all_blocks,
}

pub text_content-append :
    (xs ys : List SseEvent) → text_content (xs ++ ys) ≡ text_content xs ++ text_content ys
unfolding text_content
text_content-append [] ys = refl
text_content-append (x ∷ xs) ys =
    ap (λ ws. event_text x ++ ws) (text_content-append xs ys)
    ∙ sym (append_assoc (event_text x) (text_content xs) (text_content ys))

-- A call whose events hold no text.
abbrev pub Silent : Ledger × List SseEvent → Type 0
Silent r = text_content r.1 ≡ []

pub then_emit-Silent :
    (r : Ledger × List SseEvent) (f : Ledger → Ledger × List SseEvent)
    → Silent r
    → Silent (f r.0)
    → Silent (r then_emit f)
then_emit-Silent r f h k =
    text_content-append r.1 (f r.0).1 ∙ ap (λ ws. ws ++ text_content (f r.0).1) h ∙ k

pub if-Silent :
    (b : Bool) (r r' : Ledger × List SseEvent) → Silent r → Silent r' → Silent (if b then r else r')
if-Silent true r r' h k = h
if-Silent false r r' h k = k

pub quiet-Silent : (l : Ledger) → Silent (quiet l)
unfolding text_content
quiet-Silent l = refl

pub stop_block-Silent : (l : Ledger) (i : BlockIndex) → Silent (stop_block l i)
unfolding stop_block text_content
stop_block-Silent l i = refl

pub delta_block-Silent :
    (l : Ledger) (i : BlockIndex) (d : Delta)
    → event_text (content_block_delta i d) ≡ []
    → Silent (delta_block l i d)
unfolding delta_block text_content
delta_block-Silent l i d h = ap (λ ws. ws ++ []) h

pub start_next_block-Silent :
    (l : Ledger) (block : ContentBlock)
    → event_text (content_block_start (at l.blocks.next_index) block) ≡ []
    → Silent (start_next_block l block)
unfolding start_next_block text_content
start_next_block-Silent l block h = ap (λ ws. ws ++ []) h

stop_text_if-Silent : (l : Ledger) → Silent (stop_text_if l)
stop_text_if-Silent l =
    if-Silent l.blocks.text_started (stop_text_block l) (quiet l)
      (stop_block-Silent (record l { blocks = record l.blocks { text_started = false } })
        l.blocks.text_index)
      (quiet-Silent l)

stop_thinking_if-Silent : (l : Ledger) → Silent (stop_thinking_if l)
stop_thinking_if-Silent l =
    if-Silent l.blocks.thinking_started (stop_thinking_block l) (quiet l)
      (stop_block-Silent (record l { blocks = record l.blocks { thinking_started = false } })
        l.blocks.thinking_index)
      (quiet-Silent l)

pub close_content_blocks-Silent : (l : Ledger) → Silent (close_content_blocks l)
unfolding close_content_blocks
close_content_blocks-Silent l =
    let r = stop_thinking_if l in
    then_emit-Silent r stop_text_if (stop_thinking_if-Silent l) (stop_text_if-Silent r.0)

pub ensure_text_block-Silent : (l : Ledger) → Silent (ensure_text_block l)
unfolding ensure_text_block
ensure_text_block-Silent l =
    let r = stop_thinking_if l in
    then_emit-Silent r start_text_unless (stop_thinking_if-Silent l) (
      if-Silent r.0.blocks.text_started (quiet r.0) (start_text_block r.0) (quiet-Silent r.0)
        (start_next_block-Silent r.0 (text_block "") refl))

pub ensure_thinking_block-Silent : (l : Ledger) → Silent (ensure_thinking_block l)
unfolding ensure_thinking_block
ensure_thinking_block-Silent l =
    let r = stop_text_if l in
    then_emit-Silent r start_thinking_unless (stop_text_if-Silent l) (
      if-Silent r.0.blocks.thinking_started (quiet r.0) (start_thinking_block r.0)
        (quiet-Silent r.0) (start_next_block-Silent r.0 (thinking_block "") refl))

close_tools-Silent : (ss : List ToolBlockState) (l : Ledger) → Silent (close_tools ss l)
unfolding close_tools
close_tools-Silent [] l = quiet-Silent l
close_tools-Silent (s ∷ ss) l =
    let r = if s.started then stop_block l s.block_index else quiet l in
    then_emit-Silent r (close_tools ss)
      (if-Silent s.started (stop_block l s.block_index) (quiet l)
        (stop_block-Silent l s.block_index) (quiet-Silent l))
      (close_tools-Silent ss r.0)

pub close_all_blocks-Silent : (l : Ledger) → Silent (close_all_blocks l)
unfolding close_all_blocks
close_all_blocks-Silent l =
    let r = close_content_blocks l in
    then_emit-Silent r (λ x. close_tools (values x.blocks.tool_states) x)
      (close_content_blocks-Silent l) (close_tools-Silent (values r.0.blocks.tool_states) r.0)

pub begin_tool-Silent : (st : ToolState) (l : Ledger) → Silent (begin_tool st l)
unfolding start_tool_block
begin_tool-Silent st l =
    let k = st.tool_index in
    let s =
      started_tool l.blocks.next_index st.call_id st.name none (lookup k l.blocks.tool_states) in
    if-Silent st.started (quiet l) (start_tool_block l k st.call_id st.name none) (quiet-Silent l)
      (start_next_block-Silent (with_tool k s l) (tool_block st.call_id st.name none) refl)

-- A call that may raise: what holds of its text if it does not.
abbrev pub Tries : (List String → Type 0) → Option (Ledger × List SseEvent) → Type 0
Tries P none = Unit
Tries P (some r) = P (text_content r.1)

abbrev pub Nothing : List String → Type 0
Nothing ws = ws ≡ []

pub emit_tool_delta-Silent :
    (l : Ledger) (k : ℕ) (json : String) → Tries Nothing (emit_tool_delta l k json)
unfolding emit_tool_delta
emit_tool_delta-Silent l k json = by_state (lookup k l.blocks.tool_states)
  where
    by_state : (o : Option ToolBlockState) → Tries Nothing (tool_delta_at l o json)
    by_state none = tt
    by_state (some s) = delta_block-Silent l s.block_index (input_json_delta json) refl

pub finish_tool-Silent : (l : Ledger) (k : ℕ) → Tries Nothing (finish_tool l k)
unfolding finish_tool stop_tool_block
finish_tool-Silent l k = by_state (lookup k l.blocks.tool_states)
  where
    by_rest :
        (r : Ledger × List SseEvent) (o : Option ToolBlockState)
        → Silent r
        → Tries Nothing (unstarted k o r)
    by_rest r none h = tt
    by_rest r (some t) h = h

    by_state : (o : Option ToolBlockState) → Tries Nothing (stop_marked k (tool_stop_at l o))
    by_state none = tt
    by_state (some s) =
        let r = stop_block l s.block_index in
        by_rest r (lookup k r.0.blocks.tool_states) (stop_block-Silent l s.block_index)

pub then_try-Silent :
    (o : Option (Ledger × List SseEvent)) (f : Ledger → Option (Ledger × List SseEvent))
    → Tries Nothing o
    → ((l : Ledger) → Tries Nothing (f l))
    → Tries Nothing (o then_try f)
then_try-Silent none f h k = tt
then_try-Silent (some r) f h k = both (f r.0) (k r.0)
  where
    both :
        (o : Option (Ledger × List SseEvent))
        → Tries Nothing o
        → Tries Nothing (elim o as (λ x. Option (Ledger × List SseEvent)) [
          | none ↦ none
          | some e ↦ some (e.0, r.1 ++ e.1)
        ])
    both none q = tt
    both (some e) q = text_content-append r.1 e.1 ∙ ap (λ ws. ws ++ text_content e.1) h ∙ q
