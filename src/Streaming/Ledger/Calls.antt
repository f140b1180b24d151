-- ===== src/Streaming/Ledger/Calls.antt =====
-- The other methods of `AnthropicStreamLedger`: the text, thinking and tool blocks of a message by
-- name, the closing of blocks, and what the ledger tells of the message.
use luicode.Base.{
  string_eq, nat_eq, ℕ, ◌+◌, ◌*◌, Bool, true, false, ◌&&◌, String, Option, none, some, List, [],
  ◌∷◌, ◌++◌, if◌then◌else◌, truthy, append, length,
}
use luicode.Base.Dict.{lookup, insert, values}
use luicode.Base.Json.{Fields}
use luicode.Streaming.Events.{
  BlockIndex, unset, at, BlockType, tool_use, ContentBlock, text_block, thinking_block, tool_block,
  text_delta, thinking_delta, input_json_delta, SseEvent, content_block_stop,
}
use luicode.Streaming.Blocks.{ToolBlockState, new_tool, allocate_index, some_fields}
use luicode.Streaming.Ledger.{
  Ledger, StreamBlockState, start_block, delta_block, stop_block, clear_active,
}

-- One method after another on the same ledger: the events of both.
infixl 6 ◌then_emit◌
abbrev pub ◌then_emit◌ :
    Ledger × List SseEvent → (Ledger → Ledger × List SseEvent) → Ledger × List SseEvent
(l, out) then_emit f = ((f l).0, out ++ (f l).1)

abbrev pub quiet : Ledger → Ledger × List SseEvent
quiet l = (l, [])

abbrev pub allocated : Ledger → Ledger
allocated l = record l { blocks = (allocate_index l.blocks).0 }

-- `content_block_start(self.blocks.allocate_index(), ...)`
unfoldable pub start_next_block : Ledger → ContentBlock → Ledger × List SseEvent
unfolding start_block
start_next_block l block = start_block (allocated l) l.blocks.next_index block

abbrev pub start_thinking_block : Ledger → Ledger × List SseEvent
start_thinking_block l = start_next_block l (thinking_block "")

abbrev pub emit_thinking_delta : Ledger → String → Ledger × List SseEvent
emit_thinking_delta l s = delta_block l l.blocks.thinking_index (thinking_delta s)

abbrev pub stop_thinking_block : Ledger → Ledger × List SseEvent
stop_thinking_block l =
    stop_block (record l { blocks = record l.blocks { thinking_started = false } })
      l.blocks.thinking_index

abbrev pub start_text_block : Ledger → Ledger × List SseEvent
start_text_block l = start_next_block l (text_block "")

abbrev pub emit_text_delta : Ledger → String → Ledger × List SseEvent
emit_text_delta l s = delta_block l l.blocks.text_index (text_delta s)

abbrev pub stop_text_block : Ledger → Ledger × List SseEvent
stop_text_block l =
    stop_block (record l { blocks = record l.blocks { text_started = false } }) l.blocks.text_index

abbrev pub started_tool :
    ℕ → String → String → Option Fields → Option ToolBlockState → ToolBlockState
started_tool i id name extra none = record (new_tool name) {
  block_index = at i;
  tool_id = id;
  extra_content = extra;
  started = true;
}
started_tool i id name extra (some s) = record s {
  block_index = at i;
  tool_id = id;
  name = name;
  extra_content = if some_fields extra then extra else s.extra_content;
  started = true;
}

abbrev pub with_tool : ℕ → ToolBlockState → Ledger → Ledger
with_tool k s l = record l {
  blocks = record l.blocks { tool_states = insert k s l.blocks.tool_states };
}

-- The start event carries an extra content only if it is not empty.
abbrev shown_extra : Option Fields → Option Fields
shown_extra extra = if some_fields extra then extra else none

unfoldable pub start_tool_block :
    Ledger → ℕ → String → String → Option Fields → Ledger × List SseEvent
unfolding start_next_block
start_tool_block l k id name extra =
    let s = started_tool l.blocks.next_index id name extra (lookup k l.blocks.tool_states) in
    start_next_block (with_tool k s l) (tool_block id name (shown_extra extra))

-- `self.blocks.tool_states[tool_index]` raises a KeyError for a tool with no state: `none`.
abbrev pub tool_delta_at : Ledger → Option ToolBlockState → String → Option (Ledger × List SseEvent)
tool_delta_at l none json = none
tool_delta_at l (some s) json = some (delta_block l s.block_index (input_json_delta json))

unfoldable pub emit_tool_delta : Ledger → ℕ → String → Option (Ledger × List SseEvent)
unfolding delta_block
emit_tool_delta l k json = tool_delta_at l (lookup k l.blocks.tool_states) json

abbrev pub tool_stop_at : Ledger → Option ToolBlockState → Option (Ledger × List SseEvent)
tool_stop_at l none = none
tool_stop_at l (some s) = some (stop_block l s.block_index)

unfoldable pub stop_tool_block : Ledger → ℕ → Option (Ledger × List SseEvent)
unfolding stop_block
stop_tool_block l k = tool_stop_at l (lookup k l.blocks.tool_states)

abbrev pub stop_text_if : Ledger → Ledger × List SseEvent
stop_text_if l = if l.blocks.text_started then stop_text_block l else quiet l

abbrev pub stop_thinking_if : Ledger → Ledger × List SseEvent
stop_thinking_if l = if l.blocks.thinking_started then stop_thinking_block l else quiet l

abbrev pub start_thinking_unless : Ledger → Ledger × List SseEvent
start_thinking_unless l = if l.blocks.thinking_started then quiet l else start_thinking_block l

abbrev pub start_text_unless : Ledger → Ledger × List SseEvent
start_text_unless l = if l.blocks.text_started then quiet l else start_text_block l

unfoldable pub ensure_thinking_block : Ledger → Ledger × List SseEvent
unfolding stop_block start_next_block
ensure_thinking_block l = stop_text_if l then_emit start_thinking_unless

unfoldable pub ensure_text_block : Ledger → Ledger × List SseEvent
unfolding stop_block start_next_block
ensure_text_block l = stop_thinking_if l then_emit start_text_unless

unfoldable pub close_content_blocks : Ledger → Ledger × List SseEvent
unfolding stop_block
close_content_blocks l = stop_thinking_if l then_emit stop_text_if

-- The loop of `close_all_blocks` over the tool states. A state that is listed is in the dictionary.
unfoldable pub close_tools : List ToolBlockState → Ledger → Ledger × List SseEvent
unfolding stop_block
close_tools [] l = quiet l
close_tools (s ∷ ss) l =
    (if s.started then stop_block l s.block_index else quiet l) then_emit close_tools ss

unfoldable pub close_all_blocks : Ledger → Ledger × List SseEvent
unfolding close_content_blocks close_tools
close_all_blocks l =
    close_content_blocks l then_emit (λ l'. close_tools (values l'.blocks.tool_states) l')

abbrev closed_in : Ledger → ℕ → Option StreamBlockState → Ledger
closed_in l i none = l
closed_in l i (some s) = record l {
  content_blocks = insert i (record s { is_open = false }) l.content_blocks;
  blocks = clear_active l.blocks s s.block_type;
}

-- The loop of `close_unclosed_blocks`, over the stack from its top.
unfoldable pub close_stack : List ℕ → Ledger → Ledger × List SseEvent
close_stack [] l = (record l { open_stack = [] }, [])
close_stack (i ∷ is) l =
    let rest = close_stack is (closed_in l i (lookup i l.content_blocks)) in
    (rest.0, content_block_stop (at i) ∷ rest.1)

abbrev pub close_unclosed_blocks : Ledger → Ledger × List SseEvent
close_unclosed_blocks l = close_stack l.open_stack l

abbrev is_tool_use : BlockType → Bool
is_tool_use tool_use = true
is_tool_use _ = false

abbrev tools_of : List StreamBlockState → List StreamBlockState
tools_of [] = []
tools_of (b ∷ bs) = let rest = tools_of bs in if is_tool_use b.block_type then b ∷ rest else rest

unfoldable pub tool_blocks : Ledger → List StreamBlockState
tool_blocks l = tools_of (values l.content_blocks)

abbrev nonempty_list : List StreamBlockState → Bool
nonempty_list [] = false
nonempty_list (b ∷ bs) = true

abbrev pub has_emitted_tool_block : Ledger → Bool
has_emitted_tool_block l = nonempty_list (tool_blocks l)

abbrev pub has_content_block : Ledger → Bool
has_content_block l = nonempty_list (values l.content_blocks)

unfoldable pub final_stop_reason : Ledger → String → String
unfolding tool_blocks
final_stop_reason l fallback = if has_emitted_tool_block l then "tool_use" else fallback

-- `"".join(parts)`
unfoldable pub join : List String → String
join [] = ""
join (s ∷ ss) = append s (join ss)

abbrev block_if_tool : Option StreamBlockState → Option StreamBlockState
block_if_tool none = none
block_if_tool (some b) = if is_tool_use b.block_type then some b else none

abbrev block_at : Ledger → BlockIndex → Option StreamBlockState
block_at l unset = none
block_at l (at i) = block_if_tool (lookup i l.content_blocks)

abbrev block_of_tool : Ledger → Option ToolBlockState → Option StreamBlockState
block_of_tool l none = none
block_of_tool l (some s) = block_at l s.block_index

unfoldable pub tool_block_for_tool_index : Ledger → ℕ → Option StreamBlockState
tool_block_for_tool_index l k = block_of_tool l (lookup k l.blocks.tool_states)

-- `complete json name` is whether `parse_complete_tool_input` accepts the text for the tool.
abbrev salvageable : (String → String → Bool) → StreamBlockState → Bool
salvageable complete b = truthy b.tool_id && truthy b.name && complete (join b.parts) b.name

abbrev all_salvageable : (String → String → Bool) → List StreamBlockState → Bool
all_salvageable complete [] = true
all_salvageable complete (b ∷ bs) = salvageable complete b && all_salvageable complete bs

unfoldable pub can_salvage_tool_use : (String → String → Bool) → Ledger → Bool
unfolding tool_blocks join
can_salvage_tool_use complete l =
    has_emitted_tool_block l && all_salvageable complete (tool_blocks l)

-- `tokens` is `estimate_text_tokens`.
abbrev tool_tokens : (String → ℕ) → List StreamBlockState → ℕ
tool_tokens tokens [] = 0
tool_tokens tokens (b ∷ bs) = tokens b.name + tokens (join b.parts) + 15 + tool_tokens tokens bs

abbrev one_if : Bool → ℕ
one_if b = if b then 1 else 0

unfoldable pub estimate_output_tokens : (String → ℕ) → Ledger → ℕ
unfolding tool_blocks join
estimate_output_tokens tokens l =
    let said = join l.text_parts in
    let thought = join l.thinking_parts in
    let blocks = one_if (truthy thought) + one_if (truthy said) + length (tool_blocks l) in
    tokens said + tokens thought + tool_tokens tokens (tool_blocks l) + blocks * 4
