-- ===== src/Streaming/Ledger.antt =====
-- `AnthropicStreamLedger` of ledger.py: the state of one message that is streamed, and the events that
-- each method emits. A generator that the caller exhausts is a function to the list of its events.
-- The emitter's printing of an event is left out.
pub mod Calls
pub mod Stack
pub mod Tracked
pub mod Named
pub mod Protocol
pub mod Methods
pub mod ToolCalls
use luicode.Base.{
  string_eq, nat_eq, nat_beq, ℕ, ◌+◌, ◌*◌, max, Bool, true, false, not, ◌&&◌, ◌||◌, String, Option,
  none, some, List, [], ◌∷◌, ◌++◌, ◌==◌, if◌then◌else◌, is_some, truthy, contains, append,
}
use luicode.Base.Dict.{Dict, lookup, insert, modify, has, values}
use luicode.Base.Json.{Fields}
use luicode.Streaming.Events.{
  BlockIndex, unset, at, BlockType, text, thinking, tool_use, redacted_thinking, other,
  ContentBlock, text_block, thinking_block, tool_block, redacted_block, other_block, Delta,
  text_delta, thinking_delta, signature_delta, input_json_delta, other_delta, Usage, SseEvent,
  message_start, message_delta, message_stop, content_block_start, content_block_delta,
  content_block_stop, type_of,
}
use luicode.Streaming.Blocks.{
  StreamBlockLedger, ToolBlockState, new_blocks, new_tool, allocate_index, reserve_index,
  some_fields,
}

pub record StreamBlockState : Type 0 where
  pub index : ℕ
  pub block_type : BlockType
  pub is_open : Bool
  pub tool_id : String
  pub name : String
  pub parts : List String
  pub extra_content : Option Fields

-- `open_stack` has the top first.
pub record Ledger : Type 0 where
  pub message_id : String
  pub model : String
  pub input_tokens : ℕ
  pub blocks : StreamBlockLedger
  pub text_parts : List String
  pub thinking_parts : List String
  pub open_stack : List ℕ
  pub content_blocks : Dict ℕ StreamBlockState
  pub message_started : Bool
  pub message_stopped : Bool
  pub stop_reason : Option String

-- `AnthropicStreamLedger.__init__`
abbrev pub new_ledger : String → String → ℕ → Ledger
new_ledger message_id model input_tokens = record {
  message_id = message_id;
  model = model;
  input_tokens = input_tokens;
  blocks = new_blocks;
  text_parts = [];
  thinking_parts = [];
  open_stack = [];
  content_blocks = [];
  message_started = false;
  message_stopped = false;
  stop_reason = none;
}

abbrev pub start_message : Ledger → Ledger × List SseEvent
start_message l =
    (record l { message_started = true }, message_start l.message_id l.model l.input_tokens ∷ [])

abbrev or_zero : Option ℕ → ℕ
or_zero none = 0
or_zero (some n) = n

abbrev given : ℕ → Option ℕ → ℕ
given n none = n
given n (some m) = m

abbrev pub delta_message :
    Ledger → String → Option ℕ → Option ℕ → Dict String ℕ → Ledger × List SseEvent
delta_message l reason output_tokens input_tokens usage_fields = (
  record l { stop_reason = some reason },
  message_delta reason (record {
    input_tokens = given l.input_tokens input_tokens;
    output_tokens = or_zero output_tokens;
    usage_fields = usage_fields;
  })
      ∷ [],
)

abbrev pub stop_message : Ledger → Ledger × List SseEvent
stop_message l = (record l { message_stopped = true }, message_stop ∷ [])

-- `if isinstance(text, str) and text`
abbrev part : String → List String
part s = if truthy s then s ∷ [] else []

abbrev pub block_state : ℕ → ContentBlock → StreamBlockState
block_state i block = record {
  index = i;
  block_type = type_of block;
  is_open = true;
  tool_id = elim block as (λ x. String) [ tool_block id name extra ↦ id | _ ↦ "" ];
  name = elim block as (λ x. String) [ tool_block id name extra ↦ name | _ ↦ "" ];
  parts = elim block as (λ x. List String) [
    | text_block s ↦ part s
    | thinking_block s ↦ part s
    | _ ↦ []
  ];
  extra_content = elim block as (λ x. Option Fields) [
    | tool_block id name extra ↦ extra
    | _ ↦ none
  ];
}

abbrev pub marked_started : StreamBlockLedger → ℕ → ContentBlock → StreamBlockLedger
marked_started b i (text_block s) = record b { text_index = at i; text_started = true }
marked_started b i (thinking_block s) = record b { thinking_index = at i; thinking_started = true }
marked_started b i (tool_block id name extra) = b
marked_started b i (redacted_block d) = b
marked_started b i (other_block t) = b

abbrev text_part : ContentBlock → List String
text_part (text_block s) = part s
text_part _ = []

abbrev thinking_part : ContentBlock → List String
thinking_part (thinking_block s) = part s
thinking_part _ = []

unfoldable pub record_block_start : Ledger → ℕ → ContentBlock → Ledger
record_block_start l i block = record l {
  blocks = marked_started (reserve_index l.blocks i) i block;
  text_parts = l.text_parts ++ text_part block;
  thinking_parts = l.thinking_parts ++ thinking_part block;
  content_blocks = insert i (block_state i block) l.content_blocks;
  open_stack = i ∷ l.open_stack;
}

unfoldable pub start_block : Ledger → ℕ → ContentBlock → Ledger × List SseEvent
unfolding record_block_start
start_block l i block = (record_block_start l i block, content_block_start (at i) block ∷ [])

abbrev with_part : String → StreamBlockState → StreamBlockState
with_part s b = record b { parts = b.parts ++ s ∷ [] }

-- What a delta adds to a block of a type, if it is of its kind.
abbrev pub delta_text : BlockType → Delta → Option String
delta_text text (text_delta s) = some s
delta_text thinking (thinking_delta s) = some s
delta_text tool_use (input_json_delta s) = some s
delta_text _ _ = none

abbrev optional : Option String → List String
optional none = []
optional (some s) = s ∷ []

abbrev for_type : BlockType → BlockType → List String → List String
for_type text text l = l
for_type thinking thinking l = l
for_type _ _ l = []

abbrev pub add_part : Ledger → ℕ → StreamBlockState → Option String → Ledger
add_part l i b none = l
add_part l i b (some s) = record l {
  content_blocks = insert i (with_part s b) l.content_blocks;
  text_parts = l.text_parts ++ for_type text b.block_type (s ∷ []);
  thinking_parts = l.thinking_parts ++ for_type thinking b.block_type (s ∷ []);
}

abbrev pub delta_at : Ledger → ℕ → Option StreamBlockState → Delta → Ledger
delta_at l i none d = l
delta_at l i (some b) d = add_part l i b (delta_text b.block_type d)

abbrev pub record_delta : Ledger → BlockIndex → Delta → Ledger
record_delta l unset d = l
record_delta l (at i) d = delta_at l i (lookup i l.content_blocks) d

unfoldable pub delta_block : Ledger → BlockIndex → Delta → Ledger × List SseEvent
delta_block l i d = (record_delta l i d, content_block_delta i d ∷ [])

-- `open_stack.remove(index)`, which takes the lowest one of the stack.
unfoldable pub remove_lowest : ℕ → List ℕ → List ℕ
remove_lowest i [] = []
remove_lowest i (x ∷ xs) =
    let rest = remove_lowest i xs in
    if contains i xs then x ∷ rest else if x == i then xs else x ∷ xs

unfoldable pub drop_open : ℕ → List ℕ → List ℕ
unfolding remove_lowest
drop_open i [] = []
drop_open i (x ∷ xs) = if x == i then xs else remove_lowest i (x ∷ xs)

abbrev is_index : BlockIndex → ℕ → Bool
is_index unset i = false
is_index (at j) i = j == i

-- `_clear_active_content_block`
abbrev pub clear_active : StreamBlockLedger → StreamBlockState → BlockType → StreamBlockLedger
clear_active b s text = record b {
  text_started = b.text_started && not (is_index b.text_index s.index);
}
clear_active b s thinking = record b {
  thinking_started = b.thinking_started && not (is_index b.thinking_index s.index);
}
clear_active b s tool_use = b
clear_active b s redacted_thinking = b
clear_active b s (other t) = b

abbrev pub close_state : Ledger → ℕ → Option StreamBlockState → Ledger
close_state l i none = l
close_state l i (some s) = record l {
  content_blocks = insert i (record s { is_open = false }) l.content_blocks;
  blocks = clear_active l.blocks s s.block_type;
}

abbrev pub record_block_stop : Ledger → BlockIndex → Ledger
record_block_stop l unset = l
record_block_stop l (at i) =
    close_state (record l { open_stack = drop_open i l.open_stack }) i (lookup i l.content_blocks)

unfoldable pub stop_block : Ledger → BlockIndex → Ledger × List SseEvent
unfolding drop_open
stop_block l i = (record_block_stop l i, content_block_stop i ∷ [])
