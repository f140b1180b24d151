-- ===== src/Streaming/Events.antt =====
-- The server-sent events of an Anthropic message, as data: what src/luicode/core/anthropic/streaming
-- gives to `format_sse_event` of emitter.py, before it is printed.
use luicode.Base.{string_eq, ℕ, String, Option, none, some, ◌==◌, if◌then◌else◌}
use luicode.Base.Dict.{Dict}
use luicode.Base.Json.{Fields}

-- An index of a content block; -1 stands for a block that was never started.
pub data BlockIndex : Type 0 where
  unset : BlockIndex
  at : ℕ → BlockIndex

pub data BlockType : Type 0 where
  text thinking tool_use redacted_thinking : BlockType
  other : String → BlockType

-- The `content_block` of a start. A tool's `input` is always the empty object there.
pub data ContentBlock : Type 0 where
  text_block : String → ContentBlock
  thinking_block : String → ContentBlock
  tool_block : (id name : String) (extra_content : Option Fields) → ContentBlock
  redacted_block : Option String → ContentBlock
  other_block : String → ContentBlock

pub data Delta : Type 0 where
  text_delta thinking_delta signature_delta input_json_delta : String → Delta
  other_delta : String → Delta

pub record Usage : Type 0 where
  pub input_tokens : ℕ
  pub output_tokens : ℕ
  pub usage_fields : Dict String ℕ

pub data SseEvent : Type 0 where
  message_start : (message_id model : String) (input_tokens : ℕ) → SseEvent
  message_delta : (stop_reason : String) (usage : Usage) → SseEvent
  message_stop : SseEvent
  content_block_start : BlockIndex → ContentBlock → SseEvent
  content_block_delta : BlockIndex → Delta → SseEvent
  content_block_stop : BlockIndex → SseEvent
  failure : SseEvent

abbrev pub type_of : ContentBlock → BlockType
type_of (text_block s) = text
type_of (thinking_block s) = thinking
type_of (tool_block id name extra) = tool_use
type_of (redacted_block d) = redacted_thinking
type_of (other_block t) = other t

-- `map_stop_reason` with `STOP_REASON_MAP`
unfoldable pub map_stop_reason : Option String → String
map_stop_reason none = "end_turn"
map_stop_reason (some reason) =
    if reason == "length"
    then "max_tokens"
    else if reason == "tool_calls"
    then "tool_use"
    else "end_turn"
