-- ===== src/Streaming/Contract.antt =====
-- `assert_anthropic_stream_contract` of src/luicode/core/anthropic/stream_contracts.py, without
-- `allow_error`: what a client may rely on of a whole stream. A state is what the loop keeps, and
-- `none` is a failed assertion.
use luicode.Base.{
  string_eq, nat_eq, Bool, true, false, not, ◌&&◌, ◌||◌, String, Option, none, some, List, [], ◌∷◌,
  ◌++◌, ◌==◌, if◌then◌else◌, truthy, contains, Eq, nat_beq_iff, ◌↔◌, ◌≡◌, arith,
}
use luicode.Base.Dict.{Dict, lookup, insert, erase, has}
use luicode.Streaming.Events.{
  BlockIndex, unset, at, BlockType, text, thinking, tool_use, redacted_thinking, other,
  ContentBlock, text_block, thinking_block, tool_block, redacted_block, other_block, Delta,
  text_delta, thinking_delta, signature_delta, input_json_delta, SseEvent, message_start,
  message_delta, message_stop, content_block_start, content_block_delta, content_block_stop,
  failure, type_of,
}

-- What a block is stored as in `open_blocks`.
pub data Storage : Type 0 where
  in_text in_thinking in_tool no_delta : Storage

-- The `_ALLOWED_BLOCK_START_TYPES`
abbrev allowed_other : String → Bool
allowed_other t =
    t == "server_tool_use" || t == "web_search_tool_result" || t == "web_fetch_tool_result"

abbrev pub allowed : BlockType → Bool
allowed text = true
allowed thinking = true
allowed tool_use = true
allowed redacted_thinking = true
allowed (other t) = allowed_other t

abbrev pub storage_of : BlockType → Storage
storage_of text = in_text
storage_of thinking = in_thinking
storage_of tool_use = in_tool
storage_of redacted_thinking = no_delta
storage_of (other t) = no_delta

-- Which deltas a kind of block may get.
abbrev pub accepts : Storage → Delta → Bool
accepts in_text (text_delta s) = true
accepts in_thinking (thinking_delta s) = true
accepts in_thinking (signature_delta s) = true
accepts in_tool (input_json_delta s) = true
accepts _ _ = false

abbrev pub same_index : BlockIndex → BlockIndex → Bool
same_index unset unset = true
same_index (at i) (at j) = i == j
same_index unset (at j) = false
same_index (at i) unset = false

pub same_index_iff : (i j : BlockIndex) → (same_index i j ≡ true) ↔ (i ≡ j)
same_index_iff unset unset = ground arith
same_index_iff (at i) (at j) = ground (arith, nat_beq_iff i j)
same_index_iff unset (at j) = ground arith
same_index_iff (at i) unset = ground arith

instance abbrev pub index_eq : Eq BlockIndex
index_eq = record { agree = same_index; agree_iff = same_index_iff }

pub record Contract : Type 0 where
  pub open_blocks : Dict BlockIndex Storage
  pub seen_blocks : List BlockIndex

abbrev pub unread : Contract
unread = record { open_blocks = []; seen_blocks = [] }

abbrev is_start : SseEvent → Bool
is_start (message_start id model tokens) = true
is_start _ = false

abbrev pub any_start : List SseEvent → Bool
any_start [] = false
any_start (e ∷ es) = is_start e || any_start es

abbrev is_stop : SseEvent → Bool
is_stop message_stop = true
is_stop _ = false

abbrev pub ends_in_stop : List SseEvent → Bool
ends_in_stop [] = false
ends_in_stop (e ∷ []) = is_stop e
ends_in_stop (e ∷ f ∷ es) = ends_in_stop (f ∷ es)

abbrev pub no_blocks : Dict BlockIndex Storage → Bool
no_blocks [] = true
no_blocks (b ∷ bs) = false

abbrev pub some_seen : List BlockIndex → Bool
some_seen [] = false
some_seen (i ∷ is) = true

-- `blank s` is whether `s.strip()` is empty.
module _ (blank : String → Bool) where
  abbrev pub storage : ContentBlock → Storage
  storage (text_block s) = if blank s then in_text else no_delta
  storage (thinking_block s) = in_thinking
  storage (tool_block id name extra) = in_tool
  storage (redacted_block d) = no_delta
  storage (other_block t) = no_delta

  abbrev check_start : Contract → BlockIndex → ContentBlock → Option Contract
  check_start c i block =
      if allowed (type_of block) && not (has i c.open_blocks) && not (contains i c.seen_blocks)
      then some (record {
        open_blocks = insert i (storage block) c.open_blocks;
        seen_blocks = i ∷ c.seen_blocks;
      })
      else none

  abbrev check_delta : Contract → Option Storage → Delta → Option Contract
  check_delta c none d = none
  check_delta c (some kind) d = if accepts kind d then some c else none

  -- One round of the loop.
  unfoldable pub check_event : Contract → SseEvent → Option Contract
  check_event c (message_start id model tokens) = some c
  check_event c (message_delta reason usage) = some c
  check_event c message_stop = some c
  check_event c (content_block_start i block) = check_start c i block
  check_event c (content_block_delta i d) = check_delta c (lookup i c.open_blocks) d
  check_event c (content_block_stop i) =
      if has i c.open_blocks then some (record c { open_blocks = erase i c.open_blocks }) else none
  check_event c failure = none

  abbrev pub and_check : Option Contract → (Contract → Option Contract) → Option Contract
  and_check none f = none
  and_check (some c) f = f c

  unfoldable pub check_events : Contract → List SseEvent → Option Contract
  check_events c [] = some c
  check_events c (e ∷ es) = and_check (check_event c e) (λ c'. check_events c' es)

  abbrev pub finished : Option Contract → Bool
  finished none = false
  finished (some c) = no_blocks c.open_blocks && some_seen c.seen_blocks

  unfoldable pub meets_contract : List SseEvent → Bool
  unfolding check_events check_event
  meets_contract es = any_start es && ends_in_stop es && finished (check_events unread es)

-- `text_content`, as the parts that it joins
abbrev eager : ContentBlock → List String
eager (text_block s) = if truthy s then s ∷ [] else []
eager _ = []

abbrev text_in : Delta → List String
text_in (text_delta s) = s ∷ []
text_in _ = []

abbrev pub event_text : SseEvent → List String
event_text (content_block_start i block) = eager block
event_text (content_block_delta i d) = text_in d
event_text _ = []

unfoldable pub text_content : List SseEvent → List String
text_content [] = []
text_content (e ∷ es) = event_text e ++ text_content es
