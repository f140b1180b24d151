-- ===== src/Streaming/Blocks.antt =====
-- `StreamBlockLedger` of ledger.py: the indexes of content blocks and the state of the tool calls.
-- The texts of `json.loads` and `json.dumps` are parameters: `loads` gives the object of a text that
-- is one, and `dumps` prints an object.
use luicode.Base.{
  string_eq, nat_eq, ℕ, ◌+◌, max, Bool, true, false, not, ◌||◌, String, Option, none, some, List,
  [], ◌∷◌, if◌then◌else◌, truthy, starts_with, append,
}
use luicode.Base.Dict.{Dict, lookup, insert, modify, has}
use luicode.Base.Json.{Json, Fields, bool, get, set, nonempty}
use luicode.Streaming.Events.{BlockIndex, unset}

pub record ToolBlockState : Type 0 where
  pub block_index : BlockIndex
  pub tool_id : String
  pub name : String
  pub extra_content : Option Fields
  pub started : Bool
  pub task_arg_buffer : String
  pub task_args_emitted : Bool
  pub pre_start_args : String

pub record StreamBlockLedger : Type 0 where
  pub next_index : ℕ
  pub thinking_index : BlockIndex
  pub text_index : BlockIndex
  pub thinking_started : Bool
  pub text_started : Bool
  pub tool_states : Dict ℕ ToolBlockState

abbrev pub new_blocks : StreamBlockLedger
new_blocks = record {
  next_index = 0;
  thinking_index = unset;
  text_index = unset;
  thinking_started = false;
  text_started = false;
  tool_states = [];
}

-- `ToolBlockState(block_index=-1, tool_id="", name=name)`
abbrev pub new_tool : String → ToolBlockState
new_tool name = record {
  block_index = unset;
  tool_id = "";
  name = name;
  extra_content = none;
  started = false;
  task_arg_buffer = "";
  task_args_emitted = false;
  pre_start_args = "";
}

abbrev pub allocate_index : StreamBlockLedger → StreamBlockLedger × ℕ
allocate_index b = (record b { next_index = b.next_index + 1 }, b.next_index)

abbrev pub reserve_index : StreamBlockLedger → ℕ → StreamBlockLedger
reserve_index b i = record b { next_index = max b.next_index (i + 1) }

unfoldable pub ensure_tool_state : StreamBlockLedger → ℕ → StreamBlockLedger
ensure_tool_state b i =
    if has i b.tool_states
    then b
    else record b { tool_states = insert i (new_tool "") b.tool_states }

-- `if extra_content:` is false of None and of the empty object.
abbrev pub some_fields : Option Fields → Bool
some_fields none = false
some_fields (some fs) = nonempty fs

abbrev with_extra : Option Fields → ToolBlockState → ToolBlockState
with_extra extra s = record s { extra_content = extra }

unfoldable pub set_tool_extra_content : StreamBlockLedger → ℕ → Option Fields → StreamBlockLedger
unfolding ensure_tool_state
set_tool_extra_content b i extra =
    let b' = ensure_tool_state b i in
    if some_fields extra
    then record b' { tool_states = modify i (with_extra extra) b'.tool_states }
    else b

-- A name that arrives in pieces, or again.
unfoldable pub merged_name : String → String → String
merged_name prev name =
    if not (truthy prev) || starts_with name prev
    then name
    else if starts_with prev name
    then prev
    else append prev name

abbrev renamed : String → ToolBlockState → ToolBlockState
renamed name s = record s { name = merged_name s.name name }

unfoldable pub register_tool_name : StreamBlockLedger → ℕ → String → StreamBlockLedger
unfolding merged_name
register_tool_name b i name =
    if has i b.tool_states
    then record b { tool_states = modify i (renamed name) b.tool_states }
    else record b { tool_states = insert i (new_tool name) b.tool_states }

abbrev is_false : Option Json → Bool
is_false (some (bool b)) = not b
is_false _ = false

-- `_normalize_task_run_in_background`
unfoldable pub normalize_task : Fields → Fields
normalize_task args =
    if is_false (get "run_in_background" args)
    then args
    else set "run_in_background" (bool false) args

module _ (loads : String → Option Fields) (dumps : Fields → String) where
  abbrev emitted : ToolBlockState → ToolBlockState
  emitted s = record s { task_args_emitted = true; task_arg_buffer = "" }

  abbrev put_tool : StreamBlockLedger → ℕ → ToolBlockState → StreamBlockLedger
  put_tool b i s = record b { tool_states = insert i s b.tool_states }

  abbrev parsed_args :
      StreamBlockLedger → ℕ → ToolBlockState → Option Fields → StreamBlockLedger × Option Fields
  parsed_args b i s none = (put_tool b i s, none)
  parsed_args b i s (some args) = (put_tool b i (emitted s), some (normalize_task args))

  abbrev buffer_in :
      StreamBlockLedger → ℕ → String → Option ToolBlockState → StreamBlockLedger × Option Fields
  buffer_in b i args none = (b, none)
  buffer_in b i args (some s) =
      let s' = record s { task_arg_buffer = append s.task_arg_buffer args } in
      if s.task_args_emitted then (b, none) else parsed_args b i s' (loads s'.task_arg_buffer)

  unfoldable pub buffer_task_args :
      StreamBlockLedger → ℕ → String → StreamBlockLedger × Option Fields
  unfolding normalize_task
  buffer_task_args b i args = buffer_in b i args (lookup i b.tool_states)

  abbrev printed : Option Fields → String
  printed none = "{}"
  printed (some args) = dumps (normalize_task args)

  -- The loop of `flush_task_arg_buffers`: the states with their buffers flushed, and the results.
  unfoldable pub flush_states : Dict ℕ ToolBlockState → Dict ℕ ToolBlockState × List (ℕ × String)
  unfolding normalize_task
  flush_states [] = ([], [])
  flush_states ((i, s) ∷ d) =
      let rest = flush_states d in
      if not (truthy s.task_arg_buffer) || s.task_args_emitted
      then ((i, s) ∷ rest.0, rest.1)
      else ((i, emitted s) ∷ rest.0, (i, printed (loads s.task_arg_buffer)) ∷ rest.1)

  unfoldable pub flush_task_arg_buffers : StreamBlockLedger → StreamBlockLedger × List (ℕ × String)
  unfolding flush_states
  flush_task_arg_buffers b =
      let flushed = flush_states b.tool_states in (record b { tool_states = flushed.0 }, flushed.1)
