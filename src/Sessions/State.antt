-- ===== src/Sessions/State.antt =====
-- `SessionState` of state.py: what a session allows next, and the records that each change stages.
-- `title_of` is the first 80 characters of a text with its white space joined. An id of `uuid4` is an
-- argument.
use luicode.Base.{
  string_eq, ℕ, nat_eq, ◌+◌, max, Bool, true, false, ◌||◌, String, Option, none, some, List, [],
  ◌∷◌, ◌==◌, if◌then◌else◌, truthy,
}
use luicode.Base.Dict.{Dict, lookup, insert, values}
use luicode.Base.Json.{end}
use luicode.Base.Outcome.{Outcome, ok, raised}
use luicode.Sessions.Models.{
  preparing, is_active, CodeMode, is_waiting, CodeSession, CodeRun, CodeItem, CodePrompt,
}

pub record SessionProgress : Type 0 where
  pub session : CodeSession
  pub run : Option CodeRun
  pub items : List CodeItem
  pub prompts : List CodePrompt

pub data CodeError : Type 0 where
  conflict unavailable not_found assertion : CodeError

pub record SessionState : Type 0 where
  pub session : CodeSession
  pub run : Option CodeRun
  pub items : Dict String CodeItem
  pub prompts : Dict String CodePrompt
  pub runs : Dict String CodeRun
  pub sequence : ℕ
  pub known_turns : List String
  pub dirty : List String
  pub dirty_characters : ℕ
  pub review_generations : Dict String String

abbrev pub status_active : Option CodeRun → Bool
status_active none = false
status_active (some r) = is_active r.status

abbrev pub busy : SessionState → Bool
busy s = status_active s.run

abbrev pub some_waiting : List CodePrompt → Bool
some_waiting [] = false
some_waiting (p ∷ ps) = is_waiting p.status || some_waiting ps

-- The property `pending`
abbrev pub has_pending : SessionState → Bool
has_pending s = some_waiting (values s.prompts)

-- `self._items[id] for id in self._dirty`; an id that is there is one of an item.
abbrev items_of : Dict String CodeItem → List String → List CodeItem
items_of d [] = []
items_of d (i ∷ is) =
    let rest = items_of d is in
    elim (lookup i d) as (λ x. List CodeItem) [ none ↦ rest | some x ↦ x ∷ rest ]

abbrev pub pending_items : SessionState → List CodeItem
pending_items s = items_of s.items s.dirty

abbrev pub accept_admission : CodeSession → CodeRun → CodeItem → SessionState → SessionState
accept_admission session run item s = record s {
  session = session;
  run = some run;
  runs = insert run.id run s.runs;
  items = insert item.id item s.items;
  sequence = item.sequence;
}

abbrev pub accept_prompt : CodePrompt → SessionState → SessionState
accept_prompt p s = record s { prompts = insert p.id p s.prompts }

abbrev pub replaced : Option CodeRun → CodeRun → Option CodeRun
replaced none r = none
replaced (some old) r = if old.id == r.id then some r else some old

abbrev learned : Option String → List String → List String
learned none known = known
learned (some t) known = if truthy t then t ∷ known else known

abbrev pub with_run : Option CodeRun → SessionState → SessionState
with_run none s = s
with_run (some r) s = record s {
  runs = insert r.id r s.runs;
  run = replaced s.run r;
  known_turns = learned r.native_turn_id s.known_turns;
}

unfoldable pub with_items : List CodeItem → SessionState → SessionState
with_items [] s = s
with_items (i ∷ is) s =
    with_items is (record s { items = insert i.id i s.items; sequence = max s.sequence i.sequence })

unfoldable pub put_prompts : List CodePrompt → Dict String CodePrompt → Dict String CodePrompt
put_prompts [] d = d
put_prompts (p ∷ ps) d = put_prompts ps (insert p.id p d)

abbrev with_prompts : List CodePrompt → SessionState → SessionState
with_prompts ps s = record s { prompts = put_prompts ps s.prompts }

unfoldable pub apply_progress : SessionProgress → SessionState → SessionState
unfolding with_items put_prompts
apply_progress p s =
    with_prompts p.prompts (with_items p.items (with_run p.run (record s { session = p.session })))

abbrev pub acknowledge_flush : SessionState → SessionState
acknowledge_flush s = record s { dirty = []; dirty_characters = 0 }

abbrev pub discard_deleted_history : SessionState → SessionState
discard_deleted_history s = record s { items = []; prompts = []; run = none; runs = [] }

-- `_revision`
abbrev pub revised : CodeSession → CodeSession
revised session = record session { revision = session.revision + 1 }

abbrev pub check_can_send : SessionState → Outcome CodeError (Unit {0})
check_can_send s = if busy s || has_pending s then raised conflict else ok tt

abbrev pub new_run : SessionState → String → String → String → Option String → CodeMode → CodeRun
new_run s id text model effort mode = record {
  id = id;
  session_id = s.session.id;
  text = text;
  model = model;
  reasoning_effort = effort;
  mode = mode;
  ordinal = 0;
  status = preparing;
  submission_started = false;
  native_turn_id = none;
  stop_requested = false;
  error = none;
  error_details = end;
}

abbrev pub own_item : SessionState → String → String → String → String → CodeItem
own_item s id run_id kind text = record {
  id = id;
  session_id = s.session.id;
  sequence = s.sequence + 1;
  run_id = run_id;
  native_turn_id = none;
  native_item_id = none;
  kind = kind;
  title = "";
  text = text;
  detail = "";
  complete = true;
  raw = end;
}

abbrev pub titled : (String → String) → SessionState → String → CodeSession
titled title_of s text = record (revised s.session) {
  title = if s.session.auto_title then title_of text else s.session.title;
  auto_title = false;
  error = none;
}

unfoldable pub prepare_admission :
    (String → String)
    → SessionState
    → String
    → String
    → String
    → Option String
    → CodeMode
    → Outcome CodeError (CodeSession × CodeRun × CodeItem)
prepare_admission title_of s id text model effort mode =
    if busy s || has_pending s
    then raised conflict
    else ok
        (titled title_of s text, new_run s id text model effort mode, own_item s id id "user" text)
