-- ===== src/Sessions/Tests.antt =====
-- The theorems of the sessions at a concrete session.
use luicode.Base.{
  Bool, ◌≢◌, string_eq, ◌+◌, true, false, String, Option, none, some, [], ◌∷◌, ◌≡◌, refl, arith,
  str_eq_iff,
}
use luicode.Base.Dict.{lookup}
use luicode.Base.Json.{end}
use luicode.Base.Outcome.{ok, raised}
use luicode.Sessions.Models.{
  completed, running, is_waiting, CodeMode, config, ready, answering, CodeSession, CodeRun,
  CodeItem, CodePrompt, named,
}
use luicode.Sessions.State.{
  unavailable, SessionState, SessionProgress, conflict, busy, has_pending, accept_admission,
  prepare_admission, apply_progress, new_run, titled, own_item,
}
use luicode.Sessions.Binding.{bind_turn-stays}
use luicode.Sessions.Progress.{bind_turn, matches_turn, prepare_finish, of_turn}
use luicode.Sessions.Turns.{IsFiled, prepare_finish-settles, prepare_admission-exclusive}

abbrev session : CodeSession
session = record {
  id = "s1";
  cwd = "/work";
  model = "m";
  reasoning_effort = none;
  mode = config;
  title = "New code session";
  auto_title = true;
  native_thread_id = none;
  native_permission_defaults = none;
  native_may_have_input = false;
  context_used_tokens = none;
  revision = 1;
  status = ready;
  error = none;
}

abbrev idle : SessionState
idle = record {
  session = session;
  run = none;
  items = [];
  prompts = [];
  runs = [];
  sequence = 0;
  known_turns = [];
  dirty = [];
  dirty_characters = 0;
  review_generations = [];
}

abbrev same_text : String → String
same_text t = t

abbrev admitted : CodeSession × CodeRun × CodeItem
admitted = (
  titled same_text idle "hello",
  new_run idle "r1" "hello" "m" none config,
  own_item idle "r1" "r1" "user" "hello",
)

is_admitted : prepare_admission same_text idle "r1" "hello" "m" none config ≡ ok admitted
unfolding prepare_admission
is_admitted = refl

prepare_admission-exclusive_example :
    (busy idle ≡ false)
    × (has_pending idle ≡ false)
    × (admitted.2.sequence ≡ idle.sequence + 1)
    × ((id' text' model' : String) (effort' : Option String) (mode' : CodeMode)
        → prepare_admission same_text
            (accept_admission admitted.0 admitted.1 admitted.2 idle)
            id'
            text'
            model'
            effort'
            mode'
          ≡ raised conflict)
prepare_admission-exclusive_example =
    prepare_admission-exclusive same_text idle "r1" "hello" "m" none config admitted is_admitted

abbrev bound_run : CodeRun
bound_run = record (new_run idle "r1" "hello" "m" none config) {
  status = running;
  submission_started = true;
  native_turn_id = some "t1";
}

abbrev prompt : CodePrompt
prompt = record {
  id = "p1";
  session_id = "s1";
  generation = "g";
  request_id = named "q";
  native_turn_id = some "t1";
  native_item_id = none;
  kind = "approval";
  form = end;
  raw = end;
  status = answering;
  response_id = none;
  error = none;
}

-- A prompt of no turn, which the end of a run does not touch.
abbrev loose_prompt : CodePrompt
loose_prompt = record prompt { id = "p2"; native_turn_id = none }

abbrev asking : SessionState
asking = record idle { run = some bound_run; prompts = ("p1", prompt) ∷ ("p2", loose_prompt) ∷ [] }

asking-IsFiled : IsFiled asking.prompts
unfolding lookup
asking-IsFiled = record { filed = λ i p h. ground (arith, h, str_eq_iff "p1" i, str_eq_iff "p2" i) }

prepare_finish-settles_example :
    (p : SessionProgress) × (prepare_finish asking completed none end ≡ some p)
    × ((apply_progress p asking).run
        ≡ some (record bound_run { status = completed; error = none; error_details = end }))
    × (busy (apply_progress p asking) ≡ false)
    × IsFiled (apply_progress p asking).prompts
    × ((i : String) (q : CodePrompt)
        → lookup i (apply_progress p asking).prompts ≡ some q
        → is_waiting q.status ≡ true
        → (lookup i asking.prompts ≡ some q) × (of_turn bound_run.native_turn_id q ≡ false))
prepare_finish-settles_example =
    prepare_finish-settles asking bound_run completed none end asking-IsFiled refl refl refl

abbrev submitted : CodeRun
submitted = record (new_run idle "r1" "hello" "m" none config) { submission_started = true }

abbrev starting : SessionState
starting = record idle { run = some submitted }

bind_turn-stays_example :
    (p : SessionProgress) × (bind_turn starting "t1" ≡ ok p)
    × ((u : String) (starts : Bool)
        → "t1" ≢ u
        → (bind_turn (apply_progress p starting) u ≡ raised unavailable)
          × (matches_turn (apply_progress p starting) (some u) starts ≡ false))
bind_turn-stays_example = bind_turn-stays starting submitted "t1" refl refl
