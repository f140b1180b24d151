-- ===== src/Sessions/Progress.antt =====
-- The methods of `SessionState` that stage a change: a run's start, its turn and its end, its prompts
-- and their answers, and the deletion of a session. A staged change is what `apply_progress` takes.
use luicode.Base.{
  string_eq, nat_eq, Bool, true, false, not, ◌&&◌, ◌||◌, String, Option, none, some, List, [], ◌∷◌,
  ◌==◌, if◌then◌else◌, is_some, contains,
}
use luicode.Base.Dict.{lookup, values}
use luicode.Base.Json.{Fields}
use luicode.Base.Outcome.{Outcome, ok, raised}
use luicode.Sessions.Models.{
  RunStatus, running, stopping, deleting, PromptStatus, pending, answering, resolved, expired,
  is_waiting, CodeSession, CodeRun, RequestId, same_request, CodePrompt,
}
use luicode.Sessions.State.{
  SessionState, SessionProgress, CodeError, conflict, unavailable, not_found, assertion, busy,
  has_pending, pending_items, revised,
}

abbrev pub progress_of : CodeSession → SessionProgress
progress_of session = record { session = session; run = none; items = []; prompts = [] }

abbrev pub run_progress : CodeSession → CodeRun → SessionProgress
run_progress session run = record { session = session; run = some run; items = []; prompts = [] }

abbrev active_in : Option CodeRun → String → Bool → Option CodeRun
active_in none id b = none
active_in (some r) id b = if r.id == id && b then some r else none

abbrev pub active_run : SessionState → String → Option CodeRun
active_run s id = active_in s.run id (busy s)

abbrev stop_of : CodeSession → Option CodeRun → Option SessionProgress
stop_of session none = none
stop_of session (some r) =
    if r.stop_requested
    then none
    else some (run_progress session (record r { stop_requested = true; status = stopping }))

unfoldable pub request_stop : SessionState → Option SessionProgress
request_stop s = stop_of s.session s.run

abbrev or_given : Option Fields → Option Fields → Option Fields
or_given none new = new
or_given (some old) new = some old

abbrev pub attach_thread : SessionState → String → Option Fields → SessionProgress
attach_thread s thread permission_defaults = progress_of (record s.session {
  native_thread_id = some thread;
  native_permission_defaults = or_given s.session.native_permission_defaults permission_defaults;
})

abbrev submission_of : CodeSession → Option CodeRun → Outcome CodeError SessionProgress
submission_of session none = raised assertion
submission_of session (some r) =
    if is_some session.native_permission_defaults
    then ok (
        run_progress (record session { native_may_have_input = true })
          (record r { submission_started = true }))
    else raised unavailable

unfoldable pub prepare_submission : SessionState → Outcome CodeError SessionProgress
prepare_submission s = submission_of s.session s.run

-- `run.native_turn_id not in {None, turn_id}`
abbrev pub other_turn : Option String → String → Bool
other_turn none t = false
other_turn (some u) t = not (u == t)

abbrev pub bound : CodeRun → String → CodeRun
bound r t = record r {
  native_turn_id = some t;
  status = if r.stop_requested then stopping else running;
}

abbrev pub turn_of : CodeSession → Option CodeRun → String → Outcome CodeError SessionProgress
turn_of session none t = raised assertion
turn_of session (some r) t =
    if other_turn r.native_turn_id t
    then raised unavailable
    else ok (run_progress session (bound r t))

unfoldable pub bind_turn : SessionState → String → Outcome CodeError SessionProgress
bind_turn s t = turn_of s.session s.run t

abbrev pub is_turn : Option String → String → Bool
is_turn none t = false
is_turn (some u) t = u == t

abbrev pub matches_run : Option CodeRun → Bool → List String → Option String → Bool → Bool
matches_run none b known turn starts = false
matches_run (some r) b known none starts = false
matches_run (some r) b known (some t) starts =
    b
    && r.submission_started
    && (is_turn r.native_turn_id t
        || (not (is_some r.native_turn_id) && starts && not (contains t known)))

-- `matches_turn` of an event with the turn, which may start one
unfoldable pub matches_turn : SessionState → Option String → Bool → Bool
matches_turn s turn starts = matches_run s.run (busy s) s.known_turns turn starts

abbrev pub has_prompt : SessionState → RequestId → String → Bool
has_prompt s request generation = any_of (values s.prompts)
  where
    any_of : List CodePrompt → Bool
    any_of [] = false
    any_of (p ∷ ps) = (p.generation == generation && same_request p.request_id request) || any_of ps

abbrev same_response : Option String → String → Bool
same_response none r = false
same_response (some a) r = a == r

abbrev same_generation : String → Option String → Bool
same_generation g none = false
same_generation g (some h) = g == h

abbrev is_pending : PromptStatus → Bool
is_pending pending = true
is_pending _ = false

abbrev is_answering : PromptStatus → Bool
is_answering answering = true
is_answering _ = false

abbrev answerable : Option CodePrompt → String → Option String → Outcome CodeError CodePrompt
answerable none response generation = raised not_found
answerable (some p) response generation =
    if same_response p.response_id response
    then ok p
    else if not (is_pending p.status) || not (same_generation p.generation generation)
    then raised conflict
    else ok p

unfoldable pub answerable_prompt :
    SessionState → String → String → Option String → Outcome CodeError CodePrompt
answerable_prompt s prompt response generation =
    answerable (lookup prompt s.prompts) response generation

abbrev answering_in : Option CodePrompt → Option String → Option CodePrompt
answering_in none generation = none
answering_in (some p) generation =
    if is_answering p.status && same_generation p.generation generation then some p else none

abbrev pub pending_answer : SessionState → String → Option String → Option CodePrompt
pending_answer s prompt generation = answering_in (lookup prompt s.prompts) generation

abbrev resolved_of : Option CodePrompt → Option CodePrompt
resolved_of none = none
resolved_of (some p) = some (record p { status = resolved })

abbrev pub resolve_answer : SessionState → String → Option String → Option CodePrompt
resolve_answer s prompt generation = resolved_of (pending_answer s prompt generation)

abbrev pub expire_prompt : CodePrompt → CodePrompt
expire_prompt p = record p { status = expired }

abbrev pub expired_where : (CodePrompt → Bool) → List CodePrompt → List CodePrompt
expired_where b [] = []
expired_where b (p ∷ ps) =
    let rest = expired_where b ps in
    if is_waiting p.status && b p then expire_prompt p ∷ rest else rest

abbrev pub expire_prompts : SessionState → List CodePrompt
expire_prompts s = expired_where (λ p. true) (values s.prompts)

-- `prompt.native_turn_id is not None and prompt.native_turn_id == run.native_turn_id`
abbrev pub of_turn : Option String → CodePrompt → Bool
of_turn none p = false
of_turn (some t) p = is_turn p.native_turn_id t

abbrev pub ended : CodeRun → RunStatus → Option String → Fields → CodeRun
ended r status message details = record r {
  status = status;
  error = message;
  error_details = details;
}

abbrev pub finish_of :
    SessionState → Option CodeRun → RunStatus → Option String → Fields → Option SessionProgress
finish_of s none status message details = none
finish_of s (some r) status message details =
    if busy s
    then some (record {
      session = record (revised s.session) { error = none };
      run = some (ended r status message details);
      items = pending_items s;
      prompts = expired_where (of_turn r.native_turn_id) (values s.prompts);
    })
    else none

unfoldable pub prepare_finish :
    SessionState → RunStatus → Option String → Fields → Option SessionProgress
prepare_finish s status message details = finish_of s s.run status message details

abbrev pub prepare_delete : SessionState → Outcome CodeError SessionProgress
prepare_delete s =
    if busy s || has_pending s
    then raised conflict
    else ok (progress_of (record (revised s.session) { status = deleting; error = none }))
