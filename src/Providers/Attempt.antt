-- ===== src/Providers/Attempt.antt =====
-- `ProviderAttempt` of src/luicode/providers/admission.py and the sections of `_open_attempt` after
-- the gate. Whether an error is retryable is what failure_policy.py says of it, an argument here;
-- so are the clock and the delays.
pub mod Lifecycle
use luicode.Base.{
  string_eq, ℕ, zero, suc, ◌+◌, ◌-◌, Bool, true, false, not, ◌&&◌, ◌||◌, String, Option, none, some,
  is_some, if◌then◌else◌, nat_beq,
}
use luicode.Base.Dict.{Dict, lookup, modify, insert}
use luicode.Base.Outcome.{Outcome, ok, raised}
use luicode.Providers.Execution.{
  ProviderExecution, ProviderOperationKind, AttemptClaim, ExecutionError, terminal_or_exhausted,
  can_attempt, claim_attempt, close_attempt, record_failure, fail,
}
use luicode.Providers.Gate.{
  Controller, GatePermit, permit_is_current, attempt_closed, attempt_corrected, attempt_abandoned,
}
use luicode.Providers.Gate.Failed.{attempt_failed, can_retry}

pub record ProviderAttempt : Type 0 where
  pub execution : String
  pub permit : GatePermit
  pub claim : AttemptClaim
  pub resolved : Bool
  pub accepted : Bool
  pub closed : Bool

-- What a section of `_open_attempt` comes to: an attempt, another turn of the loop, an exception of
-- `_claim_attempt`, one of the trace event that follows it, or a wait for a slot.
pub data OpenStep : Type 0 where
  opened : ProviderAttempt → OpenStep
  again : OpenStep
  raises : ExecutionError → OpenStep
  trace_raises : OpenStep
  no_slot : OpenStep

pub data ProviderCorrectionAction : Type 0 where
  retry final : ProviderCorrectionAction

pub record ProviderFailureDecision : Type 0 where
  pub retryable : Bool
  pub retry_allowed : Bool

abbrev new_attempt : String → GatePermit → AttemptClaim → ProviderAttempt
new_attempt id permit claim = record {
  execution = id;
  permit = permit;
  claim = claim;
  resolved = false;
  accepted = false;
  closed = false;
}

-- `_resolve`, without its trace.
abbrev pub resolve : Bool → ProviderAttempt → ProviderAttempt
resolve accepted a = if a.resolved then a else record a { resolved = true; accepted = accepted }

abbrev pub settled : ProviderAttempt → Bool
settled a = a.resolved || a.closed

abbrev decide : Bool → Bool → ProviderFailureDecision
decide retryable allowed = record { retryable = retryable; retry_allowed = allowed }

module _ {E : Type 0} where
  abbrev release_slot : Controller E → Controller E
  release_slot c = record c { free_slots = c.free_slots + 1 }

  abbrev put_execution : Controller E → String → ProviderExecution E → Controller E
  put_execution c id x = record c { executions = insert id x c.executions }

  -- `except BaseException` with a claim: it is closed, the slot is released and the permit given up.
  abbrev pub undo_claim :
      Controller E
      → String
      → GatePermit
      → ℕ
      → ProviderExecution E
      → AttemptClaim
      → Controller E × OpenStep
  undo_claim c id p now x claim = (
    attempt_abandoned (release_slot (put_execution c id (close_attempt claim x))) id p now,
    trace_raises,
  )

  -- `traced` says whether `trace_event` returns.
  abbrev open_claimed :
      Controller E
      → String
      → GatePermit
      → ℕ
      → Bool
      → Outcome ExecutionError (ProviderExecution E × AttemptClaim)
      → Controller E × OpenStep
  open_claimed c id p now traced (raised e) =
      (attempt_abandoned (release_slot c) id p now, raises e)
  open_claimed c id p now traced (ok (x, claim)) =
      if traced
      then (put_execution c id x, opened (new_attempt id p claim))
      else undo_claim c id p now x claim

  abbrev claim_for :
      Controller E
      → String
      → GatePermit
      → ProviderOperationKind
      → ℕ
      → Bool
      → Option (ProviderExecution E)
      → Controller E × OpenStep
  claim_for c id p kind now traced none =
      (attempt_abandoned (release_slot c) id p now, raises terminal_or_exhausted)
  claim_for c id p kind now traced (some x) = open_claimed c id p now traced (claim_attempt x kind)

  abbrev take_slot :
      Controller E
      → String
      → GatePermit
      → ProviderOperationKind
      → ℕ
      → Bool
      → ℕ
      → Controller E × OpenStep
  take_slot c id p kind now traced zero = (c, no_slot)
  take_slot c id p kind now traced (suc free) =
      let held = record c { free_slots = free } in
      if permit_is_current c id p
      then claim_for held id p kind now traced (lookup id c.executions)
      else (attempt_abandoned (release_slot held) id p now, again)

  -- The section that begins when the limiter has admitted the permit and a slot may be free.
  unfoldable pub open_attempt :
      Controller E
      → String
      → GatePermit
      → ProviderOperationKind
      → ℕ
      → Bool
      → Controller E × OpenStep
  unfolding permit_is_current claim_attempt attempt_abandoned close_attempt
  open_attempt c id p kind now traced = take_slot c id p kind now traced c.free_slots

  abbrev with_execution :
      String → (ProviderExecution E → ProviderExecution E) → Controller E → Controller E
  with_execution id f c = record c { executions = modify id f c.executions }

  unfoldable pub accept : Controller E → ProviderAttempt → Controller E × ProviderAttempt
  unfolding attempt_closed
  accept c a = if settled a then (c, a) else (attempt_closed c a.execution a.permit, resolve true a)

  unfoldable pub correct :
      Controller E
      → ProviderAttempt
      → E
      → ℕ
      → Controller E × ProviderAttempt × ProviderCorrectionAction
  unfolding attempt_closed attempt_corrected record_failure can_attempt fail
  correct c a error now =
      let recorded = with_execution a.execution (record_failure error) c in
      if settled a
      then (c, a, final)
      else if can_retry (lookup a.execution recorded.executions)
      then (attempt_corrected recorded a.execution a.permit now, resolve false a, retry)
      else (
        with_execution a.execution (fail error) (attempt_closed recorded a.execution a.permit),
        resolve false a,
        final,
      )

  -- A retryable failure, after `_attempt_failed`.
  abbrev after_failed :
      Controller E → ProviderAttempt → E → Controller E × ProviderAttempt × ProviderFailureDecision
  after_failed c a error =
      let allowed = can_retry (lookup a.execution c.executions) in
      (
        (if allowed then c else with_execution a.execution (fail error) c),
        resolve false a,
        decide true allowed,
      )

  unfoldable pub fail_with :
      Controller E
      → ProviderAttempt
      → E
      → Bool
      → ℕ
      → ℕ
      → ℕ
      → Controller E × ProviderAttempt × ProviderFailureDecision
  unfolding attempt_closed attempt_failed record_failure can_attempt fail
  fail_with c a error retryable now delay terminal_delay =
      let recorded = with_execution a.execution (record_failure error) c in
      if settled a
      then (c, a, decide false false)
      else if not retryable
      then (
        with_execution a.execution (fail error) (attempt_closed recorded a.execution a.permit),
        resolve false a,
        decide false false,
      )
      else after_failed
          (attempt_failed recorded a.execution a.permit error now delay terminal_delay) a error

  -- `if not self._resolved: await self._controller._attempt_abandoned(self)`
  abbrev pub abandon_unresolved : Bool → Controller E → ProviderAttempt → ℕ → Controller E
  abandon_unresolved true c a now = c
  abandon_unresolved false c a now = attempt_abandoned c a.execution a.permit now

  abbrev pub aclose_in : Bool → Controller E → ProviderAttempt → ℕ → Controller E × ProviderAttempt
  aclose_in true c a now = (c, a)
  aclose_in false c a now = (
    release_slot (
        with_execution a.execution (close_attempt a.claim) (abandon_unresolved a.resolved c a now)),
    record (resolve false a) { closed = true },
  )

  unfoldable pub aclose : Controller E → ProviderAttempt → ℕ → Controller E × ProviderAttempt
  aclose c a now = aclose_in a.closed c a now
