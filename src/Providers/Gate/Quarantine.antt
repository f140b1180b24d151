-- ===== src/Providers/Gate/Quarantine.antt =====
-- The quarantine after an exhausted budget.
use luicode.Base.{
  string_eq, ℕ, ◌+◌, ◌≤◌, ◌<◌, true, false, String, Option, none, some, List, [], ◌∷◌,
  if◌then◌else◌, contains, arith, ◌≡◌, refl, ap, str_eq_iff, beq_refl,
}
use luicode.Base.Dict.{Dict, lookup, modify, lookup-modify}
use luicode.Providers.Execution.{ProviderExecution, fail}
use luicode.Providers.Gate.{
  Controller, RecoveryEpisode, GatePermit, permit, exhausted, wait_for_gate, start_recovery_episode,
  matching_probe, new_episode, failure_of,
}
use mathlib.Core.Option
use luicode.Providers.Gate.Failed.{attempt_failed, quarantine, quarantined, fail_each, can_retry}

module _ {E : Type 0} where
  -- Within the quarantine every execution that has not failed yet is turned away with the episode's
  -- error, and the controller stays as it is.
  pub wait_for_gate-quarantined :
      (c : Controller E) (id : String) (now until : ℕ) (ep : RecoveryEpisode E)
      → c.episode ≡ some ep
      → ep.terminal_until ≡ some until
      → failure_of (lookup id c.executions) ≡ none
      → now < until
      → wait_for_gate c id now ≡ (c, exhausted ep.last_error)
  unfolding wait_for_gate
  wait_for_gate-quarantined c id now until ep h k f l = ground arith

  -- When the quarantine of the episode has run out, an execution that has not failed and comes to
  -- the gate gets a probe of a new generation.
  pub wait_for_gate-reopens :
      (c : Controller E) (id : String) (now until : ℕ) (ep : RecoveryEpisode E)
      → c.episode ≡ some ep
      → ep.terminal_until ≡ some until
      → failure_of (lookup id c.executions) ≡ none
      → until ≤ now
      → (wait_for_gate c id now).1
        ≡ permit (record { generation = some c.next_generation; probe = true })
  unfolding wait_for_gate start_recovery_episode new_episode
  wait_for_gate-reopens c id now until ep h k f l = ground (arith, beq_refl id)

  fail-fail : (error : E) (x : ProviderExecution E) → fail error (fail error x) ≡ fail error x
  unfolding fail
  fail-fail error x = ground arith

  map-fail-map-fail :
      (error : E) (o : Option (ProviderExecution E))
      → Option.map (fail error) (Option.map (fail error) o) ≡ Option.map (fail error) o
  map-fail-map-fail error none = refl
  map-fail-map-fail error (some x) = ap some (fail-fail error x)

  lookup-fail_each :
      (id : String) (ids : List String) (error : E) (d : Dict String (ProviderExecution E))
      → lookup id (fail_each ids error d)
        ≡ (if contains id ids then Option.map (fail error) (lookup id d) else lookup id d)
  unfolding fail_each contains
  lookup-fail_each id [] error d = refl
  lookup-fail_each id (w ∷ ids) error d = ground (
    arith,
    lookup-fail_each id ids error (modify w (fail error) d),
    lookup-modify w id (fail error) d,
    map-fail-map-fail error (lookup id d),
    str_eq_iff id w,
    str_eq_iff w id,
  )

  attempt_failed-quarantine :
      (c : Controller E) (id : String) (p : GatePermit) (error : E) (now delay terminal_delay : ℕ)
      (ep : RecoveryEpisode E)
      → c.episode ≡ some ep
      → matching_probe c id p ≡ some ep
      → can_retry (lookup id c.executions) ≡ false
      → attempt_failed c id p error now delay terminal_delay
        ≡ quarantine c error (now + terminal_delay) ep
  unfolding attempt_failed
  attempt_failed-quarantine c id p error now delay terminal_delay ep h m r = ground arith

  -- A probe that fails with its budget used up fails the whole recovery: every execution that waits
  -- for the episode fails with the probe's error if it is still active, and every other execution
  -- is as before.
  pub attempt_failed-fails_waiters :
      (c : Controller E) (id : String) (p : GatePermit) (error : E) (now delay terminal_delay : ℕ)
      (ep : RecoveryEpisode E) (w : String)
      → c.episode ≡ some ep
      → matching_probe c id p ≡ some ep
      → can_retry (lookup id c.executions) ≡ false
      → lookup w (attempt_failed c id p error now delay terminal_delay).executions ≡ (
          if contains w ep.waiters
          then Option.map (fail error) (lookup w c.executions)
          else lookup w c.executions)
  attempt_failed-fails_waiters c id p error now delay terminal_delay ep w h m r = rw (
    attempt_failed-quarantine c id p error now delay terminal_delay ep h m r,
    lookup-fail_each w ep.waiters error c.executions,
  )

  -- A probe that fails with its budget used up starts a quarantine: until it ends, the gate turns
  -- away with the probe's error each execution that has not failed of itself, and stays as it is.
  pub attempt_failed-quarantines :
      (c : Controller E) (id : String) (p : GatePermit) (error : E) (now delay terminal_delay : ℕ)
      (ep : RecoveryEpisode E) (w : String) (later : ℕ)
      → c.episode ≡ some ep
      → matching_probe c id p ≡ some ep
      → can_retry (lookup id c.executions) ≡ false
      → failure_of (lookup w (attempt_failed c id p error now delay terminal_delay).executions)
        ≡ none
      → later < now + terminal_delay
      → wait_for_gate (attempt_failed c id p error now delay terminal_delay) w later
        ≡ (attempt_failed c id p error now delay terminal_delay, exhausted error)
  attempt_failed-quarantines c id p error now delay terminal_delay ep w later h m r f l =
      let e =
        ap (λ d. d.episode)
          (attempt_failed-quarantine c id p error now delay terminal_delay ep h m r) in
      wait_for_gate-quarantined (attempt_failed c id p error now delay terminal_delay) w later
        (now + terminal_delay) (quarantined error (now + terminal_delay) ep) e refl f l
