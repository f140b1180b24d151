-- ===== src/Providers/Tests.antt =====
-- The theorems of the providers' side at concrete executions, gates and streams.
use luicode.Base.{
  ℕ, ◌+◌, Bool, true, false, String, none, some, List, [], ◌∷◌, arith, ◌≡◌, refl, contains, ◌≤◌,
  ◌<◌, max, is_some, string_eq,
}
use mathlib.Core.Logic.{◌↔◌}
use luicode.Base.Dict.{lookup, modify}
use luicode.Providers.Execution.{
  ProviderExecution, generation, failed, start, attempts_remaining, can_attempt, fail,
  terminal_failure, is_running,
}
use luicode.Providers.Execution.Budget.{
  Event, claims, closes, records, fails, live, grants, total_grants, total_grants-le-max_attempts,
  claim_attempt_iff, live_terminal,
}
use luicode.Providers.Gate.{
  Controller, RecoveryEpisode, GatePermit, permit, wait_for_gate, permit_is_current, attempt_closed,
  attempt_corrected, attempt_abandoned, matching_probe, exhausted,
}
use luicode.Providers.Gate.Failed.{attempt_failed, retry_delay, retry_delay_bounds}
use luicode.Providers.Gate.Recovery.{enters, closes, Reach, here, next, IsSound, Reach-IsSound}
use luicode.Providers.Gate.Permits.{
  wait_for_gate-grants, permit_is_current-exclusive, superseded_stays,
}
use luicode.Providers.Gate.Quarantine.{
  attempt_failed-fails_waiters, attempt_failed-quarantines, wait_for_gate-reopens,
}
use luicode.Providers.Attempt.{ProviderAttempt, aclose, open_attempt}
use luicode.Providers.Attempt.Lifecycle.{aclose-once, slots_taken, open_attempt-takes_slot}
use luicode.Providers.RateLimit.{Reading}
use luicode.Providers.RateLimit.Window.{
  IsMonotone, acquisitions, count_within, acquisitions-le-rate_limit,
}
use luicode.Providers.Holdback.{Pushed, new_holdback, advance_failure}
use luicode.Providers.Holdback.Delivery.{push_all, SeenBy, advance_failure-delivery}

-- Strings stand for the exceptions.
abbrev run_once : List (Event String)
run_once =
    claims generation ∷ records "503" ∷ claims generation ∷ fails "503" ∷ claims generation ∷ []

total_grants-le-max_attempts_example :
    ((live (start "x" 5) run_once).attempts_started ≡ total_grants (start "x" 5) run_once)
    × (total_grants (start "x" 5) run_once ≤ 5)
total_grants-le-max_attempts_example = total_grants-le-max_attempts "x" 5 run_once

abbrev fresh : ProviderExecution String
fresh = start "x" 5

claim_attempt_iff_example : (grants fresh (claims generation) ≡ 1) ↔ (
    (is_running fresh.state ≡ true)
    × (0 < attempts_remaining fresh)
    × (is_some fresh.active_claim ≡ false))
claim_attempt_iff_example = claim_attempt_iff fresh generation

abbrev spent : ProviderExecution String
spent = record fresh { attempts_started = 5; last_failure = some "503"; state = failed }

live_terminal_example :
    ((live spent run_once).state ≡ failed)
    × ((live spent run_once).last_failure ≡ some "503")
    × (total_grants spent run_once ≡ 0)
live_terminal_example = live_terminal spent run_once refl

retry_delay_bounds_example :
    (7 ≤ retry_delay 1 60 2 7 3)
    × (1 + 2 ≤ retry_delay 1 60 2 7 3)
    × (retry_delay 1 60 2 7 3 ≤ max (60 + 4) 7)
    × (retry_delay 1 60 2 7 3 ≤ retry_delay 1 60 2 7 (3 + 1))
    × (retry_delay 1 60 2 7 3 ≤ retry_delay 1 60 0 7 (3 + 1) + 4)
retry_delay_bounds_example = retry_delay_bounds 1 60 4 2 0 7 3 (omega arith) (omega arith)

-- "a" leads the recovery of generation 1 and "b" waits for it; "c" came before the failure.
abbrev tried : String → ℕ → ProviderExecution String
tried id n = record (start id 5) { attempts_started = n }

abbrev episode : Bool → RecoveryEpisode String
episode probing = record {
  generation = 1;
  leader = some "a";
  ready_at = 4;
  last_error = "503";
  waiters = "b" ∷ [];
  probe_active = probing;
  terminal_until = none;
}

abbrev recovering : Bool → ℕ → Controller String
recovering probing n = record {
  max_attempts = 5;
  base_delay = 1;
  max_delay = 60;
  free_slots = 2;
  episode = some (episode probing);
  next_generation = 2;
  executions = ("a", tried "a" n) ∷ ("b", tried "b" 1) ∷ ("c", tried "c" 1) ∷ [];
}

abbrev probe_of : ℕ → GatePermit
probe_of g = record { generation = some g; probe = true }

wait_for_gate-grants_example : permit_is_current (recovering true 1) "a" (probe_of 1) ≡ true
unfolding wait_for_gate lookup
wait_for_gate-grants_example =
    wait_for_gate-grants (recovering false 1) "a" 5 (recovering true 1) (probe_of 1) refl

abbrev leading : String
leading = "a"

permit_is_current-exclusive_example :
    (leading ≡ leading)
    × ((probe_of 1).probe ≡ true)
    × ((probe_of 1).generation ≡ (probe_of 1).generation)
unfolding permit_is_current
permit_is_current-exclusive_example =
    permit_is_current-exclusive (recovering true 1) "a" "a" (probe_of 1) (probe_of 1) refl refl refl

-- "a" waits at the gate and then gets its probe.
abbrev run :
    Reach
      (recovering false 1)
      (attempt_closed (wait_for_gate (recovering false 1) "a" 5).0 "a" (probe_of 1))
run = next (next here (enters "a" 5)) (closes "a" (probe_of 1))

Reach-IsSound_example :
    IsSound (attempt_closed (wait_for_gate (recovering false 1) "a" 5).0 "a" (probe_of 1))
Reach-IsSound_example = Reach-IsSound run (omega arith, refl, refl, refl)

superseded_stays_example :
    let d = attempt_closed (wait_for_gate (recovering false 1) "a" 5).0 "a" (probe_of 1) in
    (permit_is_current d "c" (probe_of 0) ≡ false)
    × (attempt_closed d "c" (probe_of 0) ≡ d)
    × (attempt_corrected d "c" (probe_of 0) 9 ≡ d)
    × (attempt_abandoned d "c" (probe_of 0) 9 ≡ d)
superseded_stays_example =
    superseded_stays (recovering false 1)
      (attempt_closed (wait_for_gate (recovering false 1) "a" 5).0 "a" (probe_of 1)) 0 "c"
      (probe_of 0) 9 run (omega arith, refl) refl refl

attempt_failed-fails_waiters_example :
    lookup "b" (attempt_failed (recovering true 5) "a" (probe_of 1) "429" 9 3 30).executions
    ≡ some (fail "429" (tried "b" 1))
unfolding matching_probe can_attempt lookup contains
attempt_failed-fails_waiters_example =
    attempt_failed-fails_waiters (recovering true 5) "a" (probe_of 1) "429" 9 3 30 (episode true)
      "b" refl refl refl

attempt_failed-quarantines_example :
    wait_for_gate (attempt_failed (recovering true 5) "a" (probe_of 1) "429" 9 3 30) "c" 38
    ≡ (attempt_failed (recovering true 5) "a" (probe_of 1) "429" 9 3 30, exhausted "429")
unfolding matching_probe can_attempt lookup attempt_failed terminal_failure modify
attempt_failed-quarantines_example =
    attempt_failed-quarantines (recovering true 5) "a" (probe_of 1) "429" 9 3 30 (episode true) "c"
      38 refl refl refl refl (omega arith)

abbrev over : RecoveryEpisode String
over = record (episode false) { leader = none; waiters = []; terminal_until = some 39 }

wait_for_gate-reopens_example :
    (wait_for_gate (record (recovering false 1) { episode = some over }) "c" 39).1
    ≡ permit (probe_of 2)
unfolding lookup terminal_failure
wait_for_gate-reopens_example =
    wait_for_gate-reopens (record (recovering false 1) { episode = some over }) "c" 39 39 over refl
      refl refl (omega arith)

abbrev attempt : ProviderAttempt
attempt = record {
  execution = "a";
  permit = probe_of 1;
  claim = record { execution_id = "a"; ordinal = 1; operation_kind = generation };
  resolved = false;
  accepted = false;
  closed = false;
}

aclose-once_example :
    (aclose (aclose (recovering true 1) attempt 9).0 (aclose (recovering true 1) attempt 9).1 10
      ≡ aclose (recovering true 1) attempt 9)
    × ((aclose (recovering true 1) attempt 9).0.free_slots ≡ 3)
aclose-once_example = aclose-once (recovering true 1) attempt 9 10

abbrev reading : ℕ → Reading
reading now = record { now = now; allowed = true; stamp = now + 1 }

abbrev readings : List Reading
readings = reading 1 ∷ reading 2 ∷ reading 4 ∷ reading 60 ∷ reading 70 ∷ []

later_readings : IsMonotone 2 (reading 2 ∷ reading 4 ∷ reading 60 ∷ reading 70 ∷ [])
later_readings = ground arith

acquisitions-le-rate_limit_example :
    count_within 60 1
      (acquisitions (record { rate_limit = 2; rate_window = 60; times = [] }) readings)
    ≤ 2
acquisitions-le-rate_limit_example =
    acquisitions-le-rate_limit 2 60 1 readings (omega arith, omega arith, later_readings)

abbrev size_of : String → ℕ
size_of s = 5

abbrev pushed : List Pushed
pushed =
    record { event = "start"; now = 1; later = 1 }
    ∷ record { event = "delta"; now = 2; later = 2 }
    ∷ []

advance_failure-delivery_example :
    SeenBy 10 100
      ("start" ∷ "delta" ∷ [])
      (push_all size_of (new_holdback 10 100) pushed).1
      (advance_failure (push_all size_of (new_holdback 10 100) pushed).0 true true true false 2)
advance_failure-delivery_example =
    advance_failure-delivery size_of 10 100 pushed true true true false 2

open_attempt-takes_slot_example :
    (open_attempt (recovering true 1) "a" (probe_of 1) generation 5 true).0.free_slots
      + slots_taken (open_attempt (recovering true 1) "a" (probe_of 1) generation 5 true).1
    ≡ 2
open_attempt-takes_slot_example =
    open_attempt-takes_slot (recovering true 1) "a" (probe_of 1) generation 5 true
