-- ===== src/Providers/Gate.antt =====
-- `ProviderAdmissionController` of src/luicode/providers/admission.py: the recovery gate. The
-- coroutines of the class run one at a time between two awaits, so each such section is one
-- function on the controller and the executions. Times are natural numbers of a clock that the
-- caller reads (`now`), in place of Python's floats. `E` stands for the exceptions.
pub mod Failed
pub mod Recovery
pub mod Permits
pub mod Quarantine
use luicode.Base.{
  string_eq, ℕ, ◌+◌, ◌-◌, ◌*◌, ◌^◌, min, max, Bool, true, false, not, ◌&&◌, ◌||◌, String, Option,
  none, some, List, [], ◌∷◌, ltb, leb, nat_beq, ◌==◌, is_some, if◌then◌else◌, contains, without,
}
use luicode.Base.Dict.{Dict, lookup, modify}
use luicode.Providers.Execution.{
  ProviderExecution, can_attempt, terminal_failure, fail, attempts_remaining,
}

pub record GatePermit : Type 0 where
  pub generation : Option ℕ
  pub probe : Bool

pub record RecoveryEpisode (E : Type 0) : Type 0 where
  pub generation : ℕ
  pub leader : Option String
  pub ready_at : ℕ
  pub last_error : E
  pub waiters : List String
  pub probe_active : Bool
  pub terminal_until : Option ℕ

-- The controller's state and the executions that it knows, by their ids.
pub record Controller (E : Type 0) : Type 0 where
  pub max_attempts : ℕ
  pub base_delay : ℕ
  pub max_delay : ℕ
  pub free_slots : ℕ
  pub episode : Option (RecoveryEpisode E)
  pub next_generation : ℕ
  pub executions : Dict String (ProviderExecution E)

-- What a section of `_wait_for_gate` comes to: a permit, an exception, a wait for the condition, or
-- a sleep after which the claimed generation is tried again.
pub data GateStep (E : Type 0) : Type 0 where
  permit : GatePermit → GateStep E
  exhausted : E → GateStep E
  wait : GateStep E
  sleep : ℕ → ℕ → GateStep E

abbrev pub open_permit : GatePermit
open_permit = record { generation = none; probe = false }

abbrev pub probe_permit : {E : Type 0} → RecoveryEpisode E → GatePermit
probe_permit ep = record { generation = some ep.generation; probe = true }

abbrev pub is_leader : Option String → String → Bool
is_leader none id = false
is_leader (some leader) id = leader == id

-- `waiters.add`
unfoldable pub add_waiter : String → List String → List String
add_waiter id ids = if contains id ids then ids else id ∷ ids

abbrev pub generation_is : Option ℕ → ℕ → Bool
generation_is none g = false
generation_is (some h) g = nat_beq g h

module _ {E : Type 0} where
  pub new_episode : ℕ → Option String → ℕ → E → RecoveryEpisode E
  new_episode generation leader ready_at error = record {
    generation = generation;
    leader = leader;
    ready_at = ready_at;
    last_error = error;
    waiters = [];
    probe_active = false;
    terminal_until = none;
  }

  -- `_start_recovery_episode`; it also returns the episode that it stores.
  unfoldable pub start_recovery_episode :
      Controller E → Option String → ℕ → E → Controller E × RecoveryEpisode E
  unfolding new_episode
  start_recovery_episode c leader ready_at error =
      let episode = new_episode c.next_generation leader ready_at error in
      (record c { episode = some episode; next_generation = c.next_generation + 1 }, episode)

  abbrev pub put_episode : Controller E → RecoveryEpisode E → Controller E
  put_episode c ep = record c { episode = some ep }

  -- The middle of the locked section of `_wait_for_gate`: nobody leads, so the caller does.
  abbrev pub take_lead : String → RecoveryEpisode E → RecoveryEpisode E
  take_lead id ep =
      if is_some ep.leader
      then ep
      else record ep { leader = some id; waiters = without id ep.waiters }

  -- Its end: the leader probes, sleeps or waits, and anybody else waits.
  abbrev pub line_up : Controller E → String → ℕ → RecoveryEpisode E → Controller E × GateStep E
  line_up c id now ep =
      if is_leader ep.leader id
      then if ep.probe_active
        then (put_episode c ep, wait)
        else if leb ep.ready_at now
        then (put_episode c (record ep { probe_active = true }), permit (probe_permit ep))
        else (put_episode c ep, sleep (ep.ready_at - now) ep.generation)
      else (put_episode c (record ep { waiters = add_waiter id ep.waiters }), wait)

  -- A quarantine that has run out gives way to a new episode, led by the caller.
  abbrev pub enter_episode :
      Controller E → String → ℕ → RecoveryEpisode E → Option ℕ → Controller E × GateStep E
  enter_episode c id now ep none = line_up c id now (take_lead id ep)
  enter_episode c id now ep (some until) =
      if ltb now until
      then (c, exhausted ep.last_error)
      else let (c', ep') = start_recovery_episode c (some id) now ep.last_error in
        line_up c' id now (take_lead id ep')

  abbrev pub enter_gate :
      Controller E → String → ℕ → Option (RecoveryEpisode E) → Controller E × GateStep E
  enter_gate c id now none = (c, permit open_permit)
  enter_gate c id now (some ep) = enter_episode c id now ep ep.terminal_until

  abbrev pub failure_of : Option (ProviderExecution E) → Option E
  failure_of none = none
  failure_of (some x) = terminal_failure x

  abbrev pub pass_gate : Controller E → String → ℕ → Option E → Controller E × GateStep E
  pass_gate c id now (some error) = (c, exhausted error)
  pass_gate c id now none = enter_gate c id now c.episode

  -- One turn of the loop of `_wait_for_gate`, up to its first await.
  unfoldable pub wait_for_gate : Controller E → String → ℕ → Controller E × GateStep E
  unfolding start_recovery_episode terminal_failure add_waiter
  wait_for_gate c id now = pass_gate c id now (failure_of (lookup id c.executions))

  abbrev probe_after :
      Controller E → String → ℕ → Option (RecoveryEpisode E) → Controller E × Option GatePermit
  probe_after c id generation none = (c, none)
  probe_after c id generation (some ep) =
      if nat_beq ep.generation generation
        && not (is_some ep.terminal_until)
        && is_leader ep.leader id
        && not ep.probe_active
      then (put_episode c (record ep { probe_active = true }), some (probe_permit ep))
      else (c, none)

  -- The section after the sleep: a permit, or another turn of the loop.
  unfoldable pub after_sleep : Controller E → String → ℕ → Controller E × Option GatePermit
  after_sleep c id generation = probe_after c id generation c.episode

  abbrev pub current_in : Option (RecoveryEpisode E) → String → GatePermit → Bool
  current_in none id p = not p.probe
  current_in (some ep) id p =
      p.probe
      && generation_is p.generation ep.generation
      && not (is_some ep.terminal_until)
      && is_leader ep.leader id
      && ep.probe_active

  unfoldable pub permit_is_current : Controller E → String → GatePermit → Bool
  permit_is_current c id p = current_in c.episode id p

  abbrev pub matches : RecoveryEpisode E → String → GatePermit → Bool
  matches ep id p =
      p.probe
      && generation_is p.generation ep.generation
      && is_leader ep.leader id
      && ep.probe_active

  abbrev pub matching_in :
      Option (RecoveryEpisode E) → String → GatePermit → Option (RecoveryEpisode E)
  matching_in none id p = none
  matching_in (some ep) id p = if matches ep id p then some ep else none

  unfoldable pub matching_probe : Controller E → String → GatePermit → Option (RecoveryEpisode E)
  matching_probe c id p = matching_in c.episode id p

  -- `_attempt_accepted` and `_attempt_rejected`: a matching probe ends the episode.
  unfoldable pub attempt_closed : Controller E → String → GatePermit → Controller E
  unfolding matching_probe
  attempt_closed c id p = if is_some (matching_probe c id p) then record c { episode = none } else c

  abbrev pub corrected_in : Controller E → ℕ → Option (RecoveryEpisode E) → Controller E
  corrected_in c now none = c
  corrected_in c now (some ep) = put_episode c (record ep { probe_active = false; ready_at = now })

  unfoldable pub attempt_corrected : Controller E → String → GatePermit → ℕ → Controller E
  unfolding matching_probe
  attempt_corrected c id p now = corrected_in c now (matching_probe c id p)

  abbrev pub abandoned_in : Controller E → ℕ → Option (RecoveryEpisode E) → Controller E
  abandoned_in c now none = c
  abandoned_in c now (some ep) =
      put_episode c (record ep { leader = none; probe_active = false; ready_at = now })

  -- `_attempt_abandoned` and `_abandon_probe_permit`
  unfoldable pub attempt_abandoned : Controller E → String → GatePermit → ℕ → Controller E
  unfolding matching_probe
  attempt_abandoned c id p now = abandoned_in c now (matching_probe c id p)

  abbrev leaderless_in : Controller E → String → ℕ → Option (RecoveryEpisode E) → Controller E
  leaderless_in c id generation none = c
  leaderless_in c id generation (some ep) =
      if nat_beq ep.generation generation && is_leader ep.leader id && not ep.probe_active
      then put_episode c (record ep { leader = none })
      else c

  unfoldable pub abandon_waiting_leader : Controller E → String → ℕ → Controller E
  abandon_waiting_leader c id generation = leaderless_in c id generation c.episode

  abbrev pub unqueued_in : Controller E → String → ℕ → Option (RecoveryEpisode E) → Controller E
  unqueued_in c id generation none = c
  unqueued_in c id generation (some ep) =
      if nat_beq ep.generation generation
      then put_episode c (record ep { waiters = without id ep.waiters })
      else c

  -- A wait that is cancelled takes the execution off the episode's waiters.
  unfoldable pub cancel_wait : Controller E → String → ℕ → Controller E
  cancel_wait c id generation = unqueued_in c id generation c.episode
