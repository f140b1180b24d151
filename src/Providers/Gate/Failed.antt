-- ===== src/Providers/Gate/Failed.antt =====
-- `_attempt_failed` and `_retry_delay` of admission.py. The jitter and the server's Retry-After are
-- arguments: the one is drawn at random, and the other is read from the exception.
use luicode.Base.{
  string_eq, ℕ, ◌+◌, ◌-◌, ◌*◌, ◌^◌, ◌≤◌, ◌<◌, min, max, Bool, true, false, String, Option, none,
  some, List, [], ◌∷◌, is_some, if◌then◌else◌, arith,
}
use native.Mathlib.Nat.{pow-le-pow_right, one-le-pow, mul-le-mul_left}
use luicode.Base.Dict.{Dict, lookup, modify}
use luicode.Providers.Execution.{ProviderExecution, can_attempt, fail}
use luicode.Providers.Gate.{
  Controller, RecoveryEpisode, GatePermit, start_recovery_episode, matching_probe, put_episode,
  add_waiter,
}

-- `max(backoff, retry_after or 0.0)`, with `backoff = min(base * 2 ** exponent, max) + jitter` and
-- `exponent = max(0, attempt - 1)`. `jitter` is the value of `random.uniform(0, self._jitter)` that the
-- call draws, another one on each call.
unfoldable pub retry_delay : ℕ → ℕ → ℕ → ℕ → ℕ → ℕ
retry_delay base_delay max_delay jitter retry_after attempt =
    max (min (base_delay * 2 ^ (attempt - 1)) max_delay + jitter) retry_after

module _ {E : Type 0} where
  -- `for waiter in episode.waiters: waiter._fail_recovery(error)`
  unfoldable pub fail_each :
      List String → E → Dict String (ProviderExecution E) → Dict String (ProviderExecution E)
  unfolding fail
  fail_each [] error d = d
  fail_each (id ∷ ids) error d = fail_each ids error (modify id (fail error) d)

  abbrev fail_one : Controller E → String → E → Controller E
  fail_one c id error = record c { executions = modify id (fail error) c.executions }

  abbrev join_or_fail : Controller E → String → RecoveryEpisode E → Option ℕ → Controller E
  join_or_fail c id ep (some until) = fail_one c id ep.last_error
  join_or_fail c id ep none = put_episode c (record ep { waiters = add_waiter id ep.waiters })

  -- A failure with budget left.
  abbrev retry_in :
      Controller E → String → GatePermit → E → ℕ → Option (RecoveryEpisode E) → Bool → Controller E
  retry_in c id p error ready_at none matching =
      (start_recovery_episode c (some id) ready_at error).0
  retry_in c id p error ready_at (some ep) true =
      put_episode c (record ep { last_error = error; probe_active = false; ready_at = ready_at })
  retry_in c id p error ready_at (some ep) false = join_or_fail c id ep ep.terminal_until

  abbrev pub quarantined : E → ℕ → RecoveryEpisode E → RecoveryEpisode E
  quarantined error until ep = record ep {
    last_error = error;
    leader = none;
    probe_active = false;
    terminal_until = some until;
    waiters = [];
  }

  abbrev pub quarantine : Controller E → E → ℕ → RecoveryEpisode E → Controller E
  quarantine c error until ep = record c {
    executions = fail_each ep.waiters error c.executions;
    episode = some (quarantined error until ep);
  }

  abbrev start_quarantine : E → ℕ → Controller E × RecoveryEpisode E → Controller E
  start_quarantine error until (c, ep) = quarantine c error until ep

  -- A failure that used up the budget.
  abbrev exhaust_in : Controller E → E → ℕ → ℕ → Option (RecoveryEpisode E) → Bool → Controller E
  exhaust_in c error now until none matching =
      start_quarantine error until (start_recovery_episode c none now error)
  exhaust_in c error now until (some ep) true = quarantine c error until ep
  exhaust_in c error now until (some ep) false = c

  abbrev pub can_retry : Option (ProviderExecution E) → Bool
  can_retry none = false
  can_retry (some x) = can_attempt x

  unfoldable pub attempt_failed : Controller E → String → GatePermit → E → ℕ → ℕ → ℕ → Controller E
  unfolding start_recovery_episode matching_probe add_waiter fail_each can_attempt
  attempt_failed c id p error now delay terminal_delay =
      let matching = is_some (matching_probe c id p) in
      if can_retry (lookup id c.executions)
      then retry_in c id p error (now + delay) c.episode matching
      else exhaust_in c error now (now + terminal_delay) c.episode matching

-- With a base delay of at most the ceiling and a jitter of at most `spread`, the delay is at least what
-- the server asked for and at least the base delay with the jitter, and it is at most the larger of
-- what the server asked for and the ceiling with the spread. For the same Retry-After, the delay of the
-- next attempt is no shorter when its jitter is the same, and with any other jitter, as each call
-- draws its own, it is shorter by at most the spread.
pub retry_delay_bounds :
    (base_delay max_delay spread jitter later retry_after attempt : ℕ)
    → base_delay ≤ max_delay
    → jitter ≤ spread
    → (retry_after ≤ retry_delay base_delay max_delay jitter retry_after attempt)
      × (base_delay + jitter ≤ retry_delay base_delay max_delay jitter retry_after attempt)
      × (retry_delay base_delay max_delay jitter retry_after attempt
          ≤ max (max_delay + spread) retry_after)
      × (retry_delay base_delay max_delay jitter retry_after attempt
          ≤ retry_delay base_delay max_delay jitter retry_after (attempt + 1))
      × (retry_delay base_delay max_delay jitter retry_after attempt
          ≤ retry_delay base_delay max_delay later retry_after (attempt + 1) + spread)
unfolding retry_delay
retry_delay_bounds base_delay max_delay spread jitter later retry_after attempt h k =
    let two : 0 < 2 = omega arith in
    let grows : 2 ^ (attempt - 1) ≤ 2 ^ (attempt + 1 - 1) = pow-le-pow_right two (omega arith) in
    let first : 1 ≤ 2 ^ (attempt - 1) = one-le-pow (attempt - 1) 2 two in
    let step = mul-le-mul_left base_delay grows in
    let low = mul-le-mul_left base_delay first in omega (arith, step, low)
