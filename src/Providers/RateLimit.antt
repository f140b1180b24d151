-- ===== src/Providers/RateLimit.antt =====
-- `StrictSlidingWindowLimiter` of src/luicode/core/rate_limit.py. Times are natural numbers of a
-- clock; the two readings of the clock in one turn of `_acquire` and the answer of `allowed` are
-- arguments. `times[0] <= now - window` is written without the subtraction.
pub mod Window
use luicode.Base.{
  ℕ, ◌+◌, ◌-◌, Bool, true, false, Option, none, some, List, [], ◌∷◌, ◌++◌, length, ltb, leb,
  if◌then◌else◌,
}
use luicode.Base.Outcome.{Outcome, ok, raised, ◌>>=◌, ◌>>◌, raise_if}

pub record StrictSlidingWindowLimiter : Type 0 where
  pub rate_limit : ℕ
  pub rate_window : ℕ
  pub times : List ℕ

-- The ValueErrors of the constructor.
pub data LimiterError : Type 0 where
  limit_not_positive window_not_positive : LimiterError

-- `__init__`
unfoldable pub new_limiter : ℕ → ℕ → Outcome LimiterError StrictSlidingWindowLimiter
new_limiter rate_limit rate_window = do
  raise_if (leb rate_limit 0) limit_not_positive
  raise_if (leb rate_window 0) window_not_positive
  ok (record { rate_limit = rate_limit; rate_window = rate_window; times = [] })

-- What one turn of the loop comes to: the value that `_acquire` returns, or a sleep.
pub data Turn : Type 0 where
  returns : Bool → Turn
  sleeps : ℕ → Turn

-- What one turn reads: the clock, whether the caller is still allowed, and the clock again.
pub record Reading : Type 0 where
  pub now : ℕ
  pub allowed : Bool
  pub stamp : ℕ

-- `while times and times[0] <= cutoff: times.popleft()`
unfoldable pub prune : ℕ → ℕ → List ℕ → List ℕ
prune window now [] = []
prune window now (t ∷ ts) =
    let rest = prune window now ts in if leb (t + window) now then rest else t ∷ ts

abbrev wait_of : StrictSlidingWindowLimiter → ℕ → List ℕ → StrictSlidingWindowLimiter × Turn
wait_of l now [] = (l, sleeps 0)
wait_of l now (oldest ∷ ts) = (l, sleeps (oldest + l.rate_window - now))

-- One turn of the loop of `_acquire`. With a full window there is an oldest time, since the limit is
-- positive.
unfoldable pub acquire : StrictSlidingWindowLimiter → Reading → StrictSlidingWindowLimiter × Turn
unfolding prune
acquire l r =
    let times = prune l.rate_window r.now l.times in
    let pruned = record l { times = times } in
    if ltb (length times) l.rate_limit
    then if r.allowed
      then (record l { times = times ++ r.stamp ∷ [] }, returns true)
      else (pruned, returns false)
    else wait_of pruned r.now times
