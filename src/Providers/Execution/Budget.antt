-- ===== src/Providers/Execution/Budget.antt =====
-- The attempt budget over any life of an execution, and its terminal states.
use luicode.Base.{
  string_eq, ℕ, ◌+◌, ◌≤◌, ◌<◌, ap, ◌∙◌, true, false, String, List, [], ◌∷◌, ◌≡◌, ◌↔◌, refl, arith,
  is_some,
}
use luicode.Base.Outcome.{Outcome, ok, raised}
use luicode.Providers.Execution.{
  ProviderOperationKind, ProviderExecution, AttemptClaim, ExecutionError, is_running,
  attempts_remaining, succeed, fail, abandon, claim_attempt, close_attempt, record_failure, start,
}

-- What can happen to an execution.
pub data Event (E : Type 0) : Type 0 where
  claims : ProviderOperationKind → Event E
  closes : AttemptClaim → Event E
  records : E → Event E
  fails : E → Event E
  succeeds : Event E
  abandons : Event E

module _ {E : Type 0} where
  abbrev claimed :
      ProviderExecution E
      → Outcome ExecutionError (ProviderExecution E × AttemptClaim)
      → ProviderExecution E
  claimed x (ok (y, c)) = y
  claimed x (raised e) = x

  abbrev pub happen : ProviderExecution E → Event E → ProviderExecution E
  happen x (claims kind) = claimed x (claim_attempt x kind)
  happen x (closes claim) = close_attempt claim x
  happen x (records error) = record_failure error x
  happen x (fails error) = fail error x
  happen x succeeds = succeed x
  happen x abandons = abandon x

  abbrev pub live : ProviderExecution E → List (Event E) → ProviderExecution E
  live x [] = x
  live x (e ∷ es) = live (happen x e) es

  -- The attempts that were handed out along the way.
  abbrev pub granted : Outcome ExecutionError (ProviderExecution E × AttemptClaim) → ℕ
  granted (ok r) = 1
  granted (raised e) = 0

  abbrev pub grants : ProviderExecution E → Event E → ℕ
  grants x (claims kind) = granted (claim_attempt x kind)
  grants x _ = 0

  abbrev pub total_grants : ProviderExecution E → List (Event E) → ℕ
  total_grants x [] = 0
  total_grants x (e ∷ es) = grants x e + total_grants (happen x e) es

  happen_budget :
      (x : ProviderExecution E) (e : Event E)
      → x.attempts_started ≤ x.max_attempts
      → ((happen x e).attempts_started ≡ x.attempts_started + grants x e)
        × ((happen x e).max_attempts ≡ x.max_attempts)
        × ((happen x e).attempts_started ≤ x.max_attempts)
  unfolding claim_attempt close_attempt record_failure fail succeed abandon
  happen_budget x (claims kind) h = ground arith
  happen_budget x (closes claim) h = ground arith
  happen_budget x (records error) h = ground arith
  happen_budget x (fails error) h = ground arith
  happen_budget x succeeds h = ground arith
  happen_budget x abandons h = ground arith

  live_budget :
      (es : List (Event E)) (x : ProviderExecution E)
      → x.attempts_started ≤ x.max_attempts
      → ((live x es).attempts_started ≡ x.attempts_started + total_grants x es)
        × ((live x es).max_attempts ≡ x.max_attempts)
        × ((live x es).attempts_started ≤ x.max_attempts)
  live_budget [] x h = omega arith
  live_budget (e ∷ es) x h =
      let step = happen_budget x e h in
      omega (arith, step, live_budget es (happen x e) (omega (arith, step)))

  -- From its start, whatever happens to an execution in whatever order, the number of attempts that
  -- it hands out is the number that it counts, and at most its budget.
  pub total_grants-le-max_attempts :
      (id : String) (budget : ℕ) (es : List (Event E))
      → ((live (start id budget) es).attempts_started ≡ total_grants (start id budget) es)
        × (total_grants (start id budget) es ≤ budget)
  total_grants-le-max_attempts id budget es =
      omega (arith, live_budget es (start id budget) (omega arith))

  -- An attempt is handed out exactly when the execution is active, has budget left, and has no
  -- attempt open.
  pub claim_attempt_iff :
      (x : ProviderExecution E) (kind : ProviderOperationKind)
      → (grants x (claims kind) ≡ 1) ↔ (
          (is_running x.state ≡ true)
          × (0 < attempts_remaining x)
          × (is_some x.active_claim ≡ false))
  unfolding claim_attempt attempts_remaining
  claim_attempt_iff x kind = (λ h. (ground arith, ground arith, ground arith), λ h. ground arith)

  happen_terminal :
      (x : ProviderExecution E) (e : Event E)
      → is_running x.state ≡ false
      → ((happen x e).state ≡ x.state)
        × ((happen x e).last_failure ≡ x.last_failure)
        × (grants x e ≡ 0)
  unfolding claim_attempt close_attempt record_failure fail succeed abandon
  happen_terminal x (claims kind) h = ground arith
  happen_terminal x (closes claim) h = ground arith
  happen_terminal x (records error) h = ground arith
  happen_terminal x (fails error) h = ground arith
  happen_terminal x succeeds h = ground arith
  happen_terminal x abandons h = ground arith

  -- A terminal execution stays as it ended: whatever happens later, its state and its last failure
  -- do not change, and it hands out no attempt.
  pub live_terminal :
      (x : ProviderExecution E) (es : List (Event E))
      → is_running x.state ≡ false
      → ((live x es).state ≡ x.state)
        × ((live x es).last_failure ≡ x.last_failure)
        × (total_grants x es ≡ 0)
  live_terminal x [] h = (refl, refl, refl)
  live_terminal x (e ∷ es) h =
      let (s, f, g) = happen_terminal x e h in
      let (s', f', g') = live_terminal (happen x e) es (ap is_running s ∙ h) in
      (s' ∙ s, f' ∙ f, omega (arith, g, g'))
