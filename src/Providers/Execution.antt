-- ===== src/Providers/Execution.antt =====
-- `ProviderExecution` of src/luicode/providers/admission.py: the attempt budget of one logical
-- operation. `E` stands for Python's exceptions, which the class stores and never looks into.
pub mod Budget
use luicode.Base.{
  string_eq, ℕ, ◌+◌, ◌-◌, Bool, true, false, not, ◌&&◌, String, Option, none, some, ltb, nat_beq,
  ◌==◌, is_some, if◌then◌else◌,
}
use luicode.Base.Outcome.{Outcome, ok, raised, ◌>>=◌, ◌>>◌, raise_if}

pub data ProviderOperationKind : Type 0 where
  model_discovery generation continuation tool_repair : ProviderOperationKind

pub data ProviderExecutionState : Type 0 where
  active succeeded failed abandoned : ProviderExecutionState

-- The RuntimeErrors of the class.
pub data ExecutionError : Type 0 where
  terminal_or_exhausted already_active : ExecutionError

pub record AttemptClaim : Type 0 where
  pub execution_id : String
  pub ordinal : ℕ
  pub operation_kind : ProviderOperationKind

pub record ProviderExecution (E : Type 0) : Type 0 where
  pub execution_id : String
  pub max_attempts : ℕ
  pub attempts_started : ℕ
  pub active_claim : Option AttemptClaim
  pub last_failure : Option E
  pub state : ProviderExecutionState

abbrev pub is_running : ProviderExecutionState → Bool
is_running active = true
is_running _ = false

abbrev pub is_failed : ProviderExecutionState → Bool
is_failed failed = true
is_failed _ = false

kind_number : ProviderOperationKind → ℕ
kind_number model_discovery = 0
kind_number generation = 1
kind_number continuation = 2
kind_number tool_repair = 3

-- `==` of two claims: the dataclass compares its three fields.
unfoldable pub same_claim : AttemptClaim → AttemptClaim → Bool
unfolding kind_number
same_claim a b =
    a.execution_id == b.execution_id
    && nat_beq a.ordinal b.ordinal
    && nat_beq (kind_number a.operation_kind) (kind_number b.operation_kind)

abbrev claim_is : Option AttemptClaim → AttemptClaim → Bool
claim_is none claim = false
claim_is (some c) claim = same_claim c claim

module _ {E : Type 0} where
  -- `ProviderExecution.__init__`
  abbrev pub start : String → ℕ → ProviderExecution E
  start id max_attempts = record {
    execution_id = id;
    max_attempts = max_attempts;
    attempts_started = 0;
    active_claim = none;
    last_failure = none;
    state = active;
  }

  unfoldable pub can_attempt : ProviderExecution E → Bool
  can_attempt x = is_running x.state && ltb x.attempts_started x.max_attempts

  -- `max(0, max_attempts - attempts_started)`: the difference on ℕ stops at 0.
  unfoldable pub attempts_remaining : ProviderExecution E → ℕ
  attempts_remaining x = if not (is_running x.state) then 0 else x.max_attempts - x.attempts_started

  unfoldable pub succeed : ProviderExecution E → ProviderExecution E
  succeed x = if is_running x.state then record x { state = succeeded } else x

  unfoldable pub fail : E → ProviderExecution E → ProviderExecution E
  fail error x =
      if is_running x.state then record x { last_failure = some error; state = failed } else x

  unfoldable pub abandon : ProviderExecution E → ProviderExecution E
  abandon x = if is_running x.state then record x { state = abandoned } else x

  abbrev new_claim : ProviderExecution E → ProviderOperationKind → AttemptClaim
  new_claim x kind = record {
    execution_id = x.execution_id;
    ordinal = x.attempts_started + 1;
    operation_kind = kind;
  }

  unfoldable pub claim_attempt :
      ProviderExecution E
      → ProviderOperationKind
      → Outcome ExecutionError (ProviderExecution E × AttemptClaim)
  unfolding can_attempt
  claim_attempt x kind = do
    raise_if (not (can_attempt x)) terminal_or_exhausted
    raise_if (is_some x.active_claim) already_active
    ok (
      record x {
        attempts_started = x.attempts_started + 1;
        active_claim = some (new_claim x kind);
      },
      new_claim x kind,
    )

  unfoldable pub close_attempt : AttemptClaim → ProviderExecution E → ProviderExecution E
  unfolding same_claim
  close_attempt claim x =
      if claim_is x.active_claim claim then record x { active_claim = none } else x

  unfoldable pub record_failure : E → ProviderExecution E → ProviderExecution E
  record_failure error x = if is_running x.state then record x { last_failure = some error } else x

  unfoldable pub terminal_failure : ProviderExecution E → Option E
  terminal_failure x = if is_failed x.state then x.last_failure else none
