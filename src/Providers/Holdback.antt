-- ===== src/Providers/Holdback.antt =====
-- `RecoveryHoldbackBuffer` and `RecoveryController` of src/luicode/providers/stream_recovery.py. The
-- readings of the clock are arguments; the length of an event in bytes is Python's, a parameter.
pub mod Delivery
use luicode.Base.{
  ℕ, ◌+◌, ◌-◌, Bool, true, false, not, ◌&&◌, ◌||◌, String, Option, none, some, List, [], ◌∷◌, ◌++◌,
  ltb, leb, nat_beq, if◌then◌else◌,
}

pub data RecoveryFailureAction : Type 0 where
  early_retry midstream_recovery final_error : RecoveryFailureAction

pub record RecoveryDecision : Type 0 where
  pub action : RecoveryFailureAction
  pub retryable : Bool
  pub committed : Bool
  pub has_buffered : Bool

pub record RecoveryHoldbackBuffer : Type 0 where
  pub holdback : ℕ
  pub max_bytes : ℕ
  pub events : List String
  pub bytes : ℕ
  pub started_at : Option ℕ
  pub committed : Bool

-- `_new_holdback`, and `__init__` of the buffer
abbrev pub new_holdback : ℕ → ℕ → RecoveryHoldbackBuffer
new_holdback holdback max_bytes = record {
  holdback = holdback;
  max_bytes = max_bytes;
  events = [];
  bytes = 0;
  started_at = none;
  committed = false;
}

unfoldable pub has_buffered : RecoveryHoldbackBuffer → Bool
has_buffered b = elim (b.events) [ [] ↦ false | e ∷ es ↦ true ]

unfoldable pub discard : RecoveryHoldbackBuffer → RecoveryHoldbackBuffer
discard b = record b { events = []; bytes = 0; started_at = none }

unfoldable pub flush : RecoveryHoldbackBuffer → RecoveryHoldbackBuffer × List String
flush b =
    if b.committed
    then (b, [])
    else (record b { committed = true; events = []; bytes = 0; started_at = none }, b.events)

abbrev start_of : Option ℕ → ℕ → ℕ
start_of none now = now
start_of (some t) now = t

-- An event as it is pushed, with the two readings of the clock that the push may make.
pub record Pushed : Type 0 where
  pub event : String
  pub now : ℕ
  pub later : ℕ

module _ (size : String → ℕ) where
  abbrev held : RecoveryHoldbackBuffer → Pushed → RecoveryHoldbackBuffer
  held b p = record b {
    events = b.events ++ p.event ∷ [];
    bytes = b.bytes + size p.event;
    started_at = some (start_of b.started_at p.now);
  }

  unfoldable pub push : RecoveryHoldbackBuffer → Pushed → RecoveryHoldbackBuffer × List String
  unfolding flush
  push b p =
      if b.committed
      then (b, p.event ∷ [])
      else if leb b.max_bytes (b.bytes + size p.event)
          || leb b.holdback (p.later - start_of b.started_at p.now)
      then flush (held b p)
      else (held b p, [])

-- `flush_uncommitted`
unfoldable pub flush_uncommitted :
    RecoveryHoldbackBuffer → RecoveryDecision → RecoveryHoldbackBuffer × List String
unfolding flush
flush_uncommitted b d = if not d.committed && d.has_buffered then flush b else (b, [])

abbrev decided : RecoveryFailureAction → Bool → RecoveryHoldbackBuffer → RecoveryDecision
decided action retryable b = record {
  action = action;
  retryable = retryable;
  committed = b.committed;
  has_buffered = has_buffered b;
}

-- `advance_failure`: the controller's state is its buffer. `attempts_remaining > 0` and `== 1`.
unfoldable pub advance_failure :
    RecoveryHoldbackBuffer
    → Bool
    → Bool
    → Bool
    → Bool
    → ℕ
    → RecoveryHoldbackBuffer × RecoveryDecision
unfolding has_buffered
advance_failure b retryable stream_opened generated_output complete_tool_salvageable
      attempts_remaining =
    let retry_available = ltb 0 attempts_remaining in
    let reserve_last = generated_output && nat_beq attempts_remaining 1 in
    if retryable
      && retry_available
      && stream_opened
      && not b.committed
      && not complete_tool_salvageable
      && not reserve_last
    then (new_holdback b.holdback b.max_bytes, decided early_retry true b)
    else if retryable && generated_output && (retry_available || complete_tool_salvageable)
    then (b, decided midstream_recovery true b)
    else (b, decided final_error retryable b)
