-- ===== src/Providers/Attempt/Lifecycle.antt =====
-- One attempt is opened with one slot and gives it back once.
use luicode.Base.{String, zero, suc, ◌+◌, none, some, arith}
use luicode.Base.Dict.{lookup}
use luicode.Base.Outcome.{Outcome, ok, raised}
use luicode.Providers.Execution.{
  ProviderExecution, ProviderOperationKind, AttemptClaim, ExecutionError, claim_attempt,
  close_attempt,
}
use luicode.Providers.Gate.{GatePermit, permit_is_current}
use luicode.Providers.Attempt.{
  OpenStep, opened, again, raises, trace_raises, no_slot, open_attempt, open_claimed, claim_for,
  take_slot, release_slot, put_execution,
}
use luicode.Base.{
  string_eq, ℕ, ◌+◌, Bool, true, false, Option, none, some, if◌then◌else◌, ◌≡◌, refl, ap,
}
use luicode.Providers.Gate.{
  Controller, RecoveryEpisode, attempt_abandoned, matching_probe, abandoned_in,
}
use luicode.Providers.Attempt.{ProviderAttempt, aclose, aclose_in, abandon_unresolved}

abbrev pub slots_taken : OpenStep → ℕ
slots_taken (opened a) = 1
slots_taken again = 0
slots_taken (raises e) = 0
slots_taken trace_raises = 0
slots_taken no_slot = 0

module _ {E : Type 0} where
  abandoned_in-free_slots :
      (c : Controller E) (now : ℕ) (episode : Option (RecoveryEpisode E))
      → (abandoned_in c now episode).free_slots ≡ c.free_slots
  abandoned_in-free_slots c now none = refl
  abandoned_in-free_slots c now (some ep) = refl

  abandon_unresolved-free_slots :
      (b : Bool) (c : Controller E) (a : ProviderAttempt) (now : ℕ)
      → (abandon_unresolved b c a now).free_slots ≡ c.free_slots
  unfolding attempt_abandoned
  abandon_unresolved-free_slots true c a now = refl
  abandon_unresolved-free_slots false c a now =
      abandoned_in-free_slots c now (matching_probe c a.execution a.permit)

  aclose_in-closed :
      (b : Bool) (c : Controller E) (a : ProviderAttempt) (now : ℕ)
      → a.closed ≡ b
      → (aclose_in b c a now).1.closed ≡ true
  aclose_in-closed true c a now h = h
  aclose_in-closed false c a now h = refl

  aclose_closed :
      (c : Controller E) (a : ProviderAttempt) (now : ℕ) → a.closed ≡ true → aclose c a now ≡ (c, a)
  unfolding aclose
  aclose_closed c a now h = ap (λ b. aclose_in b c a now) h

  aclose_in-free_slots :
      (b : Bool) (c : Controller E) (a : ProviderAttempt) (now : ℕ)
      → (aclose_in b c a now).0.free_slots ≡ (if b then c.free_slots else c.free_slots + 1)
  aclose_in-free_slots true c a now = refl
  aclose_in-free_slots false c a now =
      ap (λ n. n + 1) (abandon_unresolved-free_slots a.resolved c a now)

  -- Closing is idempotent and frees one slot: the second `aclose` of an attempt leaves the
  -- controller and the attempt as the first one left them, and the first one frees exactly one slot
  -- if the attempt was not closed before and none otherwise.
  pub aclose-once :
      (c : Controller E) (a : ProviderAttempt) (now later : ℕ)
      → (aclose (aclose c a now).0 (aclose c a now).1 later ≡ aclose c a now)
        × ((aclose c a now).0.free_slots ≡ (if a.closed then c.free_slots else c.free_slots + 1))
  unfolding aclose
  aclose-once c a now later = (
    aclose_closed (aclose c a now).0 (aclose c a now).1 later
        (aclose_in-closed a.closed c a now refl),
    aclose_in-free_slots a.closed c a now,
  )

  abandoned-free_slots :
      (c : Controller E) (id : String) (p : GatePermit) (now : ℕ)
      → (attempt_abandoned c id p now).free_slots ≡ c.free_slots
  unfolding attempt_abandoned
  abandoned-free_slots c id p now = abandoned_in-free_slots c now (matching_probe c id p)

  abbrev TakesSlot : ℕ → Controller E × OpenStep → Type 0
  TakesSlot free (c, step) = c.free_slots + slots_taken step ≡ free

  abbrev undone : Controller E → String → ProviderExecution E → AttemptClaim → Controller E
  undone c id x claim = release_slot (put_execution c id (close_attempt claim x))

  claimed-TakesSlot :
      (c : Controller E) (id : String) (p : GatePermit) (now : ℕ) (traced : Bool)
      (o : Outcome ExecutionError (ProviderExecution E × AttemptClaim))
      → TakesSlot (c.free_slots + 1) (open_claimed c id p now traced o)
  claimed-TakesSlot c id p now traced (raised e) =
      omega (arith, abandoned-free_slots (release_slot c) id p now)
  claimed-TakesSlot c id p now true (ok (x, claim)) = omega arith
  claimed-TakesSlot c id p now false (ok (x, claim)) =
      omega (arith, abandoned-free_slots (undone c id x claim) id p now)

  claim_for-TakesSlot :
      (c : Controller E) (id : String) (p : GatePermit) (kind : ProviderOperationKind) (now : ℕ)
      (traced : Bool) (o : Option (ProviderExecution E))
      → TakesSlot (c.free_slots + 1) (claim_for c id p kind now traced o)
  claim_for-TakesSlot c id p kind now traced none =
      omega (arith, abandoned-free_slots (release_slot c) id p now)
  claim_for-TakesSlot c id p kind now traced (some x) =
      claimed-TakesSlot c id p now traced (claim_attempt x kind)

  entered-TakesSlot :
      (c : Controller E) (id : String) (p : GatePermit) (kind : ProviderOperationKind)
      (now free : ℕ) (traced b : Bool)
      → TakesSlot (free + 1) (
          if b
          then claim_for
              (record c { free_slots = free })
              id
              p
              kind
              now
              traced
              (lookup id c.executions)
          else (attempt_abandoned (record c { free_slots = free + 1 }) id p now, again))
  entered-TakesSlot c id p kind now free traced true =
      claim_for-TakesSlot (record c { free_slots = free }) id p kind now traced
        (lookup id c.executions)
  entered-TakesSlot c id p kind now free traced false =
      omega (arith, abandoned-free_slots (record c { free_slots = free + 1 }) id p now)

  take_slot-TakesSlot :
      (c : Controller E) (id : String) (p : GatePermit) (kind : ProviderOperationKind)
      (now free : ℕ) (traced : Bool)
      → c.free_slots ≡ free
      → TakesSlot free (take_slot c id p kind now traced free)
  take_slot-TakesSlot c id p kind now zero traced h = omega (arith, h)
  take_slot-TakesSlot c id p kind now (suc free) traced h =
      let e = entered-TakesSlot c id p kind now free traced (permit_is_current c id p) in
      omega (arith, e)

  -- An attempt holds one slot: whatever comes of the section that opens an attempt, the free slots
  -- afterwards are one fewer if it opened one, and as many as before if it did not, be it for the
  -- want of a slot, for a permit that is no longer current or for an
  -- exception, before the attempt is claimed or after.
  pub open_attempt-takes_slot :
      (c : Controller E) (id : String) (p : GatePermit) (kind : ProviderOperationKind) (now : ℕ)
      (traced : Bool)
      → (open_attempt c id p kind now traced).0.free_slots
          + slots_taken (open_attempt c id p kind now traced).1
        ≡ c.free_slots
  unfolding open_attempt
  open_attempt-takes_slot c id p kind now traced =
      take_slot-TakesSlot c id p kind now c.free_slots traced refl
