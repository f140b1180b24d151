-- ===== src/Providers/Holdback/Delivery.antt =====
-- What the events of one stream come to at its client.
use mathlib.Core.List.{append-nil, append_assoc}
use luicode.Base.{
  ℕ, Bool, true, false, String, List, [], ◌∷◌, ◌++◌, arith, ◌≡◌, refl, sym, ap, ◌∙◌, subst, ◌⊎◌,
}
use luicode.Providers.Holdback.{
  RecoveryHoldbackBuffer, RecoveryDecision, RecoveryFailureAction, early_retry, midstream_recovery,
  final_error, Pushed, new_holdback, push, flush, has_buffered, flush_uncommitted, advance_failure,
}

abbrev pub is_early_retry : RecoveryFailureAction → Bool
is_early_retry early_retry = true
is_early_retry midstream_recovery = false
is_early_retry final_error = false

abbrev pub events_of : List Pushed → List String
events_of [] = []
events_of (p ∷ ps) = p.event ∷ events_of ps

append_order :
    {A : Type 0} (out rest : List A) (held : List A) (x : A) (kept last seen : List A)
    → rest ++ last ≡ kept ++ seen
    → out ++ kept ≡ held ++ x ∷ []
    → (out ++ rest) ++ last ≡ held ++ x ∷ seen
append_order out rest held x kept last seen h k =
    append_assoc out rest last
    ∙ ap (λ l. out ++ l) h
    ∙ sym (append_assoc out kept seen)
    ∙ ap (λ l. l ++ seen) k
    ∙ append_assoc held (x ∷ []) seen

both_empty : {A : Type 0} {xs ys : List A} → xs ≡ [] → ys ≡ [] → xs ++ ys ≡ []
both_empty h k = rw (h, k)

module _ (size : String → ℕ) where
  -- A stream's events pushed one after another, with all that they let through.
  unfoldable pub push_all :
      RecoveryHoldbackBuffer → List Pushed → RecoveryHoldbackBuffer × List String
  push_all b [] = (b, [])
  push_all b (p ∷ ps) =
      let rest = push_all (push size b p).0 ps in (rest.0, (push size b p).1 ++ rest.1)

  -- From a buffer, what has come out and what is still held are the events so far, in order; a
  -- committed buffer holds nothing, and one that is not committed has let nothing out.
  abbrev Delivers :
      RecoveryHoldbackBuffer → List String → RecoveryHoldbackBuffer × List String → Type 0
  Delivers b seen (b', out) =
      (out ++ b'.events ≡ b.events ++ seen)
      × (b'.committed ≡ true → b'.events ≡ [])
      × (b'.committed ≡ false → b.committed ≡ false)
      × (b'.committed ≡ false → out ≡ [])
      × (b'.holdback ≡ b.holdback)
      × (b'.max_bytes ≡ b.max_bytes)

  push-Delivers :
      (b : RecoveryHoldbackBuffer) (p : Pushed)
      → (b.committed ≡ true → b.events ≡ [])
      → Delivers b (p.event ∷ []) (push size b p)
  unfolding push flush
  push-Delivers b p h = ground (arith, append-nil (b.events ++ p.event ∷ []))

  push_all-Delivers :
      (ps : List Pushed) (b : RecoveryHoldbackBuffer)
      → (b.committed ≡ true → b.events ≡ [])
      → Delivers b (events_of ps) (push_all b ps)
  unfolding push_all
  push_all-Delivers [] b h = (sym (append-nil b.events), h, λ e. e, λ e. refl, refl, refl)
  push_all-Delivers (p ∷ ps) b h =
      let first = push-Delivers b p h in
      let rest = push_all-Delivers ps (push size b p).0 first.1 in
      (
        append_order (push size b p).1 (push_all (push size b p).0 ps).1 b.events p.event _ _ _
            rest.0 first.0,
        rest.1,
        (λ e. first.2 (rest.2 e)),
        (λ e. both_empty (first.3 (rest.2 e)) (rest.3 e)),
        rest.4 ∙ first.4,
        rest.5 ∙ first.5,
      )

-- What the client of an attempt sees after its failure.
abbrev pub SeenBy :
    ℕ → ℕ → List String → List String → RecoveryHoldbackBuffer × RecoveryDecision → Type 0
SeenBy holdback max_bytes seen out (b, d) =
    ((is_early_retry d.action ≡ true) × (out ≡ []) × (b ≡ new_holdback holdback max_bytes))
    ⊎ ((is_early_retry d.action ≡ false) × (out ++ (flush_uncommitted b d).1 ≡ seen))

decision_seen :
    (b : RecoveryHoldbackBuffer) (out seen : List String)
    (retryable opened generated salvageable : Bool) (remaining : ℕ)
    → out ++ b.events ≡ seen
    → (b.committed ≡ true → b.events ≡ [])
    → (b.committed ≡ false → out ≡ [])
    → SeenBy b.holdback b.max_bytes seen out
        (advance_failure b retryable opened generated salvageable remaining)
unfolding advance_failure flush_uncommitted flush has_buffered
decision_seen b out seen retryable opened generated salvageable remaining h k e =
    ground (arith, append-nil out)

-- An early retry is invisible, and no other failure loses an event. After the pushes of an attempt's
-- events on a new buffer, either the decision on its failure is an early retry, the client has been
-- sent nothing and the buffer is new again; or it is another decision, and what the client has been
-- sent, with what the flush of the uncommitted events adds, are the attempt's events in their order.
pub advance_failure-delivery :
    (size : String → ℕ) (holdback max_bytes : ℕ) (ps : List Pushed)
    (retryable opened generated salvageable : Bool) (remaining : ℕ)
    → let before = push_all size (new_holdback holdback max_bytes) ps in
      SeenBy holdback max_bytes
        (events_of ps)
        before.1
        (advance_failure before.0 retryable opened generated salvageable remaining)
advance_failure-delivery size holdback max_bytes ps retryable opened generated salvageable
      remaining =
    let before = push_all size (new_holdback holdback max_bytes) ps in
    let all = push_all-Delivers size ps (new_holdback holdback max_bytes) (λ e. refl) in
    let seen =
      decision_seen before.0 before.1 (events_of ps) retryable opened generated salvageable
        remaining all.0 all.1 all.3 in
    subst
      (λ h.
        SeenBy h max_bytes (events_of ps) before.1
          (advance_failure before.0 retryable opened generated salvageable remaining))
      all.4
      (subst
        (λ m.
          SeenBy before.0.holdback m (events_of ps) before.1
            (advance_failure before.0 retryable opened generated salvageable remaining))
        all.5 seen)
