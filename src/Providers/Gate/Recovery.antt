-- ===== src/Providers/Gate/Recovery.antt =====
-- The recovery gate over any interleaving of its sections.
use luicode.Base.{
  string_eq, ℕ, ◌<◌, Bool, true, false, not, ◌&&◌, ◌||◌, String, Option, none, some, List, [], ◌∷◌,
  is_some, without, arith, ◌≡◌, refl, subst,
}
use luicode.Base.Dict.{lookup}
use luicode.Providers.Gate.{
  Controller, RecoveryEpisode, GatePermit, wait_for_gate, after_sleep, attempt_closed,
  attempt_corrected, attempt_abandoned, abandon_waiting_leader, cancel_wait, start_recovery_episode,
  new_episode, take_lead, line_up, enter_episode, enter_gate, failure_of, pass_gate, unqueued_in,
}
use luicode.Providers.Gate.Failed.{attempt_failed}

abbrev is_empty : List String → Bool
is_empty [] = true
is_empty (x ∷ xs) = false

without_empty : (id : String) (l : List String) → is_empty l ≡ true → is_empty (without id l) ≡ true
unfolding without
without_empty id [] h = refl
without_empty id (x ∷ xs) h = cc

module _ {E : Type 0} where
  -- A section of the class that some coroutine runs: whoever calls, whenever, with what permit.
  pub data Section (c : Controller E) : Controller E → Type 0 where
    enters : (id : String) (now : ℕ) → Section c (wait_for_gate c id now).0
    wakes : (id : String) (generation : ℕ) → Section c (after_sleep c id generation).0
    closes : (id : String) (p : GatePermit) → Section c (attempt_closed c id p)
    corrects : (id : String) (p : GatePermit) (now : ℕ) → Section c (attempt_corrected c id p now)
    abandons : (id : String) (p : GatePermit) (now : ℕ) → Section c (attempt_abandoned c id p now)
    leaves : (id : String) (generation : ℕ) → Section c (abandon_waiting_leader c id generation)
    cancels : (id : String) (generation : ℕ) → Section c (cancel_wait c id generation)
    fails :
        (id : String) (p : GatePermit) (error : E) (now delay terminal_delay : ℕ)
        → Section c (attempt_failed c id p error now delay terminal_delay)

  pub data Reach (c : Controller E) : Controller E → Type 0 where
    here : Reach c c
    next : {d d' : Controller E} → Reach c d → Section d d' → Reach c d'

  -- The episode is older than the next generation, an active probe has a leader, and in quarantine
  -- there is no leader, no probe and no waiter.
  abbrev SoundEpisode : Option (RecoveryEpisode E) → ℕ → Type 0
  SoundEpisode none bound = Unit {0}
  SoundEpisode (some ep) bound =
      (ep.generation < bound)
      × ((ep.probe_active && not (is_some ep.leader)) ≡ false)
      × ((is_some ep.terminal_until && (is_some ep.leader || ep.probe_active)) ≡ false)
      × ((is_some ep.terminal_until && not (is_empty ep.waiters)) ≡ false)

  abbrev pub IsSound : Controller E → Type 0
  IsSound c = SoundEpisode c.episode c.next_generation

  line_up-IsSound :
      (c : Controller E) (id : String) (now : ℕ) (ep : RecoveryEpisode E)
      → ep.terminal_until ≡ none
      → SoundEpisode (some ep) c.next_generation
      → IsSound (line_up c id now (take_lead id ep)).0
  line_up-IsSound c id now ep h v = ground arith

  enter_episode-IsSound :
      (c : Controller E) (id : String) (now : ℕ) (ep : RecoveryEpisode E) (quarantine : Option ℕ)
      → ep.terminal_until ≡ quarantine
      → IsSound c
      → SoundEpisode (some ep) c.next_generation
      → IsSound (enter_episode c id now ep quarantine).0
  unfolding start_recovery_episode new_episode
  enter_episode-IsSound c id now ep none h w v = line_up-IsSound c id now ep h v
  enter_episode-IsSound c id now ep (some until) h w v = ground (
    arith,
    line_up-IsSound (start_recovery_episode c (some id) now ep.last_error).0 id now
        (new_episode c.next_generation (some id) now ep.last_error) refl,
  )

  enter_gate-IsSound :
      (c : Controller E) (id : String) (now : ℕ) (episode : Option (RecoveryEpisode E))
      → c.episode ≡ episode
      → IsSound c
      → IsSound (enter_gate c id now episode).0
  enter_gate-IsSound c id now none h v = v
  enter_gate-IsSound c id now (some ep) h v =
      enter_episode-IsSound c id now ep ep.terminal_until refl v
        (subst (λ e. SoundEpisode e c.next_generation) h v)

  pass_gate-IsSound :
      (c : Controller E) (id : String) (now : ℕ) (e : Option E)
      → IsSound c
      → IsSound (pass_gate c id now e).0
  pass_gate-IsSound c id now (some e) v = v
  pass_gate-IsSound c id now none v = enter_gate-IsSound c id now c.episode refl v

  unqueued_in-IsSound :
      (c : Controller E) (id : String) (generation : ℕ) (episode : Option (RecoveryEpisode E))
      → c.episode ≡ episode
      → IsSound c
      → IsSound (unqueued_in c id generation episode)
  unqueued_in-IsSound c id generation none h v = v
  unqueued_in-IsSound c id generation (some ep) h v =
      let w = subst (λ e. SoundEpisode e c.next_generation) h v in
      ground (arith, w, without_empty id ep.waiters)

  Section-IsSound : {c d : Controller E} → Section c d → IsSound c → IsSound d
  unfolding wait_for_gate after_sleep attempt_closed attempt_corrected attempt_abandoned
      abandon_waiting_leader cancel_wait attempt_failed
  Section-IsSound {c = c} (enters id now) v =
      pass_gate-IsSound c id now (failure_of (lookup id c.executions)) v
  Section-IsSound (wakes id generation) v = ground arith
  Section-IsSound (closes id p) v = ground arith
  Section-IsSound (corrects id p now) v = ground arith
  Section-IsSound (abandons id p now) v = ground arith
  Section-IsSound (leaves id generation) v = ground arith
  Section-IsSound {c = c} (cancels id generation) v =
      unqueued_in-IsSound c id generation c.episode refl v
  Section-IsSound (fails id p error now delay terminal_delay) v = ground arith

  -- From a sound controller, any interleaving of the sections of the gate leads to sound
  -- controllers: the episode, if there is one, is older than the next generation, an active probe
  -- has a leader, and in a quarantine there is no leader, no active probe and no waiter.
  pub Reach-IsSound : {c d : Controller E} → Reach c d → IsSound c → IsSound d
  Reach-IsSound here v = v
  Reach-IsSound (next r s) v = Section-IsSound s (Reach-IsSound r v)
