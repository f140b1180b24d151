-- ===== src/Providers/Gate/Permits.antt =====
-- Which permits of the recovery gate are current, and for how long.
use luicode.Base.{
  string_eq, ℕ, ◌<◌, true, false, String, Option, none, some, nat_beq, arith, ◌≡◌, refl, subst, sym,
  ◌∙◌, str_eq_iff,
}
use luicode.Base.Dict.{lookup}
use luicode.Providers.Gate.{
  Controller, RecoveryEpisode, GatePermit, GateStep, permit, exhausted, wait, sleep, wait_for_gate,
  after_sleep, permit_is_current, attempt_closed, attempt_corrected, attempt_abandoned,
  abandon_waiting_leader, cancel_wait, start_recovery_episode, matching_probe, new_episode,
}
use luicode.Providers.Gate.{
  current_in, generation_is, is_leader, take_lead, line_up, enter_episode, enter_gate, failure_of,
  pass_gate,
}
use luicode.Providers.Gate.Failed.{attempt_failed}
use luicode.Providers.Gate.Recovery.{
  Section, enters, wakes, closes, corrects, abandons, leaves, cancels, fails, Reach, here, next,
}

one_leader :
    (leader : Option String) (a b : String)
    → is_leader leader a ≡ true
    → is_leader leader b ≡ true
    → a ≡ b
one_leader none a b h k = ground arith
one_leader (some x) a b h k = sym ((str_eq_iff x a).0 h) ∙ (str_eq_iff x b).0 k

one_generation :
    (o p : Option ℕ) (g : ℕ) → generation_is o g ≡ true → generation_is p g ≡ true → o ≡ p
one_generation none p g h k = ground arith
one_generation (some x) none g h k = ground arith
one_generation (some x) (some y) g h k = ground arith

module _ {E : Type 0} where
  -- What a step of the gate granted is current.
  abbrev GrantIsCurrent : String → Controller E × GateStep E → Type 0
  GrantIsCurrent id (c, permit p) = permit_is_current c id p ≡ true
  GrantIsCurrent id (c, exhausted e) = Unit {0}
  GrantIsCurrent id (c, wait) = Unit {0}
  GrantIsCurrent id (c, sleep d g) = Unit {0}

  line_up-grants :
      (c : Controller E) (id : String) (now : ℕ) (ep : RecoveryEpisode E)
      → ep.terminal_until ≡ none
      → GrantIsCurrent id (line_up c id now (take_lead id ep))
  unfolding permit_is_current
  line_up-grants c id now ep h = ground arith

  enter_episode-grants :
      (c : Controller E) (id : String) (now : ℕ) (ep : RecoveryEpisode E) (quarantine : Option ℕ)
      → ep.terminal_until ≡ quarantine
      → GrantIsCurrent id (enter_episode c id now ep quarantine)
  unfolding start_recovery_episode new_episode
  enter_episode-grants c id now ep none h = line_up-grants c id now ep h
  enter_episode-grants c id now ep (some until) h = ground (
    arith,
    line_up-grants (start_recovery_episode c (some id) now ep.last_error).0 id now
        (new_episode c.next_generation (some id) now ep.last_error) refl,
  )

  enter_gate-grants :
      (c : Controller E) (id : String) (now : ℕ) (episode : Option (RecoveryEpisode E))
      → c.episode ≡ episode
      → GrantIsCurrent id (enter_gate c id now episode)
  unfolding permit_is_current
  enter_gate-grants c id now none h = ground arith
  enter_gate-grants c id now (some ep) h = enter_episode-grants c id now ep ep.terminal_until refl

  pass_gate-grants :
      (c : Controller E) (id : String) (now : ℕ) (e : Option E)
      → GrantIsCurrent id (pass_gate c id now e)
  pass_gate-grants c id now (some e) = record {}
  pass_gate-grants c id now none = enter_gate-grants c id now c.episode refl

  -- A permit that the gate grants is current when it is granted: if the turn of `_wait_for_gate`
  -- returns a permit, then `_permit_is_current` holds of it on the controller that the turn
  -- leaves, with no episode, during a recovery and after a quarantine.
  pub wait_for_gate-grants :
      (c : Controller E) (id : String) (now : ℕ) (d : Controller E) (p : GatePermit)
      → wait_for_gate c id now ≡ (d, permit p)
      → permit_is_current d id p ≡ true
  unfolding wait_for_gate
  wait_for_gate-grants c id now d p h =
      subst (GrantIsCurrent id) h (pass_gate-grants c id now (failure_of (lookup id c.executions)))

  exclusive_in :
      (episode : Option (RecoveryEpisode E)) (id other : String) (p q : GatePermit)
      → current_in episode id p ≡ true
      → current_in episode other q ≡ true
      → p.probe ≡ true
      → (id ≡ other) × (q.probe ≡ true) × (p.generation ≡ q.generation)
  exclusive_in none id other p q h k probe = ground arith
  exclusive_in (some ep) id other p q h k probe =
      let leader = one_leader ep.leader id other (ground arith) (ground arith) in
      let generation =
        one_generation p.generation q.generation ep.generation (ground arith) (ground arith) in
      (leader, ground arith, generation)

  -- One probe at a time: of two permits that are current together, if either is a probe then both
  -- are, they are held by the same execution and they are of the same generation.
  pub permit_is_current-exclusive :
      (c : Controller E) (id other : String) (p q : GatePermit)
      → permit_is_current c id p ≡ true
      → permit_is_current c other q ≡ true
      → p.probe ≡ true
      → (id ≡ other) × (q.probe ≡ true) × (p.generation ≡ q.generation)
  unfolding permit_is_current
  permit_is_current-exclusive c id other p q h k probe =
      exclusive_in c.episode id other p q h k probe

  -- A generation that the gate has left behind.
  abbrev SupersededIn : ℕ → Option (RecoveryEpisode E) → ℕ → Type 0
  SupersededIn g none bound = g < bound
  SupersededIn g (some ep) bound = (g < bound) × (nat_beq ep.generation g ≡ false)

  abbrev pub IsSuperseded : ℕ → Controller E → Type 0
  IsSuperseded g c = SupersededIn g c.episode c.next_generation

  line_up-IsSuperseded :
      (g : ℕ) (c : Controller E) (id : String) (now : ℕ) (ep : RecoveryEpisode E)
      → SupersededIn g (some ep) c.next_generation
      → IsSuperseded g (line_up c id now (take_lead id ep)).0
  line_up-IsSuperseded g c id now ep v = ground arith

  enter_episode-IsSuperseded :
      (g : ℕ) (c : Controller E) (id : String) (now : ℕ) (ep : RecoveryEpisode E)
      (quarantine : Option ℕ)
      → IsSuperseded g c
      → SupersededIn g (some ep) c.next_generation
      → IsSuperseded g (enter_episode c id now ep quarantine).0
  unfolding start_recovery_episode new_episode
  enter_episode-IsSuperseded g c id now ep none w v = line_up-IsSuperseded g c id now ep v
  enter_episode-IsSuperseded g c id now ep (some until) w v = ground (
    arith,
    line_up-IsSuperseded g (start_recovery_episode c (some id) now ep.last_error).0 id now
        (new_episode c.next_generation (some id) now ep.last_error),
  )

  enter_gate-IsSuperseded :
      (g : ℕ) (c : Controller E) (id : String) (now : ℕ) (episode : Option (RecoveryEpisode E))
      → c.episode ≡ episode
      → IsSuperseded g c
      → IsSuperseded g (enter_gate c id now episode).0
  enter_gate-IsSuperseded g c id now none h v = v
  enter_gate-IsSuperseded g c id now (some ep) h v =
      enter_episode-IsSuperseded g c id now ep ep.terminal_until v
        (subst (λ e. SupersededIn g e c.next_generation) h v)

  pass_gate-IsSuperseded :
      (g : ℕ) (c : Controller E) (id : String) (now : ℕ) (e : Option E)
      → IsSuperseded g c
      → IsSuperseded g (pass_gate c id now e).0
  pass_gate-IsSuperseded g c id now (some e) v = v
  pass_gate-IsSuperseded g c id now none v = enter_gate-IsSuperseded g c id now c.episode refl v

  Section-IsSuperseded :
      {c d : Controller E} (g : ℕ) → Section c d → IsSuperseded g c → IsSuperseded g d
  unfolding wait_for_gate after_sleep attempt_closed attempt_corrected attempt_abandoned
      abandon_waiting_leader cancel_wait attempt_failed
  Section-IsSuperseded {c = c} g (enters id now) v =
      pass_gate-IsSuperseded g c id now (failure_of (lookup id c.executions)) v
  Section-IsSuperseded g (wakes id generation) v = ground arith
  Section-IsSuperseded g (closes id p) v = ground arith
  Section-IsSuperseded g (corrects id p now) v = ground arith
  Section-IsSuperseded g (abandons id p now) v = ground arith
  Section-IsSuperseded g (leaves id generation) v = ground arith
  Section-IsSuperseded g (cancels id generation) v = ground arith
  Section-IsSuperseded g (fails id p error now delay terminal_delay) v = ground arith

  Reach-IsSuperseded :
      {c d : Controller E} (g : ℕ) → Reach c d → IsSuperseded g c → IsSuperseded g d
  Reach-IsSuperseded g here v = v
  Reach-IsSuperseded g (next r s) v = Section-IsSuperseded g s (Reach-IsSuperseded g r v)

  stale_in :
      (d : Controller E) (episode : Option (RecoveryEpisode E)) (g : ℕ) (id : String)
      (p : GatePermit) (now : ℕ)
      → d.episode ≡ episode
      → IsSuperseded g d
      → p.probe ≡ true
      → p.generation ≡ some g
      → (permit_is_current d id p ≡ false)
        × (attempt_closed d id p ≡ d)
        × (attempt_corrected d id p now ≡ d)
        × (attempt_abandoned d id p now ≡ d)
  unfolding permit_is_current attempt_closed attempt_corrected attempt_abandoned matching_probe
  stale_in d none g id p now e v h k = ground arith
  stale_in d (some ep) g id p now e v h k = ground arith

  -- A stale probe is harmless for good. Once the gate has left a generation behind, then after any
  -- interleaving of its sections the probes of that generation are not current, and accepting,
  -- rejecting, correcting or abandoning an attempt under one leaves the controller as it is.
  pub superseded_stays :
      (c d : Controller E) (g : ℕ) (id : String) (p : GatePermit) (now : ℕ)
      → Reach c d
      → IsSuperseded g c
      → p.probe ≡ true
      → p.generation ≡ some g
      → (permit_is_current d id p ≡ false)
        × (attempt_closed d id p ≡ d)
        × (attempt_corrected d id p now ≡ d)
        × (attempt_abandoned d id p now ≡ d)
  unfolding permit_is_current attempt_closed attempt_corrected attempt_abandoned matching_probe
  superseded_stays c d g id p now r v h k =
      stale_in d d.episode g id p now refl (Reach-IsSuperseded g r v) h k
