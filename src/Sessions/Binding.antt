-- ===== src/Sessions/Binding.antt =====
-- The turn of the harness that a run of a session belongs to.
use luicode.Base.{
  string_eq, str_eq_iff, Bool, true, false, not, ◌&&◌, ◌||◌, String, some, ◌==◌, if◌then◌else◌, ◌≡◌,
  ◌≢◌, refl, ap, ◌∙◌, arith, contains, is_some,
}
use luicode.Base.Outcome.{ok, raised}
use luicode.Sessions.Models.{CodeRun}
use luicode.Sessions.State.{SessionState, SessionProgress, unavailable, busy, apply_progress}
use luicode.Sessions.Progress.{
  bind_turn, turn_of, bound, other_turn, run_progress, matches_turn, matches_run, is_turn,
}
use luicode.Sessions.Turns.{apply_progress-run}

bind_found :
    (s : SessionState) (r : CodeRun) (t : String)
    → s.run ≡ some r
    → other_turn r.native_turn_id t ≡ false
    → bind_turn s t ≡ ok (run_progress s.session (bound r t))
unfolding bind_turn
bind_found s r t run same =
    ap (λ x. turn_of s.session x t) run
    ∙ ap (λ b. if b then raised unavailable else ok (run_progress s.session (bound r t))) same

bind_refused :
    (s : SessionState) (r : CodeRun) (t : String)
    → s.run ≡ some r
    → other_turn r.native_turn_id t ≡ true
    → bind_turn s t ≡ raised unavailable
unfolding bind_turn
bind_refused s r t run other =
    ap (λ x. turn_of s.session x t) run
    ∙ ap (λ b. if b then raised unavailable else ok (run_progress s.session (bound r t))) other

other_name : (t u : String) → t ≢ u → not (t == u) ≡ true
other_name t u h = ground (arith, h, str_eq_iff t u)

unmatched :
    (s : SessionState) (r : CodeRun) (t u : String) (starts : Bool)
    → s.run ≡ some r
    → r.native_turn_id ≡ some t
    → t ≢ u
    → matches_turn s (some u) starts ≡ false
unfolding matches_turn
unmatched s r t u starts run own other =
    ap (λ x. matches_run x (busy s) s.known_turns (some u) starts) run
    ∙ ap
        (λ o.
          busy s
          && r.submission_started
          && (is_turn o u || (not (is_some o) && starts && not (contains u s.known_turns))))
        own
    ∙ none_left (busy s) r.submission_started (t == u) starts (not (contains u s.known_turns))
        (other_name t u other)
  where
    none_left : (a b x y z : Bool) → not x ≡ true → (a && b && (x || (false && y && z))) ≡ false
    none_left a b x y z h = ground (arith, h)

-- A run stays with its turn: a run that is bound to no other turn is bound to the one that starts, and
-- once that is saved, the session refuses to bind it to a different turn and takes no event of one for
-- the run's own.
pub bind_turn-stays :
    (s : SessionState) (r : CodeRun) (t : String)
    → s.run ≡ some r
    → other_turn r.native_turn_id t ≡ false
    → (p : SessionProgress) × (bind_turn s t ≡ ok p)
      × ((u : String) (starts : Bool)
          → t ≢ u
          → (bind_turn (apply_progress p s) u ≡ raised unavailable)
            × (matches_turn (apply_progress p s) (some u) starts ≡ false))
bind_turn-stays s r t run same =
    let p = run_progress s.session (bound r t) in
    let run' = apply_progress-run s p r (bound r t) run refl refl in
    (
      p,
      bind_found s r t run same,
      λ u starts other. (
        bind_refused (apply_progress p s) (bound r t) u run' (other_name t u other),
        unmatched (apply_progress p s) (bound r t) t u starts run' refl other,
      ),
    )
