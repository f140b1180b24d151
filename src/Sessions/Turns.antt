-- ===== src/Sessions/Turns.antt =====
-- One turn of a session at a time: its admission, and its end.
use luicode.Base.{
  string_eq, str_eq_iff, beq_refl, nat_eq, ◌+◌, max, Bool, true, false, ◌&&◌, ◌||◌, String, Option,
  none, some, List, [], ◌∷◌, ◌==◌, if◌then◌else◌, ◌≡◌, ◌⊎◌, inl, inr, refl, ap, sym, subst, ◌∙◌,
  arith, contains, All, Bool-cases,
}
use luicode.Base.Dict.{Dict, lookup, insert, values, lookup-insert}
use luicode.Base.Json.{Fields}
use luicode.Base.Outcome.{ok, raised}
use luicode.Sessions.Models.{
  RunStatus, is_active, is_waiting, CodeMode, CodeSession, CodeRun, CodeItem, CodePrompt,
}
use luicode.Sessions.State.{
  SessionState, SessionProgress, conflict, busy, has_pending, accept_admission, prepare_admission,
  apply_progress, with_items, put_prompts, titled, new_run, own_item, revised, pending_items,
  with_run, replaced, status_active,
}
use luicode.Sessions.Progress.{
  prepare_finish, expire_prompt, expired_where, of_turn, ended, finish_of,
}

if_ok :
    {A : Type 0} (b : Bool) (x a : A)
    → (if b then raised conflict else ok x) ≡ ok a
    → (b ≡ false) × (x ≡ a)
if_ok true x a h = cc
if_ok false x a h = (refl, cc)

neither : (a b : Bool) → (a || b) ≡ false → (a ≡ false) × (b ≡ false)
neither a b h = ground (arith, h)

admitted_run :
    (title_of : String → String) (s : SessionState) (id text model : String)
    (effort : Option String) (mode : CodeMode) (a : CodeSession × CodeRun × CodeItem)
    → prepare_admission title_of s id text model effort mode ≡ ok a
    → (is_active a.1.status ≡ true)
      × (a.2.sequence ≡ s.sequence + 1)
      × (busy s ≡ false)
      × (has_pending s ≡ false)
unfolding prepare_admission
admitted_run title_of s id text model effort mode a h =
    let (free, same) =
      if_ok (busy s || has_pending s)
        (titled title_of s text, new_run s id text model effort mode, own_item s id id "user" text)
        a h in
    let (idle, none_waiting) = neither (busy s) (has_pending s) free in
    (
      sym (ap (λ x. is_active x.1.status) same),
      sym (ap (λ x. x.2.sequence) same),
      idle,
      none_waiting,
    )

refused_while_busy :
    (title_of : String → String) (s : SessionState) (id text model : String)
    (effort : Option String) (mode : CodeMode)
    → busy s ≡ true
    → prepare_admission title_of s id text model effort mode ≡ raised conflict
unfolding prepare_admission
refused_while_busy title_of s id text model effort mode h = rw h

-- Every prompt is filed under its own id.
pub record IsFiled (d : Dict String CodePrompt) : Type 0 where
  pub filed : (i : String) (p : CodePrompt) → lookup i d ≡ some p → p.id ≡ i

insert-IsFiled :
    (p : CodePrompt) (d : Dict String CodePrompt) → IsFiled d → IsFiled (insert p.id p d)
insert-IsFiled p d v = record {
  filed = λ i q h. ground (arith, h, v.filed i q, lookup-insert p.id i p d, str_eq_iff p.id i);
}

put_prompts-IsFiled :
    (ps : List CodePrompt) (d : Dict String CodePrompt) → IsFiled d → IsFiled (put_prompts ps d)
unfolding put_prompts
put_prompts-IsFiled [] d v = v
put_prompts-IsFiled (p ∷ ps) d v = put_prompts-IsFiled ps (insert p.id p d) (insert-IsFiled p d v)

with_items-keeps :
    (is : List CodeItem) (s : SessionState)
    → ((with_items is s).run ≡ s.run) × ((with_items is s).prompts ≡ s.prompts)
unfolding with_items
with_items-keeps [] s = (refl, refl)
with_items-keeps (i ∷ is) s =
    with_items-keeps is
      (record s { items = insert i.id i s.items; sequence = max s.sequence i.sequence })

abbrev ids : List CodePrompt → List String
ids [] = []
ids (p ∷ ps) = p.id ∷ ids ps

abbrev Settled : CodePrompt → Type 0
Settled p = is_waiting p.status ≡ false

-- After settled prompts were put, a prompt that waits was there before, under another id.
put_prompts-waiting :
    (ps : List CodePrompt) (d : Dict String CodePrompt) (i : String) (q : CodePrompt)
    → All Settled ps
    → lookup i (put_prompts ps d) ≡ some q
    → is_waiting q.status ≡ true
    → (lookup i d ≡ some q) × (contains i (ids ps) ≡ false)
unfolding put_prompts contains
put_prompts-waiting [] d i q all h w = (h, refl)
put_prompts-waiting (p ∷ ps) d i q all h w =
    let u = put_prompts-waiting ps (insert p.id p d) i q all.1 h w in
    ground
      (arith, u.0, u.1, all.0, w, lookup-insert p.id i p d, str_eq_iff p.id i, str_eq_iff i p.id)

if-All :
    (b : Bool) (p : CodePrompt) (ps : List CodePrompt)
    → Settled p
    → All Settled ps
    → All Settled (if b then p ∷ ps else ps)
if-All true p ps h k = (h, k)
if-All false p ps h k = k

expired_where-Settled :
    (b : CodePrompt → Bool) (qs : List CodePrompt) → All Settled (expired_where b qs)
expired_where-Settled b [] = tt
expired_where-Settled b (q ∷ qs) =
    if-All (is_waiting q.status && b q) (expire_prompt q) (expired_where b qs) refl
      (expired_where-Settled b qs)

kept_id :
    (c : Bool) (p : CodePrompt) (ps : List CodePrompt) (i : String)
    → (contains i (ids ps) ≡ true) ⊎ ((c ≡ true) × (p.id ≡ i))
    → contains i (ids (if c then p ∷ ps else ps)) ≡ true
unfolding contains
kept_id true p ps i h = ground (arith, h, str_eq_iff i p.id)
kept_id false p ps i h = ground (arith, h)

-- A prompt that waits and is of the turn is among those that expire.
expired_where-ids :
    (b : CodePrompt → Bool) (d : Dict String CodePrompt) (i : String) (q : CodePrompt)
    → lookup i d ≡ some q
    → q.id ≡ i
    → is_waiting q.status ≡ true
    → b q ≡ true
    → contains i (ids (expired_where b (values d))) ≡ true
unfolding contains lookup
expired_where-ids b [] i q h own w e = ground (arith, h)
expired_where-ids b ((k, p) ∷ d) i q h own w e =
    kept_id (is_waiting p.status && b p) (expire_prompt p) (expired_where b (values d)) i
      (elim (Bool-cases (k == i)) [
        | inl here ↦
            let same : q ≡ p = found (k == i) p (lookup i d) here h in
            inr (
              ap (λ x. x && b p) (sym (ap (λ x. is_waiting x.status) same) ∙ w)
                  ∙ (sym (ap b same) ∙ e),
              sym (ap (λ x. x.id) same) ∙ own,
            )
        | inr below ↦ inl (expired_where-ids b d i q (lost (k == i) p (lookup i d) below h) own w e)
      ])
  where
    found :
        (c : Bool) (p : CodePrompt) (o : Option CodePrompt)
        → c ≡ true
        → (if c then some p else o) ≡ some q
        → q ≡ p
    found c p o on h = ground (arith, on, h)

    lost :
        (c : Bool) (p : CodePrompt) (o : Option CodePrompt)
        → c ≡ false
        → (if c then some p else o) ≡ some q
        → o ≡ some q
    lost c p o off h = ground (arith, off, h)

abbrev finish_progress :
    SessionState → CodeRun → RunStatus → Option String → Fields → SessionProgress
finish_progress s r status message details = record {
  session = record (revised s.session) { error = none };
  run = some (ended r status message details);
  items = pending_items s;
  prompts = expired_where (of_turn r.native_turn_id) (values s.prompts);
}

finish_found :
    (s : SessionState) (r : CodeRun) (status : RunStatus) (message : Option String)
    (details : Fields)
    → s.run ≡ some r
    → busy s ≡ true
    → prepare_finish s status message details ≡ some (finish_progress s r status message details)
unfolding prepare_finish
finish_found s r status message details run on =
    ap (λ x. finish_of s x status message details) run
    ∙ ap (λ b. if b then some (finish_progress s r status message details) else none) on

pub apply_progress-run :
    (s : SessionState) (p : SessionProgress) (r r' : CodeRun)
    → s.run ≡ some r
    → p.run ≡ some r'
    → r'.id ≡ r.id
    → (apply_progress p s).run ≡ some r'
unfolding apply_progress
apply_progress-run s p r r' h k same =
    (with_items-keeps p.items (with_run p.run (record s { session = p.session }))).0
    ∙ ap (λ x. (with_run x (record s { session = p.session })).run) k
    ∙ ap (λ x. replaced x r') h
    ∙ ap (λ b. if b then some r' else some r) (ap (λ x. r.id == x) same ∙ beq_refl r.id)

with_run-prompts : (o : Option CodeRun) (s : SessionState) → (with_run o s).prompts ≡ s.prompts
with_run-prompts none s = refl
with_run-prompts (some r) s = refl

apply_progress-prompts :
    (s : SessionState) (p : SessionProgress)
    → (apply_progress p s).prompts ≡ put_prompts p.prompts s.prompts
unfolding apply_progress
apply_progress-prompts s p = ap (put_prompts p.prompts) (
    (with_items-keeps p.items (with_run p.run (record s { session = p.session }))).1
    ∙ with_run-prompts p.run (record s { session = p.session }))

apply_progress-IsFiled :
    (s : SessionState) (p : SessionProgress)
    → IsFiled s.prompts
    → IsFiled (apply_progress p s).prompts
apply_progress-IsFiled s p v =
    subst IsFiled (sym (apply_progress-prompts s p)) (put_prompts-IsFiled p.prompts s.prompts v)

-- A prompt that waits after those of `b` have expired waited before, and is not one of `b`.
still_waits :
    (s : SessionState) (b : CodePrompt → Bool) (i : String) (q : CodePrompt)
    → IsFiled s.prompts
    → lookup i (put_prompts (expired_where b (values s.prompts)) s.prompts) ≡ some q
    → is_waiting q.status ≡ true
    → (lookup i s.prompts ≡ some q) × (b q ≡ false)
still_waits s b i q v h w =
    let ps = expired_where b (values s.prompts) in
    let u = put_prompts-waiting ps s.prompts i q (expired_where-Settled b (values s.prompts)) h w in
    (
      u.0,
      elim (Bool-cases (b q)) [
        | inr other ↦ other
        | inl e ↦
            absurd
              (ground (arith, u.1, expired_where-ids b s.prompts i q u.0 (v.filed i q u.0) w e))
      ],
    )

-- The end of the run that keeps the session busy, with a status of an end, while every prompt is filed
-- under its own id: once the result is saved, the run stands there with that status, message and
-- details, no run is active any more, and the prompts are filed as before. A prompt that still waits
-- then waited before and is not of the run's turn, so only prompts of no turn or of another one can
-- hold up the next admission.
pub prepare_finish-settles :
    (s : SessionState) (r : CodeRun) (status : RunStatus) (message : Option String)
    (details : Fields)
    → IsFiled s.prompts
    → s.run ≡ some r
    → busy s ≡ true
    → is_active status ≡ false
    → (p : SessionProgress) × (prepare_finish s status message details ≡ some p)
      × ((apply_progress p s).run
          ≡ some (record r { status = status; error = message; error_details = details }))
      × (busy (apply_progress p s) ≡ false)
      × IsFiled (apply_progress p s).prompts
      × ((i : String) (q : CodePrompt)
          → lookup i (apply_progress p s).prompts ≡ some q
          → is_waiting q.status ≡ true
          → (lookup i s.prompts ≡ some q) × (of_turn r.native_turn_id q ≡ false))
prepare_finish-settles s r status message details v run on over =
    let p = finish_progress s r status message details in
    let saved = apply_progress-run s p r (ended r status message details) run refl refl in
    (
      p,
      finish_found s r status message details run on,
      saved,
      ap status_active saved ∙ over,
      apply_progress-IsFiled s p v,
      λ i q h w.
          still_waits s (of_turn r.native_turn_id) i q v
            (sym (ap (lookup i) (apply_progress-prompts s p)) ∙ h) w,
    )

-- Only one turn at a time: an admission goes through only while no run is active and no prompt waits,
-- its message comes right after the last one of the transcript, and once it is accepted the session
-- refuses any other one.
pub prepare_admission-exclusive :
    (title_of : String → String) (s : SessionState) (id text model : String)
    (effort : Option String) (mode : CodeMode) (a : CodeSession × CodeRun × CodeItem)
    → prepare_admission title_of s id text model effort mode ≡ ok a
    → (busy s ≡ false)
      × (has_pending s ≡ false)
      × (a.2.sequence ≡ s.sequence + 1)
      × ((id' text' model' : String) (effort' : Option String) (mode' : CodeMode)
          → prepare_admission title_of
              (accept_admission a.0 a.1 a.2 s)
              id'
              text'
              model'
              effort'
              mode'
            ≡ raised conflict)
prepare_admission-exclusive title_of s id text model effort mode a h =
    let (active, next, idle, settled_all) = admitted_run title_of s id text model effort mode a h in
    (
      idle,
      settled_all,
      next,
      λ id' text' model' effort' mode'.
          refused_while_busy title_of (accept_admission a.0 a.1 a.2 s) id' text' model' effort'
            mode' active,
    )
