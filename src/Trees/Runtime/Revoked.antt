-- ===== src/Trees/Runtime/Revoked.antt =====
-- What a claim can still write once it is finished, cancelled or completed.
use luicode.Base.{
  string_eq, Bool, true, false, not, ◌&&◌, ◌||◌, String, Option, none, some, List, [], ◌∷◌, ◌==◌,
  if◌then◌else◌, truthy, is_some, ◌≡◌, ◌≢◌, refl, sym, ap, ◌∙◌, arith, str_eq_iff,
}
use luicode.Base.Dict.{lookup-modify}
use luicode.Base.Outcome.{Outcome, ok, raised, leaving, ◌>>=◌, Returns, Returns-mono, ok_first}
use luicode.Trees.Node.{MessageNode, completed, is_in_progress, is_error, update_state}
use luicode.Trees.Queue
use luicode.Trees.Queue.{MessageNodeQueue}
use luicode.Trees.Graph
use luicode.Trees.Graph.{TreeError, get_node}
use luicode.Trees.Transitions.{NodeClaim, TreeCancellation}
use luicode.Trees.Runtime.{ActiveClaim, MessageTree, Step, change_node, queue_entries_if}
use luicode.Trees.Runtime.Cancel.{
  request_cancellation, cancelled_targets, mark_if_runnable, cancel_found, cancel_node,
}
use luicode.Trees.Runtime.Cancelling.{is_cleared, cancel_node-Cancelled, Cancelled}
use luicode.Trees.Runtime.Finish.{finish_and_claim_next}
use luicode.Trees.Runtime.Invariant.{IsConsistent}
use luicode.Trees.Runtime.Scheduling.{Handover, Finished, finish_and_claim_next-Handover}
use luicode.Trees.Runtime.Settle.{live_node, record_session, complete_claim, fail_claim}

-- The claim is the active one, and no cancellation of it was requested.
abbrev is_live : Option ActiveClaim → String → Bool
is_live none claim_id = false
is_live (some a) claim_id = a.claim.claim_id == claim_id && not a.cancellation_requested

-- Nothing that is reported under the claim changes the tree or makes a snapshot.
abbrev pub IsSilent : MessageTree → String → Type 0
IsSilent t claim_id =
    (session : String) (final : Option String) (propagate : Bool)
    → (record_session t claim_id session ≡ (t, none))
      × (complete_claim t claim_id final ≡ (t, none))
      × (fail_claim t claim_id propagate
          ≡ ok (t, record { affected = []; queue_update = none; snapshot = none }))

dead_node :
    (t : MessageTree) (a : Option ActiveClaim) (claim_id : String)
    → is_live a claim_id ≡ false
    → live_node t a claim_id ≡ none
dead_node t none claim_id h = refl
dead_node t (some a) claim_id h = rw h

dead-IsSilent :
    (t : MessageTree) (claim_id : String) → is_live t.active claim_id ≡ false → IsSilent t claim_id
unfolding record_session complete_claim fail_claim
dead-IsSilent t claim_id h session final propagate =
    let dead = dead_node t t.active claim_id h in (rw dead, rw dead, rw dead)

Returns-equation :
    {E A : Type 0} (m : Outcome E A) (P Q : A → Type 0)
    → ((a : A) → m ≡ ok a → P a → Q a)
    → Returns m P
    → Returns m Q
Returns-equation (ok a) P Q k h = k a refl h
Returns-equation (raised e) P Q k h = h

mark_if_runnable-active :
    (node_id : String) (node : MessageNode) (t : MessageTree)
    → (mark_if_runnable node_id node t).active ≡ t.active
mark_if_runnable-active node_id node t = ground arith

abbrev active_of : Step TreeCancellation → Option ActiveClaim
active_of (ok r) = r.0.active
active_of (raised e) = none

cancel_found-active :
    (t : MessageTree) (node_id : String) (concerned : Option NodeClaim)
    (removed : MessageNodeQueue × Bool) (o : Option MessageNode)
    (r : MessageTree × TreeCancellation)
    → cancel_found t node_id concerned removed o ≡ ok r
    → r.0.active ≡ t.active
cancel_found-active t node_id concerned (q, changed) none r h = sym (ap (λ x. active_of x) h)
cancel_found-active t node_id concerned (q, changed) (some node) r h =
    let t' = mark_if_runnable node_id node (record t { queue = q }) in
    let (targets, (_, then_update)) =
      ok_first
        (λ ts.
          leaving t' (queue_entries_if changed t')
          >>= (λ u. ok (t', record { nodes = ts; active_claim = concerned; queue_update = u })))
        (leaving t' (cancelled_targets node (is_some concerned))) h in
    let (update, (_, same)) =
      ok_first
        (λ u. ok (t', record { nodes = targets; active_claim = concerned; queue_update = u }))
        (leaving t' (queue_entries_if changed t')) then_update in
    sym (ap active_of same) ∙ mark_if_runnable-active node_id node (record t { queue = q })

requested_dead :
    (t : MessageTree) (a : ActiveClaim)
    → t.active ≡ some a
    → is_live (request_cancellation t (λ id. id == a.claim.node.node_id)).0.active a.claim.claim_id
      ≡ false
requested_dead t a e = let id = a.claim.node.node_id in ground (arith, e, str_eq_iff id id)

cancelled_dead :
    (t : MessageTree) (a : ActiveClaim) (r : MessageTree × TreeCancellation)
    → t.active ≡ some a
    → cancel_node t a.claim.node.node_id ≡ ok r
    → is_live r.0.active a.claim.claim_id ≡ false
unfolding cancel_node
cancelled_dead t a r e h =
    let id = a.claim.node.node_id in
    let (t', concerned) = request_cancellation t (λ x. x == id) in
    ap (λ x. is_live x a.claim.claim_id)
      (cancel_found-active t' id concerned (Queue.remove t.queue id) (get_node t.graph id) r h)
    ∙ requested_dead t a e

handed_over_dead :
    (queue : List String) (claim_id next_id : String) (r : MessageTree × Option NodeClaim)
    → claim_id ≢ next_id
    → Handover queue next_id r
    → is_live r.0.active claim_id ≡ false
handed_over_dead [] claim_id next_id r new h = ap (λ x. is_live x claim_id) h.1
handed_over_dead (x ∷ rest) claim_id next_id r new (c, _, _, id, active, _) =
    ap (λ x. is_live x claim_id) active ∙ ground (arith, new, id, str_eq_iff c.claim_id claim_id)

-- The active claim of a consistent tree ends, by a finish whose successor would get another id, or by a
-- cancellation of its node, which has not failed without a status message. Both calls return, and in
-- the tree that either of them leaves the old claim writes nothing any more: under its id, recording a
-- session, completing and failing leave that tree as it is and make no snapshot.
pub ended_claim_writes_nothing :
    (t : MessageTree) (a : ActiveClaim) (next_id : String)
    → IsConsistent t
    → t.active ≡ some a
    → a.claim.claim_id ≢ next_id
    → is_cleared (get_node t.graph a.claim.node.node_id) ≡ false
    → Returns
        (finish_and_claim_next t a.claim.claim_id next_id)
        (λ r. IsSilent r.0 a.claim.claim_id)
      × Returns (cancel_node t a.claim.node.node_id) (λ r. IsSilent r.0 a.claim.claim_id)
ended_claim_writes_nothing t a next_id v e new shown =
    let claim_id = a.claim.claim_id in
    let node_id = a.claim.node.node_id in
    (
      Returns-mono (finish_and_claim_next t claim_id next_id) (Finished t.queue.deque next_id) _
          (λ r h.
            dead-IsSilent r.0 claim_id
              (handed_over_dead t.queue.deque claim_id next_id (r.0, r.1.next_claim) new h.1))
          (finish_and_claim_next-Handover t claim_id next_id v
            (ground (arith, e, str_eq_iff claim_id claim_id))),
      Returns-equation (cancel_node t node_id) (Cancelled node_id) _
          (λ r same h. dead-IsSilent r.0 claim_id (cancelled_dead t a r e same))
          (cancel_node-Cancelled t node_id v (ground (arith, shown))),
    )

found_live :
    (t : MessageTree) (a : ActiveClaim) (node : MessageNode)
    → t.active ≡ some a
    → a.cancellation_requested ≡ false
    → get_node t.graph a.claim.node.node_id ≡ some node
    → live_node t t.active a.claim.claim_id ≡ some (a.claim.node.node_id, node)
found_live t a node ea live en =
    ground (arith, ea, live, en, str_eq_iff a.claim.claim_id a.claim.claim_id)

-- A completed node is not touched again.
settled_stays :
    (t : MessageTree) (claim_id node_id session : String) (final : Option String) (propagate : Bool)
    (node : MessageNode)
    → live_node t t.active claim_id ≡ some (node_id, node)
    → node.state ≡ completed
    → (record_session t claim_id session ≡ (t, none))
      × (complete_claim t claim_id final ≡ (t, none))
      × (fail_claim t claim_id propagate
          ≡ ok (
            t,
            record { affected = []; queue_update = none; snapshot = some (Graph.snapshot t.graph) },
          ))
unfolding record_session complete_claim fail_claim
settled_stays t claim_id node_id session final propagate node found done =
    (rw (found, done), rw (found, done), rw (found, done))

completes :
    (t : MessageTree) (claim_id node_id session : String) (node : MessageNode)
    → live_node t t.active claim_id ≡ some (node_id, node)
    → (is_in_progress node.state || is_error node.state) ≡ true
    → let t' = change_node node_id (update_state completed (some session)) t in
      complete_claim t claim_id (some session) ≡ (t', some (Graph.snapshot t'.graph))
unfolding complete_claim
completes t claim_id node_id session node found on = rw (found, on)

-- A live claim completes a node in progress or one that has failed: the node becomes completed and
-- keeps the given session, if that is not empty; the other nodes, the queue and the active claim stay
-- as they were, and the snapshot is that of the new graph. This is final: recording a session or
-- completing again under the claim changes nothing and makes no snapshot, and failing leaves the tree
-- as it is, with nothing affected, and makes a snapshot of the same graph.
pub complete_claim_final :
    (t : MessageTree) (a : ActiveClaim) (node : MessageNode) (session later x : String)
    (final : Option String) (propagate : Bool)
    → t.active ≡ some a
    → a.cancellation_requested ≡ false
    → get_node t.graph a.claim.node.node_id ≡ some node
    → (is_in_progress node.state || is_error node.state) ≡ true
    → let (t', snapshot) = complete_claim t a.claim.claim_id (some session) in
      (get_node t'.graph x ≡ (
        if a.claim.node.node_id == x
        then some (record node {
          state = completed;
          session_id = if truthy session then some session else node.session_id;
        })
        else get_node t.graph x))
      × (t'.queue ≡ t.queue)
      × (t'.active ≡ t.active)
      × (snapshot ≡ some (Graph.snapshot t'.graph))
      × (record_session t' a.claim.claim_id later ≡ (t', none))
      × (complete_claim t' a.claim.claim_id final ≡ (t', none))
      × (fail_claim t' a.claim.claim_id propagate
          ≡ ok (
            t',
            record {
              affected = [];
              queue_update = none;
              snapshot = some (Graph.snapshot t'.graph);
            },
          ))
unfolding update_state
complete_claim_final t a node session later x final propagate ea live en es =
    let id = a.claim.node.node_id in
    let f = update_state completed (some session) in
    let t' = change_node id f t in
    let at = λ (y : String). lookup-modify id y f t.graph.nodes in
    let changed : get_node t'.graph id ≡ some (f node) =
      ground (arith, en, at id, str_eq_iff id id) in
    let stays =
      settled_stays t' a.claim.claim_id id later final propagate (f node)
        (found_live t' a (f node) ea live changed) refl in
    rw (completes t a.claim.claim_id id session node (found_live t a node ea live en) es)
      (ground (arith, en, at x, str_eq_iff id x), refl, refl, refl, stays.0, stays.1, stays.2)
