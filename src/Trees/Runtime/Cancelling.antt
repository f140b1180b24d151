-- ===== src/Trees/Runtime/Cancelling.antt =====
-- After a cancellation the node is neither queued nor runnable, and its claim is dead.
use luicode.Base.{
  string_eq, Bool, true, false, not, ◌&&◌, String, Option, none, some, List, ◌==◌, if◌then◌else◌,
  is_some, ◌≡◌, refl, arith, inl, inr, Bool-cases, contains, str_eq_iff,
}
use luicode.Base.Dict.{lookup-modify}
use luicode.Base.Outcome.{raised, leaving, Returns, Returns-bind, Returns-leaving}
use luicode.Trees.Node.{MessageNode, error, is_error, is_runnable, mark_error}
use luicode.Trees.Queue
use luicode.Trees.Queue.{MessageNodeQueue}
use luicode.Trees.Graph.{no_status_message, get_node}
use luicode.Trees.Transitions.{NodeClaim, QueueEntry, TreeCancellation}
use luicode.Trees.Runtime.{
  ActiveClaim, MessageTree, ui_target, runnable_node, queue_entries, queue_entries_if,
}
use luicode.Trees.Queue.Fifo.{remove-IsIndexed, contains-remove}
use luicode.Trees.Runtime.Invariant.{
  is_active, IsGood, IsConsistent, IsTargetOf, ui_target-Returns, good_status,
}
use mathlib.Core.Option
use luicode.Trees.Runtime.Settling.{change_node-IsConsistent, Settles}
use luicode.Trees.Runtime.Scheduling.{queue_entries-Returns, entry_ids, IsNumbered}
use luicode.Trees.Runtime.Cancel.{
  claim_if, flag, request_cancellation, cancelled_targets, mark_if_runnable, cancel_found,
  cancel_node,
}

flag-IsGood :
    (o : Option MessageNode) (x : String) (queued active active' : Bool)
    → (active' && not active) ≡ false
    → IsGood o x queued active
    → IsGood o x queued active'
flag-IsGood none x queued active active' h g = (g.0, ground (arith, g.1, h))
flag-IsGood (some node) x queued active active' h g = (g.0, g.1, ground (arith, g.2, h), g.3)

-- A request flags the claim that it concerns, and leaves any other as it is.
requested_lem :
    (a : Option ActiveClaim) (p : String → Bool) (x : String)
    → (is_active (if is_some (claim_if a p) then flag a else a) x && not (is_active a x) ≡ false)
      × (is_some (if is_some (claim_if a p) then flag a else a) ≡ is_some a)
      × ((is_active (if is_some (claim_if a p) then flag a else a) x && p x) ≡ false)
requested_lem none p x = (refl, refl, refl)
requested_lem (some a) p x =
    let id = a.claim.node.node_id in (ground arith, ground arith, ground (arith, str_eq_iff id x))

pub request_cancellation-IsConsistent :
    (t : MessageTree) (p : String → Bool)
    → IsConsistent t
    → IsConsistent (request_cancellation t p).0
request_cancellation-IsConsistent t p v = record {
  queue = v.queue;
  at = λ x.
      flag-IsGood (get_node t.graph x) x (contains x t.queue.deque) (is_active t.active x) _
        (requested_lem t.active p x).0 (v.at x);
  named = v.named;
  idle = λ x. ground (arith, v.idle x, (requested_lem t.active p x).1);
}

unqueued-IsGood :
    (o : Option MessageNode) (x : String) (queued queued' active : Bool)
    → (queued' && not queued) ≡ false
    → IsGood o x queued active
    → IsGood o x queued' active
unqueued-IsGood none x queued queued' active h g = (ground (arith, g.0, h), g.1)
unqueued-IsGood (some node) x queued queued' active h g = (g.0, ground (arith, g.1, h), g.2, g.3)

pub remove-IsConsistent :
    (t : MessageTree) (node_id : String)
    → IsConsistent t
    → IsConsistent (record t { queue = (Queue.remove t.queue node_id).0 })
remove-IsConsistent t node_id v =
    let left = contains-remove t.queue v.queue node_id in
    record {
      queue = remove-IsIndexed t.queue node_id v.queue;
      at = λ x.
          unqueued-IsGood (get_node t.graph x) x (contains x t.queue.deque) _ (is_active t.active x)
            (ground (arith, left x)) (v.at x);
      named = ground (arith, left "", v.named);
      idle = λ x. ground (arith, left x, v.idle x);
    }

pub mark_error-Settles : (o : Option MessageNode) → Settles mark_error o
unfolding mark_error
mark_error-Settles none = tt
mark_error-Settles (some node) = (refl, refl, refl, refl)

runnable_marked : (o : Option MessageNode) → runnable_node (Option.map mark_error o) ≡ false
unfolding mark_error
runnable_marked none = refl
runnable_marked (some node) = refl

-- Marking a node as failed where it is runnable, once it is out of the queue.
mark_if_runnable-IsConsistent :
    (t : MessageTree) (node_id : String) (node : MessageNode)
    → contains node_id t.queue.deque ≡ false
    → IsConsistent t
    → IsConsistent (mark_if_runnable node_id node t)
mark_if_runnable-IsConsistent t node_id node out v = elim (Bool-cases (is_runnable node.state)) [
  | inl r ↦ rw r (
      change_node-IsConsistent t node_id mark_error out
        (mark_error-Settles (get_node t.graph node_id)) v)
  | inr r ↦ rw r v
]

mark_if_runnable-runnable :
    (t : MessageTree) (node_id : String) (node : MessageNode)
    → get_node t.graph node_id ≡ some node
    → runnable_node (get_node (mark_if_runnable node_id node t).graph node_id) ≡ false
mark_if_runnable-runnable t node_id node e = elim (Bool-cases (is_runnable node.state)) [
  | inl r ↦
      rw
        (
          r,
          lookup-modify node_id node_id mark_error t.graph.nodes,
          (str_eq_iff node_id node_id).1 refl,
        )
        (runnable_marked (get_node t.graph node_id))
  | inr r ↦ rw (r, e) r
]

-- The node is out of the queue, not runnable, and no live claim is on it; a reported queue is the
-- queue after the call, numbered from 1.
abbrev pub ReportsUpdate : MessageTree → Option (List QueueEntry) → Type 0
ReportsUpdate t none = Unit {0}
ReportsUpdate t (some es) = (entry_ids es ≡ t.queue.deque) × IsNumbered 1 es

abbrev pub Cancelled : String → MessageTree × TreeCancellation → Type 0
Cancelled node_id r =
    IsConsistent r.0
    × (contains node_id r.0.queue.deque ≡ false)
    × (runnable_node (get_node r.0.graph node_id) ≡ false)
    × (is_active r.0.active node_id ≡ false)
    × ReportsUpdate r.0 r.1.queue_update

pub queue_entries_if-Returns :
    (changed : Bool) (t : MessageTree)
    → IsConsistent t
    → Returns (queue_entries_if changed t) (ReportsUpdate t)
queue_entries_if-Returns false t v = tt
queue_entries_if-Returns true t v =
    Returns-bind (queue_entries t) _ (λ es. (entry_ids es ≡ t.queue.deque) × IsNumbered 1 es) _
      (queue_entries-Returns t v) λ es h. h

-- The claim of the node is active, cancelled or not.
abbrev pub claims : Option ActiveClaim → String → Bool
claims none x = false
claims (some a) x = a.claim.node.node_id == x

-- The node has failed and its status message was cleared.
abbrev pub is_cleared : Option MessageNode → Bool
is_cleared none = false
is_cleared (some node) = is_error node.state && not (is_some node.status_message_id)

cancelled_targets-Returns :
    (node : MessageNode) (x : String) (queued active concerned : Bool)
    → IsGood (some node) x queued active
    → (concerned && is_cleared (some node)) ≡ false
    → Returns (cancelled_targets node concerned) (λ targets. Unit {0})
cancelled_targets-Returns node x queued active concerned g h =
    elim (Bool-cases (is_runnable node.state)) [
      | inl r ↦ rw r (
          Returns-bind (ui_target node) _ (IsTargetOf node) _
            (ui_target-Returns node (good_status node x queued active g r)) λ target is. tt)
      | inr r ↦ rw r (elim (Bool-cases (is_error node.state && concerned)) [
        | inl e ↦ rw e (
            Returns-bind (ui_target node) _ (IsTargetOf node) _
              (ui_target-Returns node (ground (arith, h, e))) λ target is. tt)
        | inr e ↦ rw e tt
      ])
    ]

concerned_lem :
    (a : Option ActiveClaim) (node_id : String)
    → is_some (claim_if a (λ id. id == node_id)) ≡ claims a node_id
concerned_lem none node_id = refl
concerned_lem (some a) node_id = ground arith

-- The tree is cancelled at a node, after the request and the removal from the queue.
cancel_found-Returns :
    (t : MessageTree) (node_id : String) (concerned : Option NodeClaim) (changed : Bool)
    (o : Option MessageNode)
    → get_node t.graph node_id ≡ o
    → (is_some concerned && is_cleared o) ≡ false
    → is_active t.active node_id ≡ false
    → IsConsistent t
    → Returns
        (cancel_found t node_id concerned ((Queue.remove t.queue node_id).0, changed) o)
        (Cancelled node_id)
cancel_found-Returns t node_id concerned changed none e h a v =
    (v, ground (arith, e, v.at node_id), rw e refl, a, tt)
cancel_found-Returns t node_id concerned changed (some node) e h a v =
    let q = (Queue.remove t.queue node_id).0 in
    let t' = record t { queue = q } in
    let v' = remove-IsConsistent t node_id v in
    let out : contains node_id q.deque ≡ false =
      ground (arith, contains-remove t.queue v.queue node_id node_id, str_eq_iff node_id node_id) in
    let t'' = mark_if_runnable node_id node t' in
    let v'' = mark_if_runnable-IsConsistent t' node_id node out v' in
    let g : IsGood (some node) node_id (contains node_id t.queue.deque)
        (is_active t.active node_id) =
      rw e at (v.at node_id) in
    let targets_of = cancelled_targets node (is_some concerned) in
    Returns-bind (leaving t'' targets_of) _ (λ targets. Unit {0}) (Cancelled node_id)
      (Returns-leaving t'' targets_of (λ targets. Unit {0})
        (cancelled_targets-Returns node node_id _ _ (is_some concerned) g h))
      λ targets _.
        Returns-bind (leaving t'' (queue_entries_if changed t'')) _ (ReportsUpdate t'')
          (Cancelled node_id)
          (Returns-leaving t'' (queue_entries_if changed t'') (ReportsUpdate t'')
            (queue_entries_if-Returns changed t'' v''))
          λ update reports. (
            v'',
            ground (arith, out),
            mark_if_runnable-runnable t' node_id node e,
            ground (arith, a),
            reports,
          )

-- On a consistent tree, unless the node holds the active claim and its status message was cleared,
-- `cancel_node` returns. After it the tree is consistent, and the node is neither queued nor
-- runnable, no live claim is on it, and a reported queue is the queue after the call, numbered
-- from 1.
pub cancel_node-Cancelled :
    (t : MessageTree) (node_id : String)
    → IsConsistent t
    → (claims t.active node_id && is_cleared (get_node t.graph node_id)) ≡ false
    → Returns (cancel_node t node_id) (Cancelled node_id)
unfolding cancel_node
cancel_node-Cancelled t node_id v h =
    let here = λ (id : String). id == node_id in
    let (t', active) = request_cancellation t here in
    cancel_found-Returns t' node_id active (Queue.remove t.queue node_id).1
      (get_node t.graph node_id) refl (ground (arith, h, concerned_lem t.active node_id))
      (ground (arith, (requested_lem t.active here node_id).2, str_eq_iff node_id node_id))
      (request_cancellation-IsConsistent t here v)

-- `cancel_node` raises after its first writes where the node holds the active claim, has failed and
-- lost its status message, as a clear of that message leaves it until the claim is finished. The claim
-- is marked as cancelled by then, the node is out of the queue, and nothing else has changed.
pub cancel_node-cleared :
    (t : MessageTree) (node_id : String) (a : ActiveClaim) (node : MessageNode)
    → t.active ≡ some a
    → a.claim.node.node_id ≡ node_id
    → get_node t.graph node_id ≡ some node
    → node.state ≡ error
    → node.status_message_id ≡ none
    → cancel_node t node_id
      ≡ raised (
        no_status_message,
        record t {
          active = some (record a { cancellation_requested = true });
          queue = (Queue.remove t.queue node_id).0;
        },
      )
unfolding cancel_node
cancel_node-cleared t node_id a node ea ei en es em =
    ground (arith, ea, ei, en, es, em, str_eq_iff a.claim.node.node_id node_id)
