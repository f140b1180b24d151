-- ===== src/Trees/Runtime/Invariant.antt =====
-- The well-formed trees of runtime.py, and the operations that keep them so.
use luicode.Base.{
  string_eq, Bool, true, false, not, ◌&&◌, String, Option, none, some, [], ◌∷◌, ◌==◌, is_some, ◌≡◌,
  ◌≢◌, refl, arith, inl, inr, Option-cases, contains, str_eq_iff, ◌∙◌,
}
use luicode.Base.Dict.{lookup-modify}
use luicode.Base.Outcome.{ok, raised, leaving, Returns, Returns-bind, Returns-leaving}
use luicode.Trees.Node.{MessageNode, in_progress, is_pending, is_runnable, update_state}
use luicode.Trees.Queue
use luicode.Trees.Queue.{MessageNodeQueue}
use luicode.Trees.Graph
use luicode.Trees.Graph.{
  MessageTreeGraph, TreeError, no_status_message, out_of_fuel, get_node, get_parent_session_id,
  all_nodes, resolve_reference, get_descendants, get_reference_descendants, remove_nodes,
  all_reference_ids,
}
use luicode.Trees.Transitions.{NodeUiTarget, NodeClaim}
use luicode.Trees.Runtime
use luicode.Base.Dict.{lookup}
use luicode.Trees.Runtime.{Step}
use luicode.Trees.Runtime.{
  ActiveClaim, MessageTree, Run, change_node, ui_target, pending_node, runnable_node, queue_entries,
  queue_entries_if, claim, holds, enqueue, admit, admit_node, enqueue_or_claim, add_and_enqueue,
  reject,
}
use luicode.Trees.Queue.Fifo.{contains-put, IsIndexed, put-IsIndexed, empty-IsIndexed}

-- `x` is the node of the active claim, and no cancellation of the claim has been requested.
abbrev pub is_active : Option ActiveClaim → String → Bool
is_active none x = false
is_active (some a) x = a.claim.node.node_id == x && not a.cancellation_requested

-- What holds of a node, the queue and the active claim at one id.
abbrev pub IsGood : Option MessageNode → String → Bool → Bool → Type 0
IsGood none x queued active = (queued ≡ false) × (active ≡ false)
IsGood (some node) x queued active =
    (node.node_id ≡ x)
    × ((queued && not (is_pending node.state)) ≡ false)
    × ((active && is_pending node.state) ≡ false)
    × ((is_runnable node.state && not (is_some node.status_message_id)) ≡ false)

-- The queue's index is right. Each queued id is a pending node of the graph, and is not empty. The
-- node of an active claim that is not
-- cancelled is in the graph, and not pending; each runnable node has a status message; and each node
-- stands under its own id. While no claim is active nothing is queued.
pub record IsConsistent (t : MessageTree) : Type 0 where
  pub queue : IsIndexed t.queue
  pub at :
      (x : String) → IsGood (get_node t.graph x) x (contains x t.queue.deque) (is_active t.active x)
  pub named : contains "" t.queue.deque ≡ false
  pub idle : (x : String) → (contains x t.queue.deque && not (is_some t.active)) ≡ false

-- The UI target of a node that has a status message.
abbrev pub IsTargetOf : MessageNode → NodeUiTarget → Type 0
IsTargetOf node target =
    (target.node_id ≡ node.node_id)
    × (target.scope ≡ node.scope)
    × (some target.status_message_id ≡ node.status_message_id)

pub ui_target-Returns :
    (node : MessageNode)
    → is_some node.status_message_id ≡ true
    → Returns (ui_target node) (IsTargetOf node)
unfolding ui_target
ui_target-Returns node h = elim (Option-cases node.status_message_id) [
  | inl e ↦ cc (e, h)
  | inr (status, e) ↦ rw (e, ui_target) (refl, refl, refl)
]

pub good_status :
    (node : MessageNode) (x : String) (queued active : Bool)
    → IsGood (some node) x queued active
    → is_runnable node.state ≡ true
    → is_some node.status_message_id ≡ true
good_status node x queued active g r = ground (arith, g.3)

-- A claim of a pending node that is not queued.
abbrev pub IsClaimOf : MessageTree → String → String → MessageTree × NodeClaim → Type 0
IsClaimOf t claim_id node_id r =
    IsConsistent r.0
    × (r.0.queue ≡ t.queue)
    × (r.0.active ≡ some (record { claim = r.1; cancellation_requested = false }))
    × (r.1.claim_id ≡ claim_id)
    × (r.1.node.node_id ≡ node_id)

claimed_at :
    (t : MessageTree) (node_id x : String) (node : MessageNode) (target : NodeUiTarget)
    → get_node t.graph node_id ≡ some node
    → contains node_id t.queue.deque ≡ false
    → target.node_id ≡ node_id
    → IsGood (some node) node_id (contains node_id t.queue.deque) (is_active t.active node_id)
    → IsGood (get_node t.graph x) x (contains x t.queue.deque) (is_active t.active x)
    → is_pending node.state ≡ true
    → IsGood
        (get_node (change_node node_id (update_state in_progress none) t).graph x)
        x
        (contains x t.queue.deque)
        (target.node_id == x && true)
unfolding update_state
claimed_at t node_id x node target e out te g gx p =
    rw (lookup-modify node_id x (update_state in_progress none) t.graph.nodes)
      (ground (arith, str_eq_iff node_id x, str_eq_iff target.node_id x))

-- A claim returns as soon as the tree is right about nodes and queue, also before `idle` holds.
pub claim-Returns :
    (t : MessageTree) (claim_id node_id : String) (node : MessageNode)
    → get_node t.graph node_id ≡ some node
    → contains node_id t.queue.deque ≡ false
    → is_pending node.state ≡ true
    → IsIndexed t.queue
    → ((x : String)
        → IsGood (get_node t.graph x) x (contains x t.queue.deque) (is_active t.active x))
    → contains "" t.queue.deque ≡ false
    → Returns (claim t claim_id node_id node) (IsClaimOf t claim_id node_id)
unfolding claim
claim-Returns t claim_id node_id node e out p indexed at named =
    let g : IsGood (some node) node_id (contains node_id t.queue.deque)
        (is_active t.active node_id) =
      rw e at (at node_id) in
    let t' = change_node node_id (update_state in_progress none) t in
    Returns-bind (leaving t' (ui_target node)) _ (IsTargetOf node) _
      (Returns-leaving t' (ui_target node) (IsTargetOf node)
        (ui_target-Returns node (ground (arith, g.3))))
      λ target is.
        let te : target.node_id ≡ node_id = is.0 ∙ g.0 in
        (
          record {
            queue = indexed;
            at = λ x. claimed_at t node_id x node target e out te g (at x) p;
            named = named;
            idle = λ x. ground arith;
          },
          refl,
          refl,
          refl,
          te,
        )

pub enqueue-IsConsistent :
    (t : MessageTree) (node_id : String) (node : MessageNode)
    → get_node t.graph node_id ≡ some node
    → is_pending node.state ≡ true
    → node_id ≢ ""
    → is_some t.active ≡ true
    → IsConsistent t
    → IsConsistent (record t { queue = (Queue.put t.queue node_id).0 })
enqueue-IsConsistent t node_id node f p n a v = record {
  queue = put-IsIndexed t.queue node_id v.queue;
  at = λ x. ground (arith, f, v.at x, contains-put t.queue v.queue node_id x, str_eq_iff x node_id);
  named =
      ground (arith, v.named, contains-put t.queue v.queue node_id "", str_eq_iff "" node_id, n);
  idle = λ x. ground (arith, a);
}

init_nodes :
    (root : MessageNode) (g : MessageTreeGraph)
    → Graph.init root ≡ ok g
    → g.nodes ≡ (root.node_id, root) ∷ []
unfolding Graph.init
init_nodes root g e = ground arith

-- A tree of one node is consistent, if the node has a status message.
pub init-IsConsistent :
    (root : MessageNode) (g : MessageTreeGraph)
    → Graph.init root ≡ ok g
    → is_some root.status_message_id ≡ true
    → IsConsistent (Runtime.init g)
unfolding Graph.init lookup contains
init-IsConsistent root g e s = record {
  queue = empty-IsIndexed;
  at = λ x. rw (init_nodes root g e) (ground (arith, s, str_eq_iff root.node_id x));
  named = refl;
  idle = λ x. refl;
}

-- The tree after a call that returns.
abbrev pub after : {A : Type 0} → Step A → MessageTree → MessageTree
after (ok (t, a)) d = t
after (raised e) d = d

pub after-IsConsistent :
    {A : Type 0} (m : Step A) (d : MessageTree)
    → Returns m (λ r. IsConsistent r.0)
    → IsConsistent (after m d)
after-IsConsistent (ok r) d h = h
after-IsConsistent (raised e) d h = absurd h
