-- ===== src/Trees/Runtime/Admitting.antt =====
-- What the admission of a node decides, on every branch.
use luicode.Base.{
  string_eq, length-append, ◌+◌, Bool, true, false, not, ◌&&◌, String, Option, none, some, [], ◌∷◌,
  ◌++◌, length, is_some, ◌≡◌, ◌≢◌, refl, arith, contains, str_eq_iff, ap, ◌∙◌,
}
use luicode.Base.Outcome.{ok, Returns, Returns-bind}
use luicode.Trees.Node.{MessageScope, MessageNode, is_pending}
use luicode.Trees.Queue
use luicode.Trees.Queue.{MessageNodeQueue}
use luicode.Trees.Graph.{MessageTreeGraph, get_node}
use luicode.Trees.Transitions.{NodeClaim, QueueDecision}
use luicode.Trees.Runtime.{ActiveClaim, MessageTree, pending_node, claim}
use luicode.Trees.Queue.Fifo.{deque-put, put_reports}
use luicode.Trees.Runtime.Invariant.{IsConsistent, IsClaimOf, claim-Returns, enqueue-IsConsistent}
use luicode.Trees.Node.{MessageScope}
use luicode.Trees.Transitions.{accepted}
use luicode.Trees.Graph.{add_node, new_node}
use luicode.Trees.Graph.Nodes.{lookup-add_node}
use luicode.Trees.Runtime.{reject, enqueue, admit, admit_node, enqueue_or_claim, add_and_enqueue}
use luicode.Trees.Runtime.Settling.{add_node-IsConsistent}

-- With nobody active the node is claimed at once; otherwise it goes to the end of the queue, and its
-- position is the length of the queue.
abbrev pub Admitted :
    Option ActiveClaim → MessageTree → String → String → MessageTree × QueueDecision → Type 0
Admitted none t claim_id node_id r =
    (c : NodeClaim) × (r.1.claim ≡ some c)
    × (c.node.node_id ≡ node_id)
    × (c.claim_id ≡ claim_id)
    × (r.0.active ≡ some (record { claim = c; cancellation_requested = false }))
    × (r.0.queue ≡ t.queue)
Admitted (some a) t claim_id node_id r =
    (r.1.claim ≡ none)
    × (r.1.position ≡ some (length t.queue.deque + 1))
    × (r.0.queue.deque ≡ t.queue.deque ++ node_id ∷ [])
    × (r.0.active ≡ t.active)

enqueue-Admitted :
    (t : MessageTree) (a : ActiveClaim) (claim_id node_id : String) (r : MessageNodeQueue × Bool)
    → r.1 ≡ true
    → r.0.deque ≡ t.queue.deque ++ node_id ∷ []
    → IsConsistent (record t { queue = r.0 })
    → Returns
        (enqueue t r)
        (λ s. IsConsistent s.0 × (accepted s.1 ≡ true) × Admitted (some a) t claim_id node_id s)
enqueue-Admitted t a claim_id node_id (q, false) e d v = cc
enqueue-Admitted t a claim_id node_id (q, true) e d v = (
  v,
  refl,
  (
    refl,
    ap some (ap length d ∙ omega (arith, length-append t.queue.deque (node_id ∷ []))),
    d,
    refl,
  ),
)

admit-Admitted :
    (t : MessageTree) (claim_id node_id : String) (node : MessageNode) (a : Option ActiveClaim)
    → t.active ≡ a
    → get_node t.graph node_id ≡ some node
    → is_pending node.state ≡ true
    → contains node_id t.queue.deque ≡ false
    → node_id ≢ ""
    → IsConsistent t
    → Returns
        (admit t claim_id node_id node a)
        (λ s. IsConsistent s.0 × (accepted s.1 ≡ true) × Admitted a t claim_id node_id s)
admit-Admitted t claim_id node_id node none e f p out n v =
    Returns-bind (claim t claim_id node_id node) _ (IsClaimOf t claim_id node_id) _
      (claim-Returns t claim_id node_id node f out p v.queue v.at v.named)
      λ (t', c) (consistent, same, active, id, of_node).
        (consistent, refl, (c, refl, of_node, id, active, same))
admit-Admitted t claim_id node_id node (some a) e f p out n v =
    enqueue-Admitted t a claim_id node_id (Queue.put t.queue node_id)
      (ground (arith, put_reports t.queue v.queue node_id, out))
      (ground (arith, deque-put t.queue v.queue node_id, out))
      (enqueue-IsConsistent t node_id node f p n (ap is_some e) v)

-- A pending node of a consistent tree that is not queued yet and whose id is not empty is admitted:
-- the call returns a consistent tree and an accepted decision. With nobody active the node is claimed under the given
-- id; otherwise it goes to the end of the queue, at the position that the decision reports.
pub enqueue_or_claim-Admitted :
    (t : MessageTree) (claim_id node_id : String) (node : MessageNode)
    → get_node t.graph node_id ≡ some node
    → is_pending node.state ≡ true
    → contains node_id t.queue.deque ≡ false
    → node_id ≢ ""
    → IsConsistent t
    → Returns
        (enqueue_or_claim t claim_id node_id)
        (λ s. IsConsistent s.0 × (accepted s.1 ≡ true) × Admitted t.active t claim_id node_id s)
unfolding enqueue_or_claim
enqueue_or_claim-Admitted t claim_id node_id node f p out n v =
    rw (f, p) (admit-Admitted t claim_id node_id node t.active refl f p out n v)

refuse_queued :
    (t : MessageTree) (claim_id node_id : String) (o : Option MessageNode)
    → (pending_node o && not (contains node_id t.queue.deque)) ≡ false
    → IsConsistent t
    → admit_node t claim_id node_id o ≡ reject t
unfolding Queue.put
refuse_queued t claim_id node_id none h v = refl
refuse_queued t claim_id node_id (some node) h v =
    ground (arith, h, v.idle node_id, v.queue.indexed node_id)

-- Any other node is refused as a duplicate, and the tree stays as it was: one that is not in the
-- graph, is not pending, or is queued already.
pub enqueue_or_claim-duplicate :
    (t : MessageTree) (claim_id node_id : String)
    → (pending_node (get_node t.graph node_id) && not (contains node_id t.queue.deque)) ≡ false
    → IsConsistent t
    → enqueue_or_claim t claim_id node_id ≡ reject t
unfolding enqueue_or_claim
enqueue_or_claim-duplicate t claim_id node_id h v =
    refuse_queued t claim_id node_id (get_node t.graph node_id) h v

-- A reply that the graph accepts is always admitted: on a consistent tree, with an id that is not
-- empty, `add_and_enqueue` then returns a consistent tree and an accepted decision, and claims or
-- queues the new node as `enqueue_or_claim` does.
pub add_and_enqueue-Admitted :
    (t : MessageTree) (g : MessageTreeGraph)
    (claim_id node_id prompt status parent_id parent_reference : String) (scope : MessageScope)
    → add_node t.graph node_id scope prompt status parent_id parent_reference ≡ ok g
    → node_id ≢ ""
    → IsConsistent t
    → Returns
        (add_and_enqueue t claim_id node_id scope prompt status parent_id parent_reference)
        (λ s.
          IsConsistent s.0
          × (accepted s.1 ≡ true)
          × Admitted t.active (record t { graph = g }) claim_id node_id s)
unfolding add_and_enqueue
add_and_enqueue-Admitted t g claim_id node_id prompt status parent_id parent_reference scope e n v =
    let (new, found) =
      lookup-add_node t.graph node_id scope prompt status parent_id parent_reference node_id g e in
    let node = new_node node_id scope prompt status parent_id parent_reference in
    rw e (
      enqueue_or_claim-Admitted (record t { graph = g }) claim_id node_id node
        (ground (arith, found, str_eq_iff node_id node_id)) refl
        (ground (arith, new.fresh, v.at node_id)) n
        (add_node-IsConsistent t g node_id status parent_id prompt parent_reference scope e v))
