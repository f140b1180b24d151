-- ===== src/Trees/Runtime/Settling.antt =====
-- The tree stays consistent when a node that is not queued changes its state, when a claim is
-- settled, and when a reply is added.
use mathlib.Core.Option
use luicode.Base.{
  string_eq, Bool, true, false, not, ◌&&◌, ◌||◌, String, Option, none, some, ◌==◌, ◌≡◌, refl, arith,
  inl, inr, Bool-cases, contains, str_eq_iff, ◌∙◌,
}
use luicode.Base.Dict.{lookup-modify}
use luicode.Base.Outcome.{ok}
use luicode.Trees.Node.{
  MessageScope, MessageNode, in_progress, completed, is_pending, is_in_progress, is_error,
  is_runnable, update_state,
}
use luicode.Trees.Graph.{MessageTreeGraph, get_node}
use luicode.Trees.Runtime.{ActiveClaim, MessageTree, change_node}
use luicode.Trees.Runtime.Invariant.{is_active, IsGood, IsConsistent}
use luicode.Trees.Graph.Nodes.{lookup-add_node}
use luicode.Trees.Graph.{add_node}
use luicode.Trees.Runtime.Settle.{live_node, record_session, record_on, complete_claim, complete_on}

-- The change keeps the ids of the node, leaves it not pending, and makes no node runnable.
abbrev pub Settles : (MessageNode → MessageNode) → Option MessageNode → Type 0
Settles f none = Unit {0}
Settles f (some n) =
    ((f n).node_id ≡ n.node_id)
    × ((f n).status_message_id ≡ n.status_message_id)
    × (is_pending (f n).state ≡ false)
    × ((is_runnable (f n).state && not (is_runnable n.state)) ≡ false)

settled-IsGood :
    (f : MessageNode → MessageNode) (o : Option MessageNode) (x : String) (active : Bool)
    → Settles f o
    → IsGood o x false active
    → IsGood (Option.map f o) x false active
settled-IsGood f none x active s g = g
settled-IsGood f (some n) x active s g =
    (s.0 ∙ g.0, refl, ground (arith, s.2), ground (arith, s.1, s.3, g.3))

pub change_node-IsConsistent :
    (t : MessageTree) (node_id : String) (f : MessageNode → MessageNode)
    → contains node_id t.queue.deque ≡ false
    → Settles f (get_node t.graph node_id)
    → IsConsistent t
    → IsConsistent (change_node node_id f t)
change_node-IsConsistent t node_id f out s v = record {
  queue = v.queue;
  at = λ x. rw (lookup-modify node_id x f t.graph.nodes) (elim (Bool-cases (node_id == x)) [
    | inl same ↦
        let e : node_id ≡ x = (str_eq_iff node_id x).0 same in
        let out' : contains x t.queue.deque ≡ false = rw e at out in
        let g : IsGood (get_node t.graph x) x false (is_active t.active x) = rw out' at (v.at x) in
        rw (same, out')
          (settled-IsGood f (get_node t.graph x) x (is_active t.active x) (rw e at s) g)
    | inr other ↦ rw other (v.at x)
  ]);
  named = v.named;
  idle = v.idle;
}

-- The node that a live claim names is in the graph, and the claim is active on it.
pub live_node_lem :
    (t : MessageTree) (a : Option ActiveClaim) (claim_id node_id : String) (node : MessageNode)
    → live_node t a claim_id ≡ some (node_id, node)
    → (is_active a node_id ≡ true) × (get_node t.graph node_id ≡ some node)
live_node_lem t none claim_id node_id node h = cc
live_node_lem t (some a) claim_id node_id node h =
    let id = a.claim.node.node_id in (ground (arith, h, str_eq_iff id node_id), ground arith)

-- A node that is not pending is not queued.
pub not_queued :
    (t : MessageTree) (node_id : String) (node : MessageNode)
    → get_node t.graph node_id ≡ some node
    → is_pending node.state ≡ false
    → IsConsistent t
    → contains node_id t.queue.deque ≡ false
not_queued t node_id node e p v = ground (arith, e, p, v.at node_id)

record_on-IsConsistent :
    (t : MessageTree) (session : String) (o : Option (String × MessageNode))
    → ((node_id : String) (node : MessageNode)
        → o ≡ some (node_id, node)
        → get_node t.graph node_id ≡ some node)
    → IsConsistent t
    → IsConsistent (record_on t session o).0
record_on-IsConsistent t session none k v = v
record_on-IsConsistent t session (some (node_id, node)) k v =
    elim (Bool-cases (is_in_progress node.state)) [
      | inl p ↦
          let e = k node_id node refl in
          rw p (
            change_node-IsConsistent t node_id (update_state in_progress (some session))
              (not_queued t node_id node e (ground (arith, p)) v)
              (rw e (unfold update_state in (refl, refl, refl, ground (arith, p)))) v)
      | inr p ↦ rw p v
    ]

complete_on-IsConsistent :
    (t : MessageTree) (session : Option String) (o : Option (String × MessageNode))
    → ((node_id : String) (node : MessageNode)
        → o ≡ some (node_id, node)
        → (is_active t.active node_id ≡ true) × (get_node t.graph node_id ≡ some node))
    → IsConsistent t
    → IsConsistent (complete_on t session o).0
complete_on-IsConsistent t session none k v = v
complete_on-IsConsistent t session (some (node_id, node)) k v =
    elim (Bool-cases (is_in_progress node.state || is_error node.state)) [
      | inl p ↦
          let e = (k node_id node refl).1 in
          rw p (
            change_node-IsConsistent t node_id (update_state completed session)
              (not_queued t node_id node e (ground (arith, p)) v)
              (rw e (unfold update_state in (refl, refl, refl, refl))) v)
      | inr p ↦ rw p v
    ]

-- Recording the session of a claim keeps the tree consistent.
pub record_session-IsConsistent :
    (t : MessageTree) (claim_id session : String)
    → IsConsistent t
    → IsConsistent (record_session t claim_id session).0
unfolding record_session
record_session-IsConsistent t claim_id session v =
    record_on-IsConsistent t session (live_node t t.active claim_id)
      (λ node_id node e. (live_node_lem t t.active claim_id node_id node e).1) v

-- Completing a claim keeps the tree consistent.
pub complete_claim-IsConsistent :
    (t : MessageTree) (claim_id : String) (session : Option String)
    → IsConsistent t
    → IsConsistent (complete_claim t claim_id session).0
unfolding complete_claim
complete_claim-IsConsistent t claim_id session v =
    complete_on-IsConsistent t session (live_node t t.active claim_id)
      (λ node_id node e. live_node_lem t t.active claim_id node_id node e) v

-- A graph that grew by one pending node.
grown_at :
    (t : MessageTree) (g : MessageTreeGraph)
    (node_id status parent_id prompt parent_reference : String) (scope : MessageScope)
    → add_node t.graph node_id scope prompt status parent_id parent_reference ≡ ok g
    → IsConsistent t
    → (x : String) → IsGood (get_node g x) x (contains x t.queue.deque) (is_active t.active x)
grown_at t g node_id status parent_id prompt parent_reference scope e v x =
    let (new, l) =
      lookup-add_node t.graph node_id scope prompt status parent_id parent_reference x g e in
    rw l (ground (arith, new.fresh, v.at x, v.at node_id, str_eq_iff node_id x))

pub add_node-IsConsistent :
    (t : MessageTree) (g : MessageTreeGraph)
    (node_id status parent_id prompt parent_reference : String) (scope : MessageScope)
    → add_node t.graph node_id scope prompt status parent_id parent_reference ≡ ok g
    → IsConsistent t
    → IsConsistent (record t { graph = g })
add_node-IsConsistent t g node_id status parent_id prompt parent_reference scope e v = record {
  queue = v.queue;
  at = grown_at t g node_id status parent_id prompt parent_reference scope e v;
  named = v.named;
  idle = v.idle;
}
