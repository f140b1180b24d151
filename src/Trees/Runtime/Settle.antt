-- ===== src/Trees/Runtime/Settle.antt =====
-- How a claim is settled (`record_session`, `complete_claim`, `fail_claim`), and the read-only
-- methods of runtime.py.
use luicode.Base.{
  string_eq, ◌+◌, Bool, true, false, not, ◌&&◌, ◌||◌, String, Option, none, some, List, [], ◌∷◌,
  ◌++◌, ◌==◌, if◌then◌else◌, is_some,
}
use luicode.Base.Outcome.{Outcome, ok, raised, leaving, ◌>>=◌}
use luicode.Trees.Node.{
  MessageScope, MessageNode, MessageReferenceKind, TreeSnapshot, in_progress, completed, is_pending,
  is_in_progress, is_error, is_completed, update_state, mark_error, same_scope,
}
use luicode.Trees.Queue
use luicode.Trees.Queue.{MessageNodeQueue}
use luicode.Trees.Graph
use luicode.Trees.Graph.{
  MessageTreeGraph, TreeError, no_status_message, out_of_fuel, get_node, get_parent_session_id,
  all_nodes, resolve_reference, get_descendants, get_reference_descendants, remove_nodes,
  all_reference_ids,
}
use luicode.Trees.Transitions.{NodeUiTarget, ReplyTarget, NodeView, FailureResult}
use luicode.Trees.Runtime.{
  ActiveClaim, MessageTree, Run, Step, change_node, ui_target, queue_entries, queue_entries_if,
}

abbrev pub with_id : String → Option MessageNode → Option (String × MessageNode)
with_id node_id none = none
with_id node_id (some node) = some (node_id, node)

-- The node of the active claim, for the caller that holds it uncancelled.
abbrev pub live_node : MessageTree → Option ActiveClaim → String → Option (String × MessageNode)
live_node t none claim_id = none
live_node t (some a) claim_id =
    if a.claim.claim_id == claim_id && not a.cancellation_requested
    then with_id a.claim.node.node_id (get_node t.graph a.claim.node.node_id)
    else none

abbrev recorded : MessageTree → MessageTree × Option TreeSnapshot
recorded t = (t, some (Graph.snapshot t.graph))

abbrev pub record_on :
    MessageTree → String → Option (String × MessageNode) → MessageTree × Option TreeSnapshot
record_on t session none = (t, none)
record_on t session (some (node_id, node)) =
    if is_in_progress node.state
    then recorded (change_node node_id (update_state in_progress (some session)) t)
    else (t, none)

unfoldable pub record_session : MessageTree → String → String → MessageTree × Option TreeSnapshot
unfolding update_state Graph.snapshot
record_session t claim_id session = record_on t session (live_node t t.active claim_id)

abbrev pub complete_on :
    MessageTree → Option String → Option (String × MessageNode) → MessageTree × Option TreeSnapshot
complete_on t session none = (t, none)
complete_on t session (some (node_id, node)) =
    if is_in_progress node.state || is_error node.state
    then recorded (change_node node_id (update_state completed session) t)
    else (t, none)

unfoldable pub complete_claim :
    MessageTree → String → Option String → MessageTree × Option TreeSnapshot
unfolding update_state Graph.snapshot
complete_claim t claim_id session = complete_on t session (live_node t t.active claim_id)

-- The state of the loop over the descendants of a failed node.
pub record Failed : Type 0 where
  pub tree : MessageTree
  pub affected : List NodeUiTarget
  pub queue_changed : Bool

abbrev pub Failing : Type 0
Failing = Outcome (TreeError × MessageTree) Failed

abbrev pub fail_child_in : Failed → String → MessageNode → MessageNodeQueue × Bool → Failing
fail_child_in f node_id node (q, changed) = do
  let marked = change_node node_id mark_error (record f.tree { queue = q })
  target ← leaving marked (ui_target node)
  ok (record {
    tree = marked;
    affected = f.affected ++ target ∷ [];
    queue_changed = changed || f.queue_changed;
  })

abbrev pub fail_child : Failed → String → Option MessageNode → Failing
fail_child f node_id none = ok f
fail_child f node_id (some node) =
    if is_pending node.state
    then fail_child_in f node_id node (Queue.remove f.tree.queue node_id)
    else ok f

unfoldable pub fail_children : List String → Failed → Failing
unfolding ui_target mark_error Queue.remove
fail_children [] f = ok f
fail_children (node_id ∷ rest) f = do
  f' ← fail_child f node_id (get_node f.tree.graph node_id)
  fail_children rest f'

-- `get_descendants(node_id)[1:]`
abbrev pub tail_of : Option (List String) → Run (List String)
tail_of none = raised out_of_fuel
tail_of (some []) = ok []
tail_of (some (x ∷ xs)) = ok xs

abbrev pub fail_node : Failed → String → MessageNode → Failing
fail_node f node_id node = if is_error node.state then ok f else (do
  let marked = change_node node_id mark_error f.tree
  target ← leaving marked (ui_target node)
  ok (record f { tree = marked; affected = f.affected ++ target ∷ [] }))

abbrev pub fail_pending_below : Bool → String → Failed → Failing
fail_pending_below false node_id f = ok f
fail_pending_below true node_id f = do
  below ← leaving f.tree (tail_of (get_descendants f.tree.graph node_id))
  fail_children below f

abbrev pub fail_with : Bool → Failed → String → MessageNode → Failing
fail_with propagate f node_id node =
    if is_completed node.state
    then ok f
    else (do f' ← fail_node f node_id node; fail_pending_below propagate node_id f')

abbrev pub fail_on : MessageTree → Bool → Option (String × MessageNode) → Step FailureResult
fail_on t propagate none = ok (t, record { affected = []; queue_update = none; snapshot = none })
fail_on t propagate (some (node_id, node)) = do
  f ← fail_with propagate (record { tree = t; affected = []; queue_changed = false }) node_id node
  update ← leaving f.tree (queue_entries_if f.queue_changed f.tree)
  ok (
    f.tree,
    record {
      affected = f.affected;
      queue_update = update;
      snapshot = some (Graph.snapshot f.tree.graph);
    },
  )

unfoldable pub fail_claim : MessageTree → String → Bool → Step FailureResult
unfolding fail_children queue_entries get_descendants Graph.snapshot
fail_claim t claim_id propagate = fail_on t propagate (live_node t t.active claim_id)

abbrev reply_target :
    MessageTree → String → Option (MessageNode × MessageReferenceKind) → Option ReplyTarget
reply_target t reference none = none
reply_target t reference (some (node, kind)) = some (record {
  node_id = node.node_id;
  reference_id = reference;
  reference_kind = kind;
  queue_position = if is_some t.active then some (Queue.qsize t.queue + 1) else none;
})

unfoldable pub resolve_reply : MessageTree → String → Option ReplyTarget
unfolding resolve_reference
resolve_reply t reference = reply_target t reference (resolve_reference t.graph reference)

abbrev view_of : MessageTree → Option MessageNode → Option NodeView
view_of t none = none
view_of t (some node) = some (record {
  identity = t.graph.identity;
  node_id = node.node_id;
  state = node.state;
  parent_id = node.parent_id;
  session_id = node.session_id;
})

unfoldable pub node_view : MessageTree → String → Option NodeView
node_view t node_id = view_of t (get_node t.graph node_id)

unfoldable pub message_ids_for_chat : MessageTree → MessageScope → List String
unfolding all_reference_ids
message_ids_for_chat t scope =
    if same_scope t.graph.identity.scope scope then all_reference_ids t.graph else []
