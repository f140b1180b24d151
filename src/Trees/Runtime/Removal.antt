-- ===== src/Trees/Runtime/Removal.antt =====
-- `remove_message_subtree` of runtime.py. A set of ids is walked in the order of its list here;
-- Python fixes no order, and the results that are sets are lists without order.
use luicode.Base.{
  string_eq, Bool, false, not, ◌&&◌, ◌||◌, String, Option, none, some, List, [], ◌∷◌, ◌++◌,
  contains, ◌==◌, if◌then◌else◌,
}
use luicode.Base.Dict.{has}
use luicode.Base.Outcome.{Outcome, ok, raised, leaving, ◌>>=◌}
use luicode.Trees.Node.{MessageNode, MessageReferenceKind, is_error, is_runnable, mark_error}
use luicode.Trees.Queue
use luicode.Trees.Queue.{MessageNodeQueue}
use luicode.Trees.Graph
use luicode.Trees.Graph.{
  MessageTreeGraph, TreeError, no_status_message, out_of_fuel, get_node, get_parent_session_id,
  all_nodes, resolve_reference, get_descendants, get_reference_descendants, remove_nodes,
  all_reference_ids,
}
use luicode.Trees.Transitions.{NodeUiTarget, NodeClaim, MessageSubtreeRemoval}
use luicode.Trees.Runtime.{
  MessageTree, Step, change_node, ui_target, queue_entries, queue_entries_if,
}
use luicode.Trees.Runtime.Cancel.{request_cancellation, one_target}

-- The candidates that are nodes, each once.
abbrev pub node_ids : MessageTreeGraph → List String → List String
node_ids g [] = []
node_ids g (reference ∷ rest) =
    let ids = node_ids g rest in
    if has reference g.nodes && not (contains reference ids) then reference ∷ ids else ids

abbrev pub add_owner : MessageReferenceKind → String → List String → List String
add_owner MessageReferenceKind.prompt owner ids = ids
add_owner MessageReferenceKind.status owner ids = if contains owner ids then ids else owner ∷ ids

abbrev clear_owner : MessageReferenceKind → String → MessageTreeGraph → MessageTreeGraph
clear_owner MessageReferenceKind.prompt owner g = g
clear_owner MessageReferenceKind.status owner g = Graph.clear_status g owner

-- The state of the loop over the affected nodes.
pub record Detached : Type 0 where
  pub tree : MessageTree
  pub nodes : List NodeUiTarget
  pub queue_changed : Bool

abbrev Detaching : Type 0
Detaching = Outcome (TreeError × MessageTree) Detached

abbrev is_claimed : Option NodeClaim → String → Bool
is_claimed none node_id = false
is_claimed (some c) node_id = c.node.node_id == node_id

abbrev detach_from :
    Detached → Option NodeClaim → String → MessageNodeQueue × Bool → MessageNode → Detaching
detach_from d active node_id (q, changed) node =
    let unqueued : Detached = record {
      tree = record d.tree { queue = q };
      nodes = d.nodes;
      queue_changed = changed || d.queue_changed;
    } in
    if is_runnable node.state
    then (do
      targets ← leaving unqueued.tree (one_target node)
      ok (record unqueued {
        tree = change_node node_id mark_error unqueued.tree;
        nodes = unqueued.nodes ++ targets;
      }))
    else if is_error node.state && is_claimed active node_id
    then (do
      targets ← leaving unqueued.tree (one_target node)
      ok (record unqueued { nodes = unqueued.nodes ++ targets }))
    else ok unqueued

abbrev detach_node : Detached → Option NodeClaim → String → Option MessageNode → Detaching
detach_node d active node_id none = ok d
detach_node d active node_id (some node) =
    detach_from d active node_id (Queue.remove d.tree.queue node_id) node

unfoldable pub detach : List String → Option NodeClaim → Detached → Detaching
unfolding ui_target mark_error Queue.remove
detach [] active d = ok d
detach (node_id ∷ rest) active d = do
  d' ← detach_node d active node_id (get_node d.tree.graph node_id)
  detach rest active d'

abbrev nothing_removed : MessageTree → Step MessageSubtreeRemoval
nothing_removed t = ok (
  t,
  record {
    cancellation = record { nodes = []; active_claim = none; queue_update = none };
    removed_message_ids = [];
    removed_entire_tree = false;
  },
)

abbrev remove_resolved :
    MessageTree → MessageNode → MessageReferenceKind → List String → Step MessageSubtreeRemoval
remove_resolved t owner kind references = do
  let removed = node_ids t.graph references
  let affected = add_owner kind owner.node_id removed
  let (t', active) = request_cancellation t (λ id. contains id affected)
  d ← detach affected active (record { tree = t'; nodes = []; queue_changed = false })
  let g = clear_owner kind owner.node_id d.tree.graph
  let t'' = record d.tree { graph = remove_nodes g removed }
  update ← leaving t'' (queue_entries_if d.queue_changed t'')
  ok (
    t'',
    record {
      cancellation = record { nodes = d.nodes; active_claim = active; queue_update = update };
      removed_message_ids = references;
      removed_entire_tree = contains t.graph.root_id removed;
    },
  )

abbrev remove_found :
    MessageTree
    → Option (MessageNode × MessageReferenceKind)
    → Option (List String)
    → Step MessageSubtreeRemoval
remove_found t resolved none = raised (out_of_fuel, t)
remove_found t none (some references) = nothing_removed t
remove_found t (some (owner, kind)) (some []) = nothing_removed t
remove_found t (some (owner, kind)) (some (r ∷ rs)) = remove_resolved t owner kind (r ∷ rs)

unfoldable pub remove_message_subtree : MessageTree → String → Step MessageSubtreeRemoval
unfolding detach queue_entries resolve_reference get_reference_descendants remove_nodes
    Graph.clear_status
remove_message_subtree t reference =
    remove_found t (resolve_reference t.graph reference)
      (get_reference_descendants t.graph reference)
