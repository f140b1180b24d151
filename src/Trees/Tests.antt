-- ===== src/Trees/Tests.antt =====
-- A conversation of three messages, and the theorems of the tree at it.
use luicode.Base.{
  string_eq, str_eq_iff, true, false, String, none, some, List, [], ◌∷◌, ◌≡◌, refl, contains,
  without, arith,
}
use luicode.Base.Dict.{modify, insert}
use luicode.Base.Outcome.{ok, raised, Returns, Returns-mono}
use luicode.Trees.Node.{MessageScope, MessageNode, in_progress, completed, error}
use luicode.Trees.Queue
use luicode.Trees.Queue.{MessageNodeQueue}
use luicode.Trees.Graph
use luicode.Trees.Graph.{
  MessageTreeGraph, TreeError, no_status_message, out_of_fuel, get_node, get_parent_session_id,
  all_nodes, resolve_reference, get_descendants, get_reference_descendants, remove_nodes,
  all_reference_ids,
}
use luicode.Trees.Transitions.{NodeUiTarget, QueueDecision}
use luicode.Base.{is_some, ◌≢◌}
use luicode.Trees.Node.{TreeIdentity}
use luicode.Base.Dict.{lookup, insert}
use luicode.Trees.Repository
use luicode.Trees.Repository.{
  TreeRepository, add_tree, get_tree, owner_of, get_tree_for_reference, remove_tree,
}
use luicode.Trees.Repository.References.{
  made, called, adds, AllRegisterStored, Changes-finds_owner, remove_tree-forgets,
}
use luicode.Trees.Runtime.{
  ActiveClaim, MessageTree, Run, Step, change_node, ui_target, pending_node, runnable_node,
  queue_entries, queue_entries_if, claim, holds,
}
use luicode.Base.Dict.{lookup, insert, erase}
use luicode.Trees.Runtime.Removal.{remove_message_subtree}
use luicode.Trees.Node.{pending}
use luicode.Trees.Transitions.{accepted}
use luicode.Trees.Queue.{put, pop, remove, drain}
use luicode.Trees.Queue.Fifo.{
  Call, puts, pops, removes, drains, replies, list_replies, replies-list_replies, empty-IsIndexed,
}
use luicode.Trees.Graph.{add_node, resolve_reference, reference_children}
use luicode.Trees.Runtime
use luicode.Trees.Runtime.{enqueue_or_claim, add_and_enqueue}
use luicode.Trees.Runtime.Finish.{finish_and_claim_next}
use luicode.Trees.Runtime.Cancel.{cancel_node}
use luicode.Trees.Runtime.Settle.{record_session, complete_claim, fail_claim}
use luicode.Trees.Runtime.Invariant.{IsConsistent, init-IsConsistent, after, after-IsConsistent}
use luicode.Trees.Runtime.Admitting.{
  Admitted, enqueue_or_claim-Admitted, add_and_enqueue-Admitted, enqueue_or_claim-duplicate,
}
use luicode.Trees.Runtime.Scheduling.{
  Finished, finish_and_claim_next-Handover, finish_and_claim_next-stale, ReportsQueue,
}
use luicode.Trees.Runtime.Cancelling.{Cancelled, cancel_node-Cancelled, cancel_node-cleared}
use luicode.Trees.Runtime.Revoked.{IsSilent, ended_claim_writes_nothing, complete_claim_final}

abbrev calls : List Call
calls = puts "a" ∷ puts "b" ∷ puts "a" ∷ pops ∷ puts "a" ∷ removes "b" ∷ drains ∷ []

replies-list_replies_example : replies Queue.empty calls ≡ list_replies [] calls
replies-list_replies_example = replies-list_replies Queue.empty calls empty-IsIndexed

abbrev chat : MessageScope
chat = record { platform = "telegram"; chat_id = "7" }

abbrev root : MessageNode
root = record {
  node_id = "p1";
  scope = chat;
  prompt = "hello";
  status_message_id = some "s1";
  state = pending;
  parent_id = none;
  parent_reference_id = none;
  session_id = none;
  children_ids = [];
}

abbrev root_graph : MessageTreeGraph
root_graph = record {
  root_id = "p1";
  identity = record { scope = chat; root_id = "p1" };
  nodes = ("p1", root) ∷ [];
  status_to_node = ("s1", "p1") ∷ [];
}

root_graph-init : Graph.init root ≡ ok root_graph
unfolding Graph.init
root_graph-init = refl

abbrev fresh : MessageTree
fresh = Runtime.init root_graph

fresh-IsConsistent : IsConsistent fresh
fresh-IsConsistent = init-IsConsistent root root_graph root_graph-init refl

enqueue_or_claim-Admitted_example :
    Returns
      (enqueue_or_claim fresh "c1" "p1")
      (λ s. IsConsistent s.0 × (accepted s.1 ≡ true) × Admitted none fresh "c1" "p1" s)
unfolding lookup contains
enqueue_or_claim-Admitted_example =
    enqueue_or_claim-Admitted fresh "c1" "p1" root refl refl refl (λ e. cc e) fresh-IsConsistent

-- The first message runs under the claim "c1".
running : MessageTree
unfolding enqueue_or_claim
running = after (enqueue_or_claim fresh "c1" "p1") fresh

running-IsConsistent : IsConsistent running
unfolding running
running-IsConsistent = after-IsConsistent (enqueue_or_claim fresh "c1" "p1") fresh (
    Returns-mono (enqueue_or_claim fresh "c1" "p1") _ (λ s. IsConsistent s.0) (λ s h. h.0)
      enqueue_or_claim-Admitted_example)

enqueue_or_claim-duplicate_example : enqueue_or_claim running "c2" "p1" ≡ Runtime.reject running
unfolding running lookup contains insert modify
enqueue_or_claim-duplicate_example =
    enqueue_or_claim-duplicate running "c2" "p1" refl running-IsConsistent

abbrev reply : MessageTree → String → String → Step QueueDecision
reply t node_id status = add_and_enqueue t "unused" node_id chat "more" status "p1" "s1"

grown_graph : Run MessageTreeGraph
unfolding running add_node lookup insert modify
grown_graph = add_node running.graph "p2" chat "more" "s2" "p1" "s1"

abbrev graph_of : Run MessageTreeGraph → MessageTreeGraph
graph_of (ok g) = g
graph_of (raised e) = root_graph

grown_graph-ok : add_node running.graph "p2" chat "more" "s2" "p1" "s1" ≡ ok (graph_of grown_graph)
unfolding grown_graph
grown_graph-ok = refl

abbrev Grown : MessageTree × QueueDecision → Type 0
Grown s =
    IsConsistent s.0
    × (accepted s.1 ≡ true)
    × Admitted running.active (record running { graph = graph_of grown_graph }) "unused" "p2" s

add_and_enqueue-Admitted_example : Returns (reply running "p2" "s2") Grown
add_and_enqueue-Admitted_example =
    add_and_enqueue-Admitted running (graph_of grown_graph) "unused" "p2" "more" "s2" "p1" "s1" chat
      grown_graph-ok (λ e. cc e) running-IsConsistent

-- A reply waits behind it.
waiting : MessageTree
unfolding running add_and_enqueue lookup insert modify contains
waiting = after (reply running "p2" "s2") running

waiting-IsConsistent : IsConsistent waiting
unfolding waiting
waiting-IsConsistent = after-IsConsistent (reply running "p2" "s2") running (
    Returns-mono (reply running "p2" "s2") Grown (λ s. IsConsistent s.0) (λ s h. h.0)
      add_and_enqueue-Admitted_example)

waiting_queue : waiting.queue.deque ≡ "p2" ∷ []
unfolding waiting
waiting_queue = refl

finish_and_claim_next-Handover_example :
    Returns (finish_and_claim_next waiting "c1" "c3") (Finished waiting.queue.deque "c3")
unfolding waiting
finish_and_claim_next-Handover_example =
    finish_and_claim_next-Handover waiting "c1" "c3" waiting-IsConsistent refl

finish_and_claim_next-stale_example :
    Returns
      (finish_and_claim_next waiting "c9" "c3")
      (λ r. (r.0 ≡ waiting) × (r.1.next_claim ≡ none) × ReportsQueue r)
unfolding waiting
finish_and_claim_next-stale_example =
    finish_and_claim_next-stale waiting "c9" "c3" waiting-IsConsistent refl

cancel_node-Cancelled_example : Returns (cancel_node waiting "p1") (Cancelled "p1")
unfolding waiting
cancel_node-Cancelled_example = cancel_node-Cancelled waiting "p1" waiting-IsConsistent refl

abbrev first_target : NodeUiTarget
first_target = record { scope = chat; node_id = "p1"; status_message_id = "s1" }

abbrev first_claim : ActiveClaim
first_claim = record {
  claim = record {
    identity = record { scope = chat; root_id = "p1" };
    claim_id = "c1";
    node = first_target;
    prompt = "hello";
    parent_session_id = none;
  };
  cancellation_requested = false;
}

abbrev first_running : MessageNode
first_running = record root { state = in_progress }

ended_claim_writes_nothing_example :
    Returns (finish_and_claim_next waiting "c1" "c3") (λ r. IsSilent r.0 "c1")
    × Returns (cancel_node waiting "p1") (λ r. IsSilent r.0 "c1")
unfolding waiting lookup
ended_claim_writes_nothing_example =
    ended_claim_writes_nothing waiting first_claim "c3" waiting-IsConsistent refl
      (λ e. absurd (ground (arith, (str_eq_iff "c1" "c3").1 e))) refl

complete_claim_final_example :
    let (t', snapshot) = complete_claim running "c1" (some "session") in
    (get_node t'.graph "p1"
      ≡ some (record first_running { state = completed; session_id = some "session" }))
    × (t'.queue ≡ running.queue)
    × (t'.active ≡ running.active)
    × (snapshot ≡ some (Graph.snapshot t'.graph))
    × (record_session t' "c1" "late" ≡ (t', none))
    × (complete_claim t' "c1" none ≡ (t', none))
    × (fail_claim t' "c1" true
        ≡ ok (
          t',
          record { affected = []; queue_update = none; snapshot = some (Graph.snapshot t'.graph) },
        ))
unfolding running lookup insert modify
complete_claim_final_example =
    complete_claim_final running first_claim first_running "session" "late" "p1" none true refl refl
      refl refl

-- The status message of the running node was cleared: `remove_message_subtree` on "s1".
cleared : MessageTree
unfolding running remove_message_subtree lookup insert modify contains without erase
cleared = after (remove_message_subtree running "s1") running

abbrev cleared_node : MessageNode
cleared_node = record root { state = error; status_message_id = none }

cancel_node-cleared_example :
    cancel_node cleared "p1"
    ≡ raised (
      no_status_message,
      record cleared {
        active = some (record first_claim { cancellation_requested = true });
        queue = (Queue.remove cleared.queue "p1").0;
      },
    )
unfolding cleared
cancel_node-cleared_example =
    cancel_node-cleared cleared "p1" (record first_claim { cancellation_requested = true })
      cleared_node refl refl refl refl refl

abbrev root_identity : TreeIdentity
root_identity = record { scope = chat; root_id = "p1" }

abbrev stored : TreeRepository
stored = record {
  trees = (root_identity, fresh) ∷ [];
  reference_to_tree =
      (record { scope = chat; reference_id = "p1" }, root_identity)
      ∷ (record { scope = chat; reference_id = "s1" }, root_identity)
      ∷ [];
}

stored-add_tree : add_tree Repository.empty fresh "p1" "s1" ≡ ok stored
unfolding add_tree lookup insert
stored-add_tree = refl

Changes-finds_owner_example :
    (root_identity.scope ≡ chat)
    × (is_some (get_tree_for_reference stored chat "s1") ≡ true)
    × (get_tree_for_reference stored chat "s1" ≡ get_tree stored root_identity)
unfolding lookup AllRegisterStored
Changes-finds_owner_example =
    Changes-finds_owner stored chat "s1" root_identity
      (called made (adds fresh "p1" "s1" stored-add_tree)) (tt, tt) refl

remove_tree-forgets_example :
    (get_tree (remove_tree stored root_identity).0 root_identity ≡ none)
    × (owner_of (remove_tree stored root_identity).0 chat "s1" ≢ some root_identity)
    × ((owner : TreeIdentity)
        → owner ≢ root_identity
        → owner_of stored chat "s1" ≡ some owner
        → (owner_of (remove_tree stored root_identity).0 chat "s1" ≡ some owner)
          × (get_tree (remove_tree stored root_identity).0 owner ≡ get_tree stored owner))
unfolding AllRegisterStored
remove_tree-forgets_example =
    remove_tree-forgets stored root_identity chat "s1"
      (called made (adds fresh "p1" "s1" stored-add_tree)) (tt, tt)
