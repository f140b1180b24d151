-- ===== src/Trees/Runtime.antt =====
-- src/luicode/messaging/trees/runtime.py: the aggregate of one conversation tree. Each method runs
-- under the tree's lock, so it is one function from the tree to its result and the tree after it.
-- `claim_id` stands for the value of `uuid4().hex` that the call draws.
pub mod Finish
pub mod Cancel
pub mod Removal
pub mod Settle
pub mod Invariant
pub mod Settling
pub mod Scheduling
pub mod Admitting
pub mod Cancelling
pub mod Revoked
use luicode.Base.{
  string_eq, ℕ, zero, suc, ◌+◌, Bool, true, false, not, ◌&&◌, ◌||◌, String, Option, none, some,
  List, [], ◌∷◌, ◌++◌, length, contains, ◌==◌, if◌then◌else◌, is_some, truthy,
}
use luicode.Base.Dict.{modify}
use luicode.Base.Outcome.{Outcome, ok, raised, leaving, ◌>>=◌}
use luicode.Trees.Node.{
  MessageScope, MessageNode, MessageReferenceKind, MessageState, TreeSnapshot, in_progress,
  completed, error, is_pending, is_in_progress, is_error, is_completed, is_runnable, update_state,
  mark_error,
}
use luicode.Trees.Queue
use luicode.Trees.Queue.{MessageNodeQueue}
use luicode.Trees.Graph
use luicode.Trees.Graph.{
  MessageTreeGraph, TreeError, no_status_message, out_of_fuel, get_node, get_parent_session_id,
  all_nodes, resolve_reference, get_descendants, get_reference_descendants, remove_nodes,
  all_reference_ids,
}
use luicode.Trees.Transitions.{
  NodeUiTarget, NodeClaim, QueueEntry, QueueDecision, CompletionResult, TreeCancellation,
  MessageSubtreeRemoval, ReplyTarget, NodeView, FailureResult, AdmissionRejection, duplicate,
}

pub record ActiveClaim : Type 0 where
  pub claim : NodeClaim
  pub cancellation_requested : Bool

pub record MessageTree : Type 0 where
  pub graph : MessageTreeGraph
  pub queue : MessageNodeQueue
  pub active : Option ActiveClaim

abbrev pub Run : Type 0 → Type 0
Run A = Outcome TreeError A

-- A method that writes: it returns with the new tree, or raises and leaves the tree as far as it has
-- written it.
abbrev pub Step : Type 0 → Type 0
Step A = Outcome (TreeError × MessageTree) (MessageTree × A)

abbrev pub init : MessageTreeGraph → MessageTree
init g = record { graph = g; queue = Queue.empty; active = none }

-- A change of the state of a node object of the graph.
abbrev pub change_node : String → (MessageNode → MessageNode) → MessageTree → MessageTree
change_node node_id f t = record t {
  graph = record t.graph { nodes = modify node_id f t.graph.nodes };
}

abbrev target_with : MessageNode → Option String → Run NodeUiTarget
target_with node none = raised no_status_message
target_with node (some status) =
    ok (record { scope = node.scope; node_id = node.node_id; status_message_id = status })

unfoldable pub ui_target : MessageNode → Run NodeUiTarget
ui_target node = target_with node node.status_message_id

-- `node is None or node.state is not MessageState.PENDING`, the other way round.
abbrev pub pending_node : Option MessageNode → Bool
pending_node none = false
pending_node (some node) = is_pending node.state

abbrev pub runnable_node : Option MessageNode → Bool
runnable_node none = false
runnable_node (some node) = is_runnable node.state

abbrev pub entry_then : ℕ → Option MessageNode → Run (List QueueEntry) → Run (List QueueEntry)
entry_then position none rest = rest
entry_then position (some node) rest =
    if is_pending node.state
    then (do
      target ← ui_target node
      entries ← rest
      ok (record { node = target; position = position } ∷ entries))
    else rest

-- The loop of `_queue_entries`; `position` is `len(entries) + 1`.
unfoldable pub entries_from : MessageTreeGraph → ℕ → List String → Run (List QueueEntry)
unfolding ui_target
entries_from g position [] = ok []
entries_from g position (node_id ∷ rest) =
    let node = get_node g node_id in
    entry_then position node
      (entries_from g (if pending_node node then position + 1 else position) rest)

unfoldable pub queue_entries : MessageTree → Run (List QueueEntry)
unfolding entries_from
queue_entries t = entries_from t.graph 1 t.queue.deque

abbrev pub queue_entries_if : Bool → MessageTree → Run (Option (List QueueEntry))
queue_entries_if false t = ok none
queue_entries_if true t = do entries ← queue_entries t; ok (some entries)

-- `_claim`, with the claim that it stores.
unfoldable pub claim : MessageTree → String → String → MessageNode → Step NodeClaim
unfolding ui_target update_state get_parent_session_id
claim t claim_id node_id node = do
  let t' = change_node node_id (update_state in_progress none) t
  target ← leaving t' (ui_target node)
  let c : NodeClaim = record {
    identity = t.graph.identity;
    claim_id = claim_id;
    node = target;
    prompt = node.prompt;
    parent_session_id = get_parent_session_id t'.graph node.node_id;
  }
  ok (record t' { active = some (record { claim = c; cancellation_requested = false }) }, c)

abbrev pub reject : MessageTree → Step QueueDecision
reject t =
    ok (t, record { claim = none; position = none; snapshot = none; rejection = some duplicate })

abbrev pub claimed : MessageTree × NodeClaim → MessageTree × QueueDecision
claimed (t, c) = (
  t,
  record {
    claim = some c;
    position = none;
    snapshot = some (Graph.snapshot t.graph);
    rejection = none;
  },
)

abbrev pub queued : MessageTree → Step QueueDecision
queued t = ok (
  t,
  record {
    claim = none;
    position = some (Queue.qsize t.queue);
    snapshot = some (Graph.snapshot t.graph);
    rejection = none;
  },
)

abbrev pub enqueue : MessageTree → MessageNodeQueue × Bool → Step QueueDecision
enqueue t (q, false) = reject t
enqueue t (q, true) = queued (record t { queue = q })

abbrev pub admit :
    MessageTree → String → String → MessageNode → Option ActiveClaim → Step QueueDecision
admit t claim_id node_id node none = do r ← claim t claim_id node_id node; ok (claimed r)
admit t claim_id node_id node (some a) = enqueue t (Queue.put t.queue node_id)

abbrev pub admit_node : MessageTree → String → String → Option MessageNode → Step QueueDecision
admit_node t claim_id node_id none = reject t
admit_node t claim_id node_id (some node) =
    if is_pending node.state then admit t claim_id node_id node t.active else reject t

unfoldable pub enqueue_or_claim : MessageTree → String → String → Step QueueDecision
unfolding claim Graph.snapshot Queue.put
enqueue_or_claim t claim_id node_id = admit_node t claim_id node_id (get_node t.graph node_id)

unfoldable pub add_and_enqueue :
    MessageTree
    → String
    → String
    → MessageScope
    → String
    → String
    → String
    → String
    → Step QueueDecision
unfolding Graph.add_node enqueue_or_claim
add_and_enqueue t claim_id node_id scope prompt status parent_id parent_reference = do
  g ← leaving t (Graph.add_node t.graph node_id scope prompt status parent_id parent_reference)
  enqueue_or_claim (record t { graph = g }) claim_id node_id

-- `self._active is not None and self._active.claim.claim_id == claim_id`
abbrev pub holds : Option ActiveClaim → String → Bool
holds none claim_id = false
holds (some a) claim_id = a.claim.claim_id == claim_id
