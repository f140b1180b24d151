-- ===== src/Trees/Runtime/Cancel.antt =====
-- `cancel_node`, `cancel_all` and `remove_message_subtree` of runtime.py.
use luicode.Base.{
  string_eq, Bool, true, not, ◌&&◌, ◌||◌, String, Option, none, some, List, [], ◌∷◌, ◌++◌, contains,
  ◌==◌, if◌then◌else◌, is_some,
}
use luicode.Base.Dict.{keys}
use luicode.Base.Outcome.{Outcome, ok, leaving, ◌>>=◌}
use luicode.Trees.Node.{MessageNode, is_error, is_runnable, mark_error}
use luicode.Trees.Queue
use luicode.Trees.Queue.{MessageNodeQueue}
use luicode.Trees.Graph.{TreeError, get_node}
use luicode.Trees.Transitions.{NodeUiTarget, NodeClaim, QueueEntry, TreeCancellation}
use luicode.Trees.Runtime.{
  ActiveClaim, MessageTree, Run, Step, change_node, ui_target, queue_entries, queue_entries_if,
}

abbrev pub claim_if : Option ActiveClaim → (String → Bool) → Option NodeClaim
claim_if none p = none
claim_if (some a) p = if p a.claim.node.node_id then some a.claim else none

abbrev pub flag : Option ActiveClaim → Option ActiveClaim
flag none = none
flag (some a) = some (record a { cancellation_requested = true })

-- The claim that a cancellation concerns, and the tree in which it is marked as cancelled.
abbrev pub request_cancellation : MessageTree → (String → Bool) → MessageTree × Option NodeClaim
request_cancellation t p =
    let concerned = claim_if t.active p in
    (record t { active = if is_some concerned then flag t.active else t.active }, concerned)

abbrev pub one_target : MessageNode → Run (List NodeUiTarget)
one_target node = do target ← ui_target node; ok (target ∷ [])

abbrev pub cancelled_targets : MessageNode → Bool → Run (List NodeUiTarget)
cancelled_targets node is_active =
    if is_runnable node.state
    then one_target node
    else if is_error node.state && is_active
    then one_target node
    else ok []

abbrev pub mark_if_runnable : String → MessageNode → MessageTree → MessageTree
mark_if_runnable node_id node t =
    if is_runnable node.state then change_node node_id mark_error t else t

abbrev pub cancel_found :
    MessageTree
    → String
    → Option NodeClaim
    → MessageNodeQueue × Bool
    → Option MessageNode
    → Step TreeCancellation
cancel_found t node_id active (q, changed) none =
    ok (t, record { nodes = []; active_claim = active; queue_update = none })
cancel_found t node_id active (q, changed) (some node) = do
  let t' = mark_if_runnable node_id node (record t { queue = q })
  targets ← leaving t' (cancelled_targets node (is_some active))
  update ← leaving t' (queue_entries_if changed t')
  ok (t', record { nodes = targets; active_claim = active; queue_update = update })

unfoldable pub cancel_node : MessageTree → String → Step TreeCancellation
unfolding ui_target queue_entries mark_error Queue.remove
cancel_node t node_id =
    let (t', active) = request_cancellation t (λ id. id == node_id) in
    cancel_found t' node_id active (Queue.remove t.queue node_id) (get_node t.graph node_id)

-- What a loop over nodes has marked so far: the targets, and the ids in `seen`.
pub record Marked : Type 0 where
  pub tree : MessageTree
  pub nodes : List NodeUiTarget
  pub seen : List String

abbrev pub Marking : Type 0
Marking = Outcome (TreeError × MessageTree) Marked

-- One runnable node is marked and reported.
abbrev pub mark_node : Marked → String → MessageNode → Marking
mark_node m node_id node = do
  let marked = change_node node_id mark_error m.tree
  target ← leaving marked (ui_target node)
  ok (record { tree = marked; nodes = m.nodes ++ target ∷ []; seen = node_id ∷ m.seen })

abbrev pub mark_active : Marked → String → Option MessageNode → Marking
mark_active m node_id none = ok m
mark_active m node_id (some node) =
    if is_runnable node.state
    then mark_node m node_id node
    else if is_error node.state
    then (do
      target ← leaving m.tree (ui_target node)
      ok (record m { nodes = m.nodes ++ target ∷ []; seen = node_id ∷ m.seen }))
    else ok (record m { seen = node_id ∷ m.seen })

abbrev pub mark_active_claim : Marked → Option ActiveClaim → Marking
mark_active_claim m none = ok m
mark_active_claim m (some a) =
    mark_active m a.claim.node.node_id (get_node m.tree.graph a.claim.node.node_id)

abbrev pub mark_queued_node : Marked → String → Option MessageNode → Marking
mark_queued_node m node_id none = ok m
mark_queued_node m node_id (some node) =
    if is_runnable node.state then mark_node m node_id node else ok m

unfoldable pub mark_queued : List String → Marked → Marking
unfolding ui_target mark_error
mark_queued [] m = ok m
mark_queued (node_id ∷ rest) m = do
  m' ← mark_queued_node m node_id (get_node m.tree.graph node_id)
  mark_queued rest m'

-- The last loop, over `all_nodes()`. A node object is read when its turn comes.
abbrev pub mark_remaining_node : Marked → String → Option MessageNode → Marking
mark_remaining_node m node_id none = ok m
mark_remaining_node m node_id (some node) =
    if contains node_id m.seen || not (is_runnable node.state)
    then ok m
    else mark_node m node_id node

unfoldable pub mark_remaining : List String → Marked → Marking
unfolding ui_target mark_error
mark_remaining [] m = ok m
mark_remaining (node_id ∷ rest) m = do
  m' ← mark_remaining_node m node_id (get_node m.tree.graph node_id)
  mark_remaining rest m'

abbrev pub empty_update : List String → Option (List QueueEntry)
empty_update [] = none
empty_update (x ∷ xs) = some []

abbrev pub active_claim : Option ActiveClaim → Option NodeClaim
active_claim none = none
active_claim (some a) = some a.claim

unfoldable pub cancel_all : MessageTree → Step TreeCancellation
unfolding mark_queued mark_remaining Queue.drain
cancel_all t = do
  let start : Marked = record { tree = record t { active = flag t.active }; nodes = []; seen = [] }
  m ← mark_active_claim start t.active
  let (q, queued_ids) = Queue.drain m.tree.queue
  m' ← mark_queued queued_ids (record m { tree = record m.tree { queue = q } })
  m'' ← mark_remaining (keys m'.tree.graph.nodes) m'
  ok (
    m''.tree,
    record {
      nodes = m''.nodes;
      active_claim = active_claim t.active;
      queue_update = empty_update queued_ids;
    },
  )
