-- ===== src/Trees/Runtime/Finish.antt =====
-- `finish_and_claim_next` of runtime.py.
use luicode.Base.{
  string_eq, ℕ, zero, suc, String, Option, none, some, length, if◌then◌else◌, truthy,
}
use luicode.Base.Outcome.{ok, raised, leaving, ◌>>=◌}
use luicode.Trees.Node.{MessageNode, is_pending}
use luicode.Trees.Queue
use luicode.Trees.Queue.{MessageNodeQueue}
use luicode.Trees.Graph.{out_of_fuel, get_node}
use luicode.Trees.Transitions.{NodeClaim, CompletionResult}
use luicode.Trees.Runtime.{MessageTree, Step, queue_entries, claim, holds}

abbrev with_claim : MessageTree × NodeClaim → MessageTree × Option NodeClaim
with_claim (t, c) = (t, some c)

-- A node that is pending is claimed, and any other is dropped.
abbrev pub claim_or :
    MessageTree
    → String
    → String
    → Option MessageNode
    → Step (Option NodeClaim)
    → Step (Option NodeClaim)
claim_or t claim_id node_id none rest = rest
claim_or t claim_id node_id (some node) rest =
    if is_pending node.state
    then (do r ← claim t claim_id node_id node; ok (with_claim r))
    else rest

-- One round of `while node_id := self._queue.pop()`: an empty queue ends the loop, and so does the
-- empty id. `again` is the next round.
abbrev pub next_round :
    (MessageTree → Step (Option NodeClaim))
    → MessageTree
    → String
    → MessageNodeQueue × Option String
    → Step (Option NodeClaim)
next_round again t claim_id (q, none) = ok (record t { queue = q }, none)
next_round again t claim_id (q, some node_id) =
    let t' = record t { queue = q } in
    let rest = again t' in
    if truthy node_id
    then claim_or t' claim_id node_id (get_node t'.graph node_id) rest
    else ok (t', none)

unfoldable pub claim_next : ℕ → MessageTree → String → Step (Option NodeClaim)
unfolding claim Queue.pop
claim_next zero t claim_id = raised (out_of_fuel, t)
claim_next (suc fuel) t claim_id =
    next_round (λ t'. claim_next fuel t' claim_id) t claim_id (Queue.pop t.queue)

-- One round for each item of the queue, and one to see that it is empty.
abbrev pub queue_fuel : MessageTree → ℕ
queue_fuel t = suc (length t.queue.deque)

unfoldable pub complete : MessageTree × Option NodeClaim → Step CompletionResult
unfolding queue_entries
complete (t, next) = do
  entries ← leaving t (queue_entries t)
  ok (t, record { next_claim = next; queue = entries })

-- `claim_id` is the finished claim, and `next_id` the identity that a successor would get.
unfoldable pub finish_and_claim_next : MessageTree → String → String → Step CompletionResult
unfolding claim_next complete
finish_and_claim_next t claim_id next_id =
    let released = record t { active = none } in
    let next = claim_next (queue_fuel t) released next_id in
    if holds t.active claim_id then (do r ← next; complete r) else complete (t, none)
