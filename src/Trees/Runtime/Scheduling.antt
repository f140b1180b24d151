-- ===== src/Trees/Runtime/Scheduling.antt =====
-- Who is claimed next: the queue is served in order, one claim at a time.
use luicode.Base.{
  string_eq, ℕ, suc, ◌+◌, Bool, true, false, String, Option, none, some, List, [], ◌∷◌, length,
  is_some, truthy, ◌≡◌, refl, arith, contains, str_eq_iff, ap, ◌∙◌, Distinct,
}
use luicode.Base.Outcome.{Returns, Returns-bind, Returns-mono, leaving, Returns-leaving}
use luicode.Trees.Node.{MessageNode, is_pending}
use luicode.Trees.Queue.{MessageNodeQueue}
use luicode.Trees.Graph.{MessageTreeGraph, get_node}
use luicode.Trees.Transitions.{NodeClaim, QueueEntry, CompletionResult}
use luicode.Trees.Runtime.{MessageTree, ui_target, queue_entries, claim, holds}
use luicode.Trees.Queue.Fifo.{IsIndexed}
use luicode.Trees.Runtime.Invariant.{
  is_active, IsGood, IsConsistent, IsTargetOf, ui_target-Returns, IsClaimOf, claim-Returns,
}
use luicode.Base.{All, All-of-contains}
use luicode.Trees.Queue.Fifo.{after_pop, after_pop-IsIndexed, pop_nonempty, pop_empty}
use luicode.Trees.Runtime.{entries_from}
use luicode.Trees.Runtime.Finish.{finish_and_claim_next, claim_next, complete}

abbrev pub entry_ids : List QueueEntry → List String
entry_ids [] = []
entry_ids (e ∷ es) = e.node.node_id ∷ entry_ids es

-- The positions count up from `p`.
abbrev pub IsNumbered : ℕ → List QueueEntry → Type 0
IsNumbered p [] = Unit {0}
IsNumbered p (e ∷ es) = (e.position ≡ p) × IsNumbered (p + 1) es

-- A pending node of the graph with a status message.
abbrev pub IsWaiting : MessageTreeGraph → String → Type 0
IsWaiting g x =
    (node : MessageNode) × (get_node g x ≡ some node)
    × (node.node_id ≡ x)
    × (is_pending node.state ≡ true)
    × (is_some node.status_message_id ≡ true)

waiting_good :
    (g : MessageTreeGraph) (o : Option MessageNode) (x : String) (active : Bool)
    → get_node g x ≡ o
    → IsGood o x true active
    → IsWaiting g x
waiting_good g none x active e v = cc (v.0)
waiting_good g (some node) x active e v =
    (node, e, v.0, ground (arith, v.1), ground (arith, v.1, v.3))

pub queued-IsWaiting :
    (t : MessageTree) (x : String)
    → ((x : String)
        → IsGood (get_node t.graph x) x (contains x t.queue.deque) (is_active t.active x))
    → contains x t.queue.deque ≡ true
    → IsWaiting t.graph x
queued-IsWaiting t x at m =
    waiting_good t.graph (get_node t.graph x) x (is_active t.active x) refl (rw m at (at x))

entries_from-Returns :
    (g : MessageTreeGraph) (p : ℕ) (l : List String)
    → All (IsWaiting g) l
    → Returns (entries_from g p l) (λ es. (entry_ids es ≡ l) × IsNumbered p es)
unfolding entries_from
entries_from-Returns g p [] w = (refl, tt)
entries_from-Returns g p (x ∷ l) w =
    let (node, e, named, pending, status) = w.0 in
    rw (e, pending)
      (Returns-bind (ui_target node) _ (IsTargetOf node) _ (ui_target-Returns node status)
        λ target is.
          Returns-bind (entries_from g (p + 1) l) _
            (λ es. (entry_ids es ≡ l) × IsNumbered (p + 1) es) _
            (entries_from-Returns g (p + 1) l w.1)
            λ es h. (ground (arith, is.0, named, h.0), (refl, h.1)))

-- The queue that a consistent tree reports: every queued id in order, at positions 1, 2, 3 and on.
pub queue_entries-Returns :
    (t : MessageTree)
    → IsConsistent t
    → Returns (queue_entries t) (λ es. (entry_ids es ≡ t.queue.deque) × IsNumbered 1 es)
unfolding queue_entries
queue_entries-Returns t v =
    entries_from-Returns t.graph 1 t.queue.deque
      (All-of-contains (IsWaiting t.graph) t.queue.deque (λ x. queued-IsWaiting t x v.at))

-- The released tree from which the loop starts: nobody is active.
abbrev pub IsReleased : MessageTree → Type 0
IsReleased t =
    IsIndexed t.queue
    × ((x : String) → IsGood (get_node t.graph x) x (contains x t.queue.deque) false)
    × (contains "" t.queue.deque ≡ false)
    × (t.active ≡ none)

-- The successor is the first of the queue, and the rest stays queued; or nobody waits.
abbrev pub Handover : List String → String → MessageTree × Option NodeClaim → Type 0
Handover [] next_id r = (r.1 ≡ none) × (r.0.active ≡ none) × (r.0.queue.deque ≡ [])
Handover (x ∷ rest) next_id r =
    (c : NodeClaim) × (r.1 ≡ some c)
    × (c.node.node_id ≡ x)
    × (c.claim_id ≡ next_id)
    × (r.0.active ≡ some (record { claim = c; cancellation_requested = false }))
    × (r.0.queue.deque ≡ rest)

popped_at :
    (q : MessageNodeQueue) (item x : String) (rest : List String) (o : Option MessageNode)
    → q.deque ≡ item ∷ rest
    → IsGood o x (contains x q.deque) false
    → IsGood o x (contains x rest) false
unfolding contains
popped_at q item x rest none e g = ground (arith, g.0, ap (contains x) e)
popped_at q item x rest (some node) e g = ground (arith, g, ap (contains x) e)

-- What is known when `x` is the first of the queue of a released tree.
record IsFirst (t : MessageTree) (x : String) (rest : List String) : Type 0 where
  named : truthy x ≡ true
  waiting : IsWaiting t.graph x
  once : contains x rest ≡ false
  rest_named : contains "" rest ≡ false

IsFirst-of-IsReleased :
    (t : MessageTree) (x : String) (rest : List String)
    → t.queue.deque ≡ x ∷ rest
    → IsReleased t
    → IsFirst t x rest
unfolding contains
IsFirst-of-IsReleased t x rest e (v, at, named, idle) =
    let d : Distinct (x ∷ rest) = rw e at v.distinct in
    let here : contains x t.queue.deque ≡ true =
      ap (contains x) e ∙ ground (arith, str_eq_iff x x) in
    record {
      named = ground (arith, named, ap (contains "") e, str_eq_iff "" x, str_eq_iff x "");
      waiting = waiting_good t.graph (get_node t.graph x) x false refl (rw here at (at x));
      once = d.0;
      rest_named = ground (arith, named, ap (contains "") e);
    }

none_queued : (q : MessageNodeQueue) → q.deque ≡ [] → (x : String) → contains x q.deque ≡ false
unfolding contains
none_queued q e x = ap (contains x) e

pub claim_next-Returns :
    (fuel : ℕ) (t : MessageTree) (next_id : String) (l : List String)
    → t.queue.deque ≡ l
    → IsReleased t
    → Returns (claim_next (suc fuel) t next_id) (λ r. IsConsistent r.0 × Handover l next_id r)
unfolding claim_next
claim_next-Returns fuel t next_id [] e (v, at, named, idle) = rw (pop_empty t.queue e) (
  record {
    queue = v;
    at = λ x. rw idle (at x);
    named = named;
    idle = λ x. ground (arith, none_queued t.queue e x);
  },
  (refl, idle, e),
)
claim_next-Returns fuel t next_id (x ∷ rest) e released =
    let (v, at, named, idle) = released in
    let first = IsFirst-of-IsReleased t x rest e released in
    let (node, found, here, pending, status) = first.waiting in
    let q = after_pop t.queue x rest in
    let t' = record t { queue = q } in
    rw (pop_nonempty t.queue x rest e, first.named, found, pending)
      (Returns-bind (claim t' next_id x node) _ (IsClaimOf t' next_id x) _
        (claim-Returns t' next_id x node found first.once pending
          (after_pop-IsIndexed t.queue x rest e v)
          (λ y. rw idle (popped_at t.queue x y rest (get_node t.graph y) e (at y)))
          first.rest_named)
        λ (t'', c) (consistent, same, active, id, of_node). (
          consistent,
          (c, refl, of_node, id, active, ap (λ (q' : MessageNodeQueue). q'.deque) same),
        ))

released-IsGood :
    (o : Option MessageNode) (x : String) (queued active : Bool)
    → IsGood o x queued active
    → IsGood o x queued false
released-IsGood none x queued active g = (g.0, refl)
released-IsGood (some node) x queued active g = (g.0, g.1, refl, g.3)

release-IsReleased : (t : MessageTree) → IsConsistent t → IsReleased (record t { active = none })
release-IsReleased t v = (
  v.queue,
  λ x.
      released-IsGood (get_node t.graph x) x (contains x t.queue.deque) (is_active t.active x)
        (v.at x),
  v.named,
  refl,
)

-- The reported queue is the queue after the call, numbered from 1.
abbrev pub ReportsQueue : MessageTree × CompletionResult → Type 0
ReportsQueue r = (entry_ids r.1.queue ≡ r.0.queue.deque) × IsNumbered 1 r.1.queue

complete-Returns :
    (r : MessageTree × Option NodeClaim)
    → IsConsistent r.0
    → Returns (complete r) (λ s. (s.0 ≡ r.0) × (s.1.next_claim ≡ r.1) × ReportsQueue s)
unfolding complete
complete-Returns (t, next) v =
    let reports = λ (es : List QueueEntry). (entry_ids es ≡ t.queue.deque) × IsNumbered 1 es in
    Returns-bind (leaving t (queue_entries t)) _ reports _
      (Returns-leaving t (queue_entries t) reports (queue_entries-Returns t v))
      λ es h. (refl, refl, h)

-- What a finish by the holder of the active claim comes back with, from the queue that it found.
abbrev pub Finished : List String → String → MessageTree × CompletionResult → Type 0
Finished queue next_id r =
    IsConsistent r.0 × Handover queue next_id (r.0, r.1.next_claim) × ReportsQueue r

finished :
    (queue : List String) (next_id : String) (r : MessageTree × Option NodeClaim)
    → IsConsistent r.0 × Handover queue next_id r
    → Returns (complete r) (Finished queue next_id)
finished queue next_id r n =
    Returns-mono (complete r) (λ s. (s.0 ≡ r.0) × (s.1.next_claim ≡ r.1) × ReportsQueue s)
      (Finished queue next_id)
      (λ s (same, next, reports). (rw same n.0, rw (same, next) n.1, reports))
      (complete-Returns r n.0)

-- The holder of the active claim of a consistent tree finishes: the call returns a consistent tree.
-- The first of the queue gets a claim under the new id and becomes the active one, the others stay
-- queued in order; if nobody was queued, nobody is active. The result reports the new queue,
-- numbered from 1.
pub finish_and_claim_next-Handover :
    (t : MessageTree) (claim_id next_id : String)
    → IsConsistent t
    → holds t.active claim_id ≡ true
    → Returns (finish_and_claim_next t claim_id next_id) (Finished t.queue.deque next_id)
unfolding finish_and_claim_next
finish_and_claim_next-Handover t claim_id next_id v h =
    let released = record t { active = none } in
    let queue = t.queue.deque in
    rw h (
      Returns-bind (claim_next (suc (length queue)) released next_id) complete
        (λ r. IsConsistent r.0 × Handover queue next_id r) (Finished queue next_id)
        (claim_next-Returns (length queue) released next_id queue refl (release-IsReleased t v))
        (finished queue next_id))

-- A finish under any other claim id changes nothing, starts nobody, and reports the queue.
pub finish_and_claim_next-stale :
    (t : MessageTree) (claim_id next_id : String)
    → IsConsistent t
    → holds t.active claim_id ≡ false
    → Returns
        (finish_and_claim_next t claim_id next_id)
        (λ r. (r.0 ≡ t) × (r.1.next_claim ≡ none) × ReportsQueue r)
unfolding finish_and_claim_next
finish_and_claim_next-stale t claim_id next_id v h = rw h (complete-Returns (t, none) v)
