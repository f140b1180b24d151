-- ===== src/Trees/Queue.antt =====
-- src/luicode/messaging/trees/queue.py: the FIFO of a tree, a deque with a set as its index.
pub mod Fifo
use luicode.Base.{
  string_eq, ℕ, Bool, true, false, String, Option, none, some, List, [], ◌∷◌, ◌++◌, contains,
  without, length, if◌then◌else◌,
}

pub record MessageNodeQueue : Type 0 where
  pub deque : List String
  pub set : List String

-- `self._set.add(item)`
set_add : String → List String → List String
set_add item s = if contains item s then s else item ∷ s

abbrev pub empty : MessageNodeQueue
empty = record { deque = []; set = [] }

unfoldable pub put : MessageNodeQueue → String → MessageNodeQueue × Bool
unfolding set_add
put q item =
    if contains item q.set
    then (q, false)
    else (record q { deque = q.deque ++ item ∷ []; set = set_add item q.set }, true)

-- `self._deque.popleft()` and `self._set.discard(item)`
pop_front : MessageNodeQueue → List String → MessageNodeQueue × Option String
pop_front q [] = (q, none)
pop_front q (item ∷ rest) = (record q { deque = rest; set = without item q.set }, some item)

unfoldable pub pop : MessageNodeQueue → MessageNodeQueue × Option String
unfolding pop_front
pop q = pop_front q q.deque

abbrev pub qsize : MessageNodeQueue → ℕ
qsize q = length q.deque

abbrev pub items : MessageNodeQueue → List String
items q = q.deque

unfoldable pub remove : MessageNodeQueue → String → MessageNodeQueue × Bool
remove q item =
    if contains item q.set
    then (record q { set = without item q.set; deque = without item q.deque }, true)
    else (q, false)

unfoldable pub drain : MessageNodeQueue → MessageNodeQueue × List String
drain q = (record q { deque = []; set = [] }, q.deque)

-- `__init__(items)`
put_each : MessageNodeQueue → List String → MessageNodeQueue
put_each q [] = q
put_each q (item ∷ rest) = put_each (put q item).0 rest

unfoldable pub init : List String → MessageNodeQueue
unfolding put_each
init = put_each empty
