-- ===== src/Trees/Queue/Fifo.antt =====
-- The queue of queue.py against a plain list of distinct items.
use luicode.Base.{
  string_eq, Bool, true, false, not, String, ◌≡◌, refl, Option, none, some, List, [], ◌∷◌, ◌++◌,
  arith, contains, without, Distinct, Distinct-without, Distinct-snoc, contains-append,
  contains-without, without-absent, if◌then◌else◌, ap, ◌∙◌, ◌==◌, str_eq_iff, Bool-cases, inl, inr,
}
use mathlib.Core.Path.{ap₂}
use luicode.Trees.Queue
use luicode.Trees.Queue.{
  MessageNodeQueue, put, pop, pop_front, remove, drain, init, put_each, set_add,
}

-- The set holds what the deque holds, and the deque holds nothing twice.
pub record IsIndexed (q : MessageNodeQueue) : Type 0 where
  pub distinct : Distinct q.deque
  pub indexed : (x : String) → contains x q.set ≡ contains x q.deque

contains-set_add :
    (x item : String) (s : List String)
    → contains x (set_add item s) ≡ (if x == item then true else contains x s)
unfolding set_add contains
contains-set_add x item s = ground (arith, str_eq_iff x item)

contains-snoc :
    (x item : String) (s : List String)
    → contains x (s ++ item ∷ []) ≡ (if x == item then true else contains x s)
unfolding contains
contains-snoc x item s = ground (arith, contains-append x s (item ∷ []), str_eq_iff x item)

pub put-IsIndexed : (q : MessageNodeQueue) (item : String) → IsIndexed q → IsIndexed (put q item).0
unfolding put
put-IsIndexed q item v = elim (Bool-cases (contains item q.set)) [
  | inl old ↦ rw old v
  | inr new ↦ rw new (record {
    distinct = Distinct-snoc q.deque item (ground (arith, v.indexed item)) v.distinct;
    indexed = λ x.
        ground (arith, v.indexed x, contains-set_add x item q.set, contains-snoc x item q.deque);
  })
]

pop_front-IsIndexed :
    (q : MessageNodeQueue) (l : List String)
    → q.deque ≡ l
    → IsIndexed q
    → IsIndexed (pop_front q l).0
unfolding pop_front contains
pop_front-IsIndexed q [] e v = v
pop_front-IsIndexed q (item ∷ rest) e v =
    let d : Distinct (item ∷ rest) = rw e at v.distinct in
    record {
      distinct = d.1;
      indexed = λ x.
          let i : contains x q.set ≡ contains x (item ∷ rest) = rw e at (v.indexed x) in
          ground (arith, i, contains-without x item q.set, str_eq_iff x item, d.0);
    }

pub pop-IsIndexed : (q : MessageNodeQueue) → IsIndexed q → IsIndexed (pop q).0
unfolding pop
pop-IsIndexed q v = pop_front-IsIndexed q q.deque refl v

pub remove-IsIndexed :
    (q : MessageNodeQueue) (item : String) → IsIndexed q → IsIndexed (remove q item).0
unfolding remove
remove-IsIndexed q item v = elim (Bool-cases (contains item q.set)) [
  | inl here ↦ rw here (record {
    distinct = Distinct-without item q.deque v.distinct;
    indexed = λ x.
        ground (arith, v.indexed x, contains-without x item q.set, contains-without x item q.deque);
  })
  | inr absent ↦ rw absent v
]

pub drain-IsIndexed : (q : MessageNodeQueue) → IsIndexed (drain q).0
unfolding drain contains
drain-IsIndexed q = record { distinct = tt; indexed = λ x. refl }

pub empty-IsIndexed : IsIndexed Queue.empty
unfolding contains
empty-IsIndexed = record { distinct = tt; indexed = λ x. refl }

-- A call of a queue, and what it answers.
pub data Call : Type 0 where
  puts removes : String → Call
  pops drains : Call

pub data Reply : Type 0 where
  changed : Bool → Reply
  popped : Option String → Reply
  drained : List String → Reply

abbrev pub call : MessageNodeQueue → Call → MessageNodeQueue × Reply
call q (puts x) = ((put q x).0, changed (put q x).1)
call q (removes x) = ((remove q x).0, changed (remove q x).1)
call q pops = ((pop q).0, popped (pop q).1)
call q drains = ((drain q).0, drained (drain q).1)

-- The same calls on a plain list: no index, each test is a search.
abbrev pub list_pop : List String → List String × Reply
list_pop [] = ([], popped none)
list_pop (x ∷ l) = (l, popped (some x))

abbrev pub list_call : List String → Call → List String × Reply
list_call l (puts x) = if contains x l then (l, changed false) else (l ++ x ∷ [], changed true)
list_call l (removes x) = (without x l, changed (contains x l))
list_call l pops = list_pop l
list_call l drains = ([], drained l)

pub call-IsIndexed : (q : MessageNodeQueue) (c : Call) → IsIndexed q → IsIndexed (call q c).0
call-IsIndexed q (puts x) v = put-IsIndexed q x v
call-IsIndexed q (removes x) v = remove-IsIndexed q x v
call-IsIndexed q pops v = pop-IsIndexed q v
call-IsIndexed q drains v = drain-IsIndexed q

call-list_call :
    (q : MessageNodeQueue) (c : Call)
    → IsIndexed q
    → (((call q c).0.deque, (call q c).1) ≡ list_call q.deque c)
unfolding put pop remove drain
call-list_call q (puts x) v = ground (arith, v.indexed x)
call-list_call q (removes x) v = ground (arith, v.indexed x, without-absent x q.deque)
call-list_call q pops v = ground arith
call-list_call q drains v = refl

abbrev pub replies : MessageNodeQueue → List Call → List Reply
replies q [] = []
replies q (c ∷ cs) = (call q c).1 ∷ replies (call q c).0 cs

abbrev pub list_replies : List String → List Call → List Reply
list_replies l [] = []
list_replies l (c ∷ cs) = (list_call l c).1 ∷ list_replies (list_call l c).0 cs

-- From a queue whose set indexes its deque, any sequence of put, pop, remove and drain gets the
-- answers that a plain list of distinct items gives to the same calls.
pub replies-list_replies :
    (q : MessageNodeQueue) (cs : List Call) → IsIndexed q → replies q cs ≡ list_replies q.deque cs
replies-list_replies q [] v = refl
replies-list_replies q (c ∷ cs) v =
    let e = call-list_call q c v in
    ap₂ ◌∷◌ (ap (λ (p : List String × Reply). p.1) e) (
      replies-list_replies (call q c).0 cs (call-IsIndexed q c v)
      ∙ ap (λ (p : List String × Reply). list_replies p.0 cs) e)

-- Membership after each operation.
module _ (q : MessageNodeQueue) (v : IsIndexed q) where
  pub contains-put :
      (item x : String)
      → contains x (put q item).0.deque ≡ (if x == item then true else contains x q.deque)
  unfolding put
  contains-put item x =
      ground (arith, v.indexed item, str_eq_iff x item, contains-snoc x item q.deque)

  pub contains-remove :
      (item x : String)
      → contains x (remove q item).0.deque ≡ (if x == item then false else contains x q.deque)
  unfolding remove
  contains-remove item x =
      ground (arith, v.indexed item, str_eq_iff x item, contains-without x item q.deque)

  -- `remove` reports whether the item was there.
  pub remove_reports : (item : String) → (remove q item).1 ≡ contains item q.deque
  unfolding remove
  remove_reports item = ground (arith, v.indexed item)

  pub put_reports : (item : String) → (put q item).1 ≡ not (contains item q.deque)
  unfolding put
  put_reports item = ground (arith, v.indexed item)

  pub deque-put :
      (item : String)
      → (put q item).0.deque ≡ (if contains item q.deque then q.deque else q.deque ++ item ∷ [])
  unfolding put
  deque-put item = ground (arith, v.indexed item)

-- The queue without its first item.
abbrev pub after_pop : MessageNodeQueue → String → List String → MessageNodeQueue
after_pop q item rest = record q { deque = rest; set = without item q.set }

pub pop_nonempty :
    (q : MessageNodeQueue) (item : String) (rest : List String)
    → q.deque ≡ item ∷ rest
    → pop q ≡ (after_pop q item rest, some item)
unfolding pop
pop_nonempty q item rest e = ap (pop_front q) e

pub pop_empty : (q : MessageNodeQueue) → q.deque ≡ [] → pop q ≡ (q, none)
unfolding pop
pop_empty q e = ap (pop_front q) e

pub after_pop-IsIndexed :
    (q : MessageNodeQueue) (item : String) (rest : List String)
    → q.deque ≡ item ∷ rest
    → IsIndexed q
    → IsIndexed (after_pop q item rest)
after_pop-IsIndexed q item rest e v = rw (pop_nonempty q item rest e) at (pop-IsIndexed q v)
