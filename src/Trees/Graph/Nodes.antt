-- ===== src/Trees/Graph/Nodes.antt =====
-- What the operations of graph.py do to the node that stands at an id.
use mathlib.Core.Option
use luicode.Base.{string_eq, true, false, String, some, ◌≡◌, arith, ◌==◌, if◌then◌else◌, str_eq_iff}
use luicode.Base.Dict.{has, insert, lookup-modify, lookup-insert}
use luicode.Base.Outcome.{ok, ok_first}
use luicode.Trees.Node.{MessageScope}
use luicode.Trees.Graph.{MessageTreeGraph, get_node, add_node, check_new_node, new_node, add_child}

-- The ids of a new node that the tests let through.
pub record IsNew (g : MessageTreeGraph) (node_id status parent_id : String) : Type 0 where
  pub parent : has parent_id g.nodes ≡ true
  pub fresh : has node_id g.nodes ≡ false
  pub distinct : (status == node_id) ≡ false
  pub not_status : has node_id g.status_to_node ≡ false
  pub fresh_status : has status g.status_to_node ≡ false
  pub not_node : has status g.nodes ≡ false

pub check_new_node-IsNew :
    (g : MessageTreeGraph) (node_id : String) (scope : MessageScope)
    (status parent_id parent_reference : String)
    → check_new_node g node_id scope status parent_id parent_reference ≡ ok tt
    → IsNew g node_id status parent_id
unfolding check_new_node
check_new_node-IsNew g node_id scope status parent_id parent_reference h = record {
  parent = ground arith;
  fresh = ground arith;
  distinct = ground arith;
  not_status = ground arith;
  fresh_status = ground arith;
  not_node = ground arith;
}

pub lookup-add_node :
    (g : MessageTreeGraph) (node_id : String) (scope : MessageScope)
    (prompt status parent_id parent_reference x : String) (g' : MessageTreeGraph)
    → add_node g node_id scope prompt status parent_id parent_reference ≡ ok g'
    → IsNew g node_id status parent_id
      × (get_node g' x ≡ (
          if node_id == x
          then some (new_node node_id scope prompt status parent_id parent_reference)
          else if parent_id == x
          then Option.map (add_child node_id) (get_node g x)
          else get_node g x))
unfolding add_node
lookup-add_node g node_id scope prompt status parent_id parent_reference x g' h =
    let checked = ok_first _ (check_new_node g node_id scope status parent_id parent_reference) h in
    let new = check_new_node-IsNew g node_id scope status parent_id parent_reference checked.1.0 in
    let node = new_node node_id scope prompt status parent_id parent_reference in
    (
      new,
      ground (
        arith,
        checked.1.1,
        new.parent,
        new.fresh,
        lookup-modify parent_id x (add_child node_id) (insert node_id node g.nodes),
        lookup-insert node_id x node g.nodes,
        str_eq_iff node_id x,
        str_eq_iff parent_id x,
      ),
    )
