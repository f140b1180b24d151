-- ===== src/Trees/Graph.antt =====
-- src/luicode/messaging/trees/graph.py: the nodes of one conversation, their links and the index of
-- status messages. An exception is raised before the first write of each method, so `raised` leaves
-- the graph as it was. The loop over a stack takes fuel; `none` means that the fuel ran out.
pub mod Nodes
use luicode.Base.{
  string_eq, ℕ, zero, suc, ◌+◌, Bool, true, false, not, ◌||◌, String, Option, none, some, List, [],
  ◌∷◌, ◌++◌, reverse, length, contains, without, ◌==◌, if◌then◌else◌, is_some, truthy, Option-cases,
}
use luicode.Base.Dict.{Dict, keys, values, lookup, has, insert, erase, modify}
use luicode.Base.Outcome.{Outcome, ok, raised, raise_if, ◌>>=◌, ◌>>◌}
use luicode.Trees.Node.{
  MessageScope, TreeIdentity, MessageNode, MessageReferenceKind, TreeSnapshot, NodeSnapshot,
  pending, same_scope, truthy_id as id_truthy, node_to_snapshot,
}
use luicode.Trees.Node

-- The ValueErrors of the aggregate, one for each message.
pub data TreeError : Type 0 where
  same_prompt_and_status : TreeError
  crosses_chats : TreeError
  parent_not_found : TreeError
  reference_not_of_parent : TreeError
  node_exists : TreeError
  node_is_a_status : TreeError
  status_exists : TreeError
  status_is_a_node : TreeError
  no_status_message : TreeError
  out_of_fuel : TreeError

pub record MessageTreeGraph : Type 0 where
  pub root_id : String
  pub identity : TreeIdentity
  pub nodes : Dict String MessageNode
  pub status_to_node : Dict String String

-- `x == node_id` of an optional id
abbrev pub is_id : Option String → String → Bool
is_id none s = false
is_id (some t) s = t == s

abbrev index_of_status : Option String → String → Dict String String
index_of_status none node_id = []
index_of_status (some status) node_id = (status, node_id) ∷ []

unfoldable pub init : MessageNode → Outcome TreeError MessageTreeGraph
init root = do
  raise_if (is_id root.status_message_id root.node_id) same_prompt_and_status
  ok (record {
    root_id = root.node_id;
    identity = record { scope = root.scope; root_id = root.node_id };
    nodes = (root.node_id, root) ∷ [];
    status_to_node = index_of_status root.status_message_id root.node_id;
  })

abbrev pub get_node : MessageTreeGraph → String → Option MessageNode
get_node g node_id = lookup node_id g.nodes

-- `self._nodes.get(node_id) if node_id else None`
abbrev node_of_id : MessageTreeGraph → Option String → Option MessageNode
node_of_id g none = none
node_of_id g (some node_id) = if truthy node_id then get_node g node_id else none

abbrev parent_of : MessageTreeGraph → Option MessageNode → Option MessageNode
parent_of g none = none
parent_of g (some node) = node_of_id g node.parent_id

unfoldable pub get_parent : MessageTreeGraph → String → Option MessageNode
get_parent g node_id = parent_of g (get_node g node_id)

abbrev session_of : Option MessageNode → Option String
session_of none = none
session_of (some node) = node.session_id

unfoldable pub get_parent_session_id : MessageTreeGraph → String → Option String
unfolding get_parent
get_parent_session_id g node_id = session_of (get_parent g node_id)

unfoldable pub find_node_by_status_message : MessageTreeGraph → String → Option MessageNode
find_node_by_status_message g status = node_of_id g (lookup status g.status_to_node)

abbrev with_kind :
    MessageReferenceKind → Option MessageNode → Option (MessageNode × MessageReferenceKind)
with_kind kind none = none
with_kind kind (some node) = some (node, kind)

abbrev first_some {ℓ} : {A : Type ℓ} → Option A → Option A → Option A
first_some none b = b
first_some (some a) b = some a

unfoldable pub resolve_reference :
    MessageTreeGraph → String → Option (MessageNode × MessageReferenceKind)
unfolding find_node_by_status_message
resolve_reference g reference =
    first_some (with_kind MessageReferenceKind.prompt (get_node g reference))
      (with_kind MessageReferenceKind.status (find_node_by_status_message g reference))

-- The reference resolves to the node of that id.
abbrev pub refers_to : Option (MessageNode × MessageReferenceKind) → String → Bool
refers_to none node_id = false
refers_to (some (node, kind)) node_id = node.node_id == node_id

abbrev pub new_node : String → MessageScope → String → String → String → String → MessageNode
new_node node_id scope prompt status parent_id parent_reference = record {
  node_id = node_id;
  scope = scope;
  prompt = prompt;
  status_message_id = some status;
  state = pending;
  parent_id = some parent_id;
  parent_reference_id = some parent_reference;
  session_id = none;
  children_ids = [];
}

abbrev pub add_child : String → MessageNode → MessageNode
add_child node_id parent = record parent { children_ids = parent.children_ids ++ node_id ∷ [] }

-- The seven tests of `add_node`, in its order.
unfoldable pub check_new_node :
    MessageTreeGraph → String → MessageScope → String → String → String → Outcome TreeError Unit
unfolding resolve_reference
check_new_node g node_id scope status parent_id parent_reference = do
  raise_if (not (same_scope scope g.identity.scope)) crosses_chats
  raise_if (not (has parent_id g.nodes)) parent_not_found
  raise_if (not (refers_to (resolve_reference g parent_reference) parent_id))
      reference_not_of_parent
  raise_if (has node_id g.nodes) node_exists
  raise_if (status == node_id) same_prompt_and_status
  raise_if (has node_id g.status_to_node) node_is_a_status
  raise_if (has status g.status_to_node) status_exists
  raise_if (has status g.nodes) status_is_a_node

unfoldable pub add_node :
    MessageTreeGraph
    → String
    → MessageScope
    → String
    → String
    → String
    → String
    → Outcome TreeError MessageTreeGraph
unfolding check_new_node
add_node g node_id scope prompt status parent_id parent_reference = do
  check_new_node g node_id scope status parent_id parent_reference
  let node = new_node node_id scope prompt status parent_id parent_reference
  ok (record g {
    nodes = modify parent_id (add_child node_id) (insert node_id node g.nodes);
    status_to_node = insert status node_id g.status_to_node;
  })

abbrev pub all_nodes : MessageTreeGraph → List MessageNode
all_nodes g = values g.nodes

-- `while stack: current = stack.pop(); result.append(current); stack.extend(below current)`. The
-- head of the list is the end of the stack, where both ends meet.
unfoldable pub walk : ℕ → (String → List String) → List String → List String → Option (List String)
walk zero below stack result = none
walk (suc fuel) below [] result = some result
walk (suc fuel) below (current ∷ stack) result =
    walk fuel below (reverse (below current) ++ stack) (result ++ current ∷ [])

abbrev children_of_node : Option MessageNode → List String
children_of_node none = []
children_of_node (some node) = node.children_ids

abbrev pub children_of : MessageTreeGraph → String → List String
children_of g node_id = children_of_node (get_node g node_id)

-- One round for each node, and one to see that the stack is empty.
abbrev pub node_fuel : MessageTreeGraph → ℕ
node_fuel g = suc (length g.nodes)

unfoldable pub get_descendants : MessageTreeGraph → String → Option (List String)
unfolding walk
get_descendants g node_id =
    if has node_id g.nodes then walk (node_fuel g) (children_of g) (node_id ∷ []) [] else some []

abbrev or_empty : Option (List String) → List String
or_empty none = []
or_empty (some l) = l

-- `children.setdefault(key, []).append(value)`
append_to : String → String → Dict String (List String) → Dict String (List String)
append_to key value d = insert key (or_empty (lookup key d) ++ value ∷ []) d

abbrev append_status :
    String → Option String → Dict String (List String) → Dict String (List String)
append_status node_id none d = d
append_status node_id (some status) d = append_to node_id status d

abbrev append_reply : Option String → String → Dict String (List String) → Dict String (List String)
append_reply none node_id d = d
append_reply (some reference) node_id d = append_to reference node_id d

unfoldable pub reference_children :
    List MessageNode → Dict String (List String) → Dict String (List String)
unfolding append_to
reference_children [] d = d
reference_children (node ∷ rest) d = reference_children rest (
    append_reply node.parent_reference_id node.node_id
      (append_status node.node_id node.status_message_id d))

-- The references right below one in the platform's reply order.
abbrev pub below_reference : MessageTreeGraph → String → List String
below_reference g reference = or_empty (lookup reference (reference_children (all_nodes g) []))

-- One round for each prompt and status, and one to see that the stack is empty.
abbrev pub reference_fuel : MessageTreeGraph → ℕ
reference_fuel g = suc (length g.nodes + length g.nodes)

unfoldable pub get_reference_descendants : MessageTreeGraph → String → Option (List String)
unfolding walk resolve_reference reference_children
get_reference_descendants g reference =
    if is_some (resolve_reference g reference)
    then walk (reference_fuel g) (below_reference g) (reference ∷ []) []
    else some []

abbrev drop_child : String → MessageNode → MessageNode
drop_child node_id parent = record parent { children_ids = without node_id parent.children_ids }

abbrev drop_from_parent : Option String → String → Dict String MessageNode → Dict String MessageNode
drop_from_parent none node_id d = d
drop_from_parent (some parent_id) node_id d = modify parent_id (drop_child node_id) d

abbrev drop_status : Option String → Dict String String → Dict String String
drop_status none d = d
drop_status (some status) d = erase status d

abbrev remove_found : MessageTreeGraph → String → Option MessageNode → MessageTreeGraph
remove_found g node_id none = g
remove_found g node_id (some node) = record g {
  nodes = erase node_id (drop_from_parent node.parent_id node_id g.nodes);
  status_to_node = drop_status node.status_message_id g.status_to_node;
}

unfoldable pub remove_node : MessageTreeGraph → String → MessageTreeGraph
remove_node g node_id = remove_found g node_id (get_node g node_id)

-- The list is the order in which Python walks through the set.
unfoldable pub remove_nodes : MessageTreeGraph → List String → MessageTreeGraph
remove_nodes g [] = g
remove_nodes g (node_id ∷ rest) = remove_nodes (remove_node g node_id) rest

abbrev clear_found : MessageTreeGraph → String → Option String → MessageTreeGraph
clear_found g node_id none = g
clear_found g node_id (some status) = record g {
  nodes = modify node_id Node.clear_status g.nodes;
  status_to_node = erase status g.status_to_node;
}

abbrev status_of : Option MessageNode → Option String
status_of none = none
status_of (some node) = node.status_message_id

unfoldable pub clear_status : MessageTreeGraph → String → MessageTreeGraph
unfolding Node.clear_status
clear_status g node_id = clear_found g node_id (status_of (get_node g node_id))

-- The union of two sets of texts.
abbrev union : List String → List String → List String
union [] ys = ys
union (x ∷ xs) ys = let rest = union xs ys in if contains x rest then rest else x ∷ rest

unfoldable pub all_reference_ids : MessageTreeGraph → List String
all_reference_ids g = union (keys g.nodes) (keys g.status_to_node)

snapshot_nodes : Dict String MessageNode → Dict String NodeSnapshot
snapshot_nodes [] = []
snapshot_nodes ((node_id, node) ∷ d) = (node_id, node_to_snapshot node) ∷ snapshot_nodes d

unfoldable pub snapshot : MessageTreeGraph → TreeSnapshot
unfolding snapshot_nodes node_to_snapshot
snapshot g = record {
  scope = g.identity.scope;
  root_id = g.root_id;
  nodes = snapshot_nodes g.nodes;
}
