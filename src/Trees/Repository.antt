-- ===== src/Trees/Repository.antt =====
-- `TreeRepository` of src/luicode/messaging/trees/repository.py: the trees by identity, and the index
-- from the ids of prompts and status messages to them.
pub mod References
use luicode.Base.{
  ◌&&◌, ◌||◌, Bool, Eq, List, Option, String, [], arith, false, if◌then◌else◌, length, none, not,
  some, str_eq_iff, string_eq, true, ℕ, ◌==◌, ◌∷◌, ◌≡◌, ◌↔◌, is_some,
}
use luicode.Base.Dict.{Dict, lookup, has, insert, erase, values}
use luicode.Base.Outcome.{Outcome, ok, raised, raise_if, ◌>>=◌, ◌>>◌}
use luicode.Trees.Node.{MessageScope, TreeIdentity, same_scope}
use luicode.Trees.Runtime.{MessageTree}

-- The ValueErrors of the repository.
pub data RepositoryError : Type 0 where
  tree_exists already_registered : RepositoryError

-- `(scope, reference_id)`
pub record Reference : Type 0 where
  pub scope : MessageScope
  pub reference_id : String

same_scope_iff : (a b : MessageScope) → (same_scope a b ≡ true) ↔ (a ≡ b)
same_scope_iff a b =
    ground (arith, str_eq_iff a.platform b.platform, str_eq_iff a.chat_id b.chat_id)

abbrev pub same_identity : TreeIdentity → TreeIdentity → Bool
same_identity a b = same_scope a.scope b.scope && a.root_id == b.root_id

pub same_identity_iff : (a b : TreeIdentity) → (same_identity a b ≡ true) ↔ (a ≡ b)
same_identity_iff a b =
    ground (arith, same_scope_iff a.scope b.scope, str_eq_iff a.root_id b.root_id)

abbrev pub same_reference : Reference → Reference → Bool
same_reference a b = same_scope a.scope b.scope && a.reference_id == b.reference_id

pub same_reference_iff : (a b : Reference) → (same_reference a b ≡ true) ↔ (a ≡ b)
same_reference_iff a b =
    ground (arith, same_scope_iff a.scope b.scope, str_eq_iff a.reference_id b.reference_id)

instance abbrev pub identity_eq : Eq TreeIdentity
identity_eq = record { agree = same_identity; agree_iff = same_identity_iff }

instance abbrev pub reference_eq : Eq Reference
reference_eq = record { agree = same_reference; agree_iff = same_reference_iff }

pub record TreeRepository : Type 0 where
  pub trees : Dict TreeIdentity MessageTree
  pub reference_to_tree : Dict Reference TreeIdentity

-- `__init__`
abbrev pub empty : TreeRepository
empty = record { trees = []; reference_to_tree = [] }

abbrev pub get_tree : TreeRepository → TreeIdentity → Option MessageTree
get_tree r identity = lookup identity r.trees

abbrev tree_of : TreeRepository → Option TreeIdentity → Option MessageTree
tree_of r none = none
tree_of r (some identity) = get_tree r identity

abbrev pub owner_of : TreeRepository → MessageScope → String → Option TreeIdentity
owner_of r scope reference_id =
    lookup (record { scope = scope; reference_id = reference_id }) r.reference_to_tree

unfoldable pub get_tree_for_reference : TreeRepository → MessageScope → String → Option MessageTree
get_tree_for_reference r scope reference_id = tree_of r (owner_of r scope reference_id)

unfoldable pub has_reference : TreeRepository → MessageScope → String → Bool
has_reference r scope reference_id = is_some (owner_of r scope reference_id)

abbrev pub put_reference : TreeIdentity → String → TreeRepository → TreeRepository
put_reference identity reference_id r = record r {
  reference_to_tree =
      insert (record { scope = identity.scope; reference_id = reference_id }) identity
        r.reference_to_tree;
}

unfoldable pub register_node :
    TreeRepository → TreeIdentity → String → String → Outcome RepositoryError TreeRepository
unfolding has_reference
register_node r identity node_id status = do
  raise_if (has_reference r identity.scope node_id || has_reference r identity.scope status)
      already_registered
  ok (put_reference identity status (put_reference identity node_id r))

abbrev pub store_tree : MessageTree → TreeRepository → TreeRepository
store_tree tree r = record r { trees = insert tree.graph.identity tree r.trees }

unfoldable pub add_tree :
    TreeRepository → MessageTree → String → String → Outcome RepositoryError TreeRepository
unfolding register_node
add_tree r tree node_id status = do
  raise_if (is_some (get_tree r tree.graph.identity)) tree_exists
  registered ← register_node r tree.graph.identity node_id status
  ok (store_tree tree registered)

abbrev pub owned_by : TreeIdentity → Option TreeIdentity → Bool
owned_by identity none = false
owned_by identity (some owner) = owner == identity

-- One round of the loop of `unregister_references`.
abbrev pub unregister : TreeIdentity → String → TreeRepository → TreeRepository
unregister identity reference_id r =
    if owned_by identity (owner_of r identity.scope reference_id)
    then record r {
      reference_to_tree =
          erase (record { scope = identity.scope; reference_id = reference_id })
            r.reference_to_tree;
    }
    else r

unfoldable pub unregister_references : TreeRepository → TreeIdentity → List String → TreeRepository
unregister_references r identity [] = r
unregister_references r identity (id ∷ ids) =
    unregister_references (unregister identity id r) identity ids

-- `{key: owner for key, owner in ... if owner != identity}`
unfoldable pub without_owner :
    TreeIdentity → Dict Reference TreeIdentity → Dict Reference TreeIdentity
without_owner identity [] = []
without_owner identity ((key, owner) ∷ d) =
    let rest = without_owner identity d in if owner == identity then rest else (key, owner) ∷ rest

abbrev pub removed :
    TreeRepository → TreeIdentity → Option MessageTree → TreeRepository × Option MessageTree
removed r identity none = (r, none)
removed r identity (some tree) = (
  record {
    trees = erase identity r.trees;
    reference_to_tree = without_owner identity r.reference_to_tree;
  },
  some tree,
)

unfoldable pub remove_tree : TreeRepository → TreeIdentity → TreeRepository × Option MessageTree
unfolding without_owner
remove_tree r identity = removed r identity (get_tree r identity)

abbrev pub trees : TreeRepository → List MessageTree
trees r = values r.trees

abbrev pub tree_count : TreeRepository → ℕ
tree_count r = length r.trees
