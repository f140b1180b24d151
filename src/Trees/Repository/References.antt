-- ===== src/Trees/Repository/References.antt =====
-- The index of the repository against its trees.
use luicode.Base.{
  List, Option, String, [], arith, false, if◌then◌else◌, none, some, string_eq, true, ◌∷◌, ◌≡◌, ◌≢◌,
  is_some, refl, sym, subst, Bool, Bool-cases, inl, inr, ◌==◌, ◌∙◌,
}
use luicode.Base.Dict.{Dict, lookup, has, insert, erase, lookup-insert, lookup-erase}
use luicode.Base.Outcome.{ok}
use luicode.Trees.Node.{MessageScope, TreeIdentity}
use luicode.Trees.Runtime.{MessageTree}
use luicode.Trees.Repository.{
  same_reference, TreeRepository, Reference, identity_eq, reference_eq, same_identity_iff,
  same_reference_iff, empty, get_tree, owner_of, get_tree_for_reference, has_reference,
  register_node, add_tree, unregister_references, unregister, remove_tree, removed, without_owner,
  put_reference, store_tree,
}

-- Every entry of the index belongs to a tree that is stored, in the scope of the entry.
pub record IsEntry (trees : Dict TreeIdentity MessageTree) (key : Reference) (owner : TreeIdentity)
    : Type 0 where
  pub scoped : owner.scope ≡ key.scope
  pub stored : has owner trees ≡ true

abbrev AllEntries : Dict TreeIdentity MessageTree → Dict Reference TreeIdentity → Type 0
AllEntries trees [] = Unit {0}
AllEntries trees ((key, owner) ∷ d) = IsEntry trees key owner × AllEntries trees d

abbrev pub IsOwned : TreeRepository → Type 0
IsOwned r = AllEntries r.trees r.reference_to_tree

insert-AllEntries :
    (trees : Dict TreeIdentity MessageTree) (key : Reference) (owner : TreeIdentity)
    (d : Dict Reference TreeIdentity)
    → IsEntry trees key owner
    → AllEntries trees d
    → AllEntries trees (insert key owner d)
unfolding insert
insert-AllEntries trees key owner [] h v = (h, tt)
insert-AllEntries trees key owner ((k, o) ∷ d) h v =
    elim (same_reference k key)
      as (λ b. AllEntries trees (if b then (key, owner) ∷ d else (k, o) ∷ insert key owner d)) [
        | true ↦ (h, v.1)
        | false ↦ (v.0, insert-AllEntries trees key owner d h v.1)
      ]

erase-AllEntries :
    (trees : Dict TreeIdentity MessageTree) (key : Reference) (d : Dict Reference TreeIdentity)
    → AllEntries trees d
    → AllEntries trees (erase key d)
unfolding erase
erase-AllEntries trees key [] v = v
erase-AllEntries trees key ((k, o) ∷ d) v =
    let rest = erase-AllEntries trees key d v.1 in
    elim (same_reference k key)
      as (λ b. AllEntries trees (if b then erase key d else (k, o) ∷ erase key d)) [
        | true ↦ rest
        | false ↦ (v.0, rest)
      ]

-- With more trees the entries stay owned.
grow-AllEntries :
    (trees more : Dict TreeIdentity MessageTree) (d : Dict Reference TreeIdentity)
    → ((i : TreeIdentity) → has i trees ≡ true → has i more ≡ true)
    → AllEntries trees d
    → AllEntries more d
grow-AllEntries trees more [] h v = v
grow-AllEntries trees more ((k, o) ∷ d) h v =
    (record { scoped = v.0.scoped; stored = h o v.0.stored }, grow-AllEntries trees more d h v.1)

-- The entries of the other trees outlive a tree that goes.
without_owner-AllEntries :
    (trees : Dict TreeIdentity MessageTree) (identity : TreeIdentity)
    (d : Dict Reference TreeIdentity)
    → AllEntries trees d
    → AllEntries (erase identity trees) (without_owner identity d)
unfolding without_owner
without_owner-AllEntries trees identity [] v = v
without_owner-AllEntries trees identity ((k, o) ∷ d) v = ground (
  arith,
  without_owner-AllEntries trees identity d v.1,
  lookup-erase identity o trees,
  same_identity_iff o identity,
  same_identity_iff identity o,
  v.0.scoped,
  v.0.stored,
)

-- One call of the repository that returns.
pub data Change (r : TreeRepository) : TreeRepository → Type 0 where
  adds :
      {r' : TreeRepository} (tree : MessageTree) (node_id status : String)
      → add_tree r tree node_id status ≡ ok r'
      → Change r r'
  registers :
      {r' : TreeRepository} (identity : TreeIdentity) (node_id status : String)
      → register_node r identity node_id status ≡ ok r'
      → Change r r'
  unregisters :
      (identity : TreeIdentity) (ids : List String)
      → Change r (unregister_references r identity ids)
  removes : (identity : TreeIdentity) → Change r (remove_tree r identity).0

pub data Changes : TreeRepository → Type 0 where
  made : Changes empty
  called : {r r' : TreeRepository} → Changes r → Change r r' → Changes r'

-- Every call of `register_node` was for a tree that was stored then. The code does not test that; the
-- manager registers a reply for the tree that it has looked up under the same lock, and `add_tree`
-- stores its tree in the same call.
abbrev pub RegistersStored : {r r' : TreeRepository} → Change r r' → Type 0
RegistersStored (adds tree node_id status e) = Unit {0}
RegistersStored {r = r} (registers identity node_id status e) = has identity r.trees ≡ true
RegistersStored (unregisters identity ids) = Unit {0}
RegistersStored (removes identity) = Unit {0}

unfoldable pub AllRegisterStored : {r : TreeRepository} → Changes r → Type 0
AllRegisterStored made = Unit {0}
AllRegisterStored (called cs c) = AllRegisterStored cs × RegistersStored c

-- What `register_node` leaves behind it.
registered :
    (r r' : TreeRepository) (identity : TreeIdentity) (node_id status : String)
    → register_node r identity node_id status ≡ ok r'
    → r' ≡ put_reference identity status (put_reference identity node_id r)
unfolding register_node has_reference
registered r r' identity node_id status h = ground (arith, h)

put_references-AllEntries :
    (r : TreeRepository) (more : Dict TreeIdentity MessageTree) (identity : TreeIdentity)
    (node_id status : String)
    → has identity more ≡ true
    → AllEntries more r.reference_to_tree
    → AllEntries more
        (put_reference identity status (put_reference identity node_id r)).reference_to_tree
put_references-AllEntries r more identity node_id status h v =
    insert-AllEntries more (record { scope = identity.scope; reference_id = status }) identity _
      (record { scoped = refl; stored = h })
      (insert-AllEntries more (record { scope = identity.scope; reference_id = node_id }) identity
        r.reference_to_tree (record { scoped = refl; stored = h }) v)

register_node-IsOwned :
    (r r' : TreeRepository) (identity : TreeIdentity) (node_id status : String)
    → has identity r.trees ≡ true
    → register_node r identity node_id status ≡ ok r'
    → IsOwned r
    → IsOwned r'
register_node-IsOwned r r' identity node_id status h e v =
    subst IsOwned (sym (registered r r' identity node_id status e))
      (put_references-AllEntries r r.trees identity node_id status h v)

-- What `add_tree` leaves behind it.
added :
    (r r' : TreeRepository) (tree : MessageTree) (node_id status : String)
    → add_tree r tree node_id status ≡ ok r'
    → r'
      ≡ store_tree tree
          (put_reference tree.graph.identity status (put_reference tree.graph.identity node_id r))
unfolding add_tree register_node has_reference
added r r' tree node_id status h = ground (arith, h)

add_tree-IsOwned :
    (r r' : TreeRepository) (tree : MessageTree) (node_id status : String)
    → add_tree r tree node_id status ≡ ok r'
    → IsOwned r
    → IsOwned r'
add_tree-IsOwned r r' tree node_id status e v =
    let identity = tree.graph.identity in
    let more = insert identity tree r.trees in
    let grown =
      grow-AllEntries r.trees more r.reference_to_tree
        (λ i h. ground (arith, h, lookup-insert identity i tree r.trees)) v in
    subst IsOwned (sym (added r r' tree node_id status e)) (
      put_references-AllEntries r more identity node_id status
        (ground (
          arith,
          lookup-insert identity identity tree r.trees,
          same_identity_iff identity identity,
        ))
        grown)

unregister-IsOwned :
    (r : TreeRepository) (identity : TreeIdentity) (id : String)
    → IsOwned r
    → IsOwned (unregister identity id r)
unregister-IsOwned r identity id v = ground (
  arith,
  erase-AllEntries r.trees (record { scope = identity.scope; reference_id = id })
      r.reference_to_tree v,
)

unregister_references-IsOwned :
    (ids : List String) (r : TreeRepository) (identity : TreeIdentity)
    → IsOwned r
    → IsOwned (unregister_references r identity ids)
unfolding unregister_references
unregister_references-IsOwned [] r identity v = v
unregister_references-IsOwned (id ∷ ids) r identity v =
    unregister_references-IsOwned ids (unregister identity id r) identity
      (unregister-IsOwned r identity id v)

removed-IsOwned :
    (r : TreeRepository) (identity : TreeIdentity) (o : Option MessageTree)
    → IsOwned r
    → IsOwned (removed r identity o).0
removed-IsOwned r identity none v = v
removed-IsOwned r identity (some tree) v =
    without_owner-AllEntries r.trees identity r.reference_to_tree v

Change-IsOwned :
    {r r' : TreeRepository} (c : Change r r') → RegistersStored c → IsOwned r → IsOwned r'
unfolding remove_tree
Change-IsOwned {r = r} {r' = r'} (adds tree node_id status e) h v =
    add_tree-IsOwned r r' tree node_id status e v
Change-IsOwned {r = r} {r' = r'} (registers identity node_id status e) h v =
    register_node-IsOwned r r' identity node_id status h e v
Change-IsOwned {r = r} (unregisters identity ids) h v =
    unregister_references-IsOwned ids r identity v
Change-IsOwned {r = r} (removes identity) h v = removed-IsOwned r identity (get_tree r identity) v

Changes-IsOwned : {r : TreeRepository} (cs : Changes r) → AllRegisterStored cs → IsOwned r
unfolding AllRegisterStored
Changes-IsOwned made h = tt
Changes-IsOwned (called cs c) h = Change-IsOwned c h.1 (Changes-IsOwned cs h.0)

lookup-IsEntry :
    (trees : Dict TreeIdentity MessageTree) (key : Reference) (owner : TreeIdentity)
    (d : Dict Reference TreeIdentity)
    → AllEntries trees d
    → lookup key d ≡ some owner
    → IsEntry trees key owner
unfolding lookup
lookup-IsEntry trees key owner [] v h = ground (arith, h)
lookup-IsEntry trees key owner ((k, o) ∷ d) v h = ground (
  arith,
  h,
  lookup-IsEntry trees key owner d v.1,
  same_reference_iff k key,
  v.0.scoped,
  v.0.stored,
)

-- No reference dangles: after any sequence of calls from the empty repository, in which every call of
-- `register_node` is for a tree that is stored at the time, an id that is in the index of a scope
-- belongs to a tree of that scope, and looking it up finds that tree.
pub Changes-finds_owner :
    (r : TreeRepository) (scope : MessageScope) (id : String) (owner : TreeIdentity)
    (cs : Changes r)
    → AllRegisterStored cs
    → owner_of r scope id ≡ some owner
    → (owner.scope ≡ scope)
      × (is_some (get_tree_for_reference r scope id) ≡ true)
      × (get_tree_for_reference r scope id ≡ get_tree r owner)
unfolding get_tree_for_reference
Changes-finds_owner r scope id owner cs tended h =
    let entry =
      lookup-IsEntry r.trees (record { scope = scope; reference_id = id }) owner r.reference_to_tree
        (Changes-IsOwned cs tended) h in
    (entry.scoped, ground (arith, h, entry.stored), ground (arith, h))

removed_stored :
    (r : TreeRepository) (identity : TreeIdentity)
    → get_tree (remove_tree r identity).0 identity ≡ none
unfolding remove_tree
removed_stored r identity =
    ground (arith, lookup-erase identity identity r.trees, same_identity_iff identity identity)

passed :
    (at : Bool) (o owner : TreeIdentity) (below : Option TreeIdentity)
    → o ≢ owner
    → (if at then some o else below) ≡ some owner
    → below ≡ some owner
passed at o owner below differ h = ground (arith, differ, h)

kept_below :
    (at : Bool) (o owner : TreeIdentity) (below rest : Option TreeIdentity)
    → (below ≡ some owner → rest ≡ some owner)
    → (if at then some o else below) ≡ some owner
    → (if at then some o else rest) ≡ some owner
kept_below true o owner below rest k h = h
kept_below false o owner below rest k h = k h

without_owner_others :
    (identity owner : TreeIdentity) (key : Reference) (d : Dict Reference TreeIdentity)
    → owner ≢ identity
    → lookup key d ≡ some owner
    → lookup key (without_owner identity d) ≡ some owner
unfolding without_owner lookup
without_owner_others identity owner key [] other h = h
without_owner_others identity owner key ((k, o) ∷ d) other h =
    let rest = without_owner_others identity owner key d other in
    elim (Bool-cases (o == identity)) [
      | inl gone ↦
          let same : o ≡ identity = (same_identity_iff o identity).0 gone in
          rw gone (rest (passed (k == key) o owner (lookup key d) (λ e. other (sym e ∙ same)) h))
      | inr kept ↦ rw kept (
          kept_below (k == key) o owner (lookup key d) (lookup key (without_owner identity d)) rest
            h)
    ]

removed_others :
    (r : TreeRepository) (identity owner : TreeIdentity) (key : Reference) (o : Option MessageTree)
    → owner ≢ identity
    → lookup key r.reference_to_tree ≡ some owner
    → (lookup key (removed r identity o).0.reference_to_tree ≡ some owner)
      × (get_tree (removed r identity o).0 owner ≡ get_tree r owner)
removed_others r identity owner key none other h = (h, refl)
removed_others r identity owner key (some tree) other h = (
  without_owner_others identity owner key r.reference_to_tree other h,
  ground (arith, other, lookup-erase identity owner r.trees, same_identity_iff identity owner),
)

-- A removed tree is forgotten, and it alone: after any sequence of calls from the empty repository, in
-- which every call of `register_node` is for a tree that is stored at the time, the removal of a tree
-- leaves it neither in the repository nor as the owner of any reference, while a reference of another
-- tree keeps its owner, and that tree stays as it was.
pub remove_tree-forgets :
    (r : TreeRepository) (identity : TreeIdentity) (scope : MessageScope) (id : String)
    (cs : Changes r)
    → AllRegisterStored cs
    → (get_tree (remove_tree r identity).0 identity ≡ none)
      × (owner_of (remove_tree r identity).0 scope id ≢ some identity)
      × ((owner : TreeIdentity)
          → owner ≢ identity
          → owner_of r scope id ≡ some owner
          → (owner_of (remove_tree r identity).0 scope id ≡ some owner)
            × (get_tree (remove_tree r identity).0 owner ≡ get_tree r owner))
unfolding remove_tree AllRegisterStored
remove_tree-forgets r identity scope id cs tended =
    let r' = (remove_tree r identity).0 in
    let key : Reference = record { scope = scope; reference_id = id } in
    let gone = removed_stored r identity in
    (
      gone,
      λ h.
          let entry =
            lookup-IsEntry r'.trees key identity r'.reference_to_tree
              (Changes-IsOwned (called cs (removes identity)) (tended, tt)) h in
          ground (arith, gone, entry.stored),
      λ owner other h. removed_others r identity owner key (get_tree r identity) other h,
    )
