-- ===== src/Hierarchy.antt =====
-- app/services/hierarchy_service.py: the tree of a user's conversations, derived from the catalog.
-- `HierarchyService.load` reads the catalog first; the list that it reads is an argument here.
mod Measure
pub mod Walks
pub mod Subtree
pub mod Children
pub mod ScopeIds
use conversation_service.Prelude.{
  ℕ, zero, suc, ◌+◌, Bool, true, false, not, ◌&&◌, ◌||◌, Option, none, some, List, [], ◌∷◌, ◌++◌,
  ltb, leb, ◌==◌, if◌then◌else◌, get_or, is_some, length, keep, contains,
}
use conversation_service.Prelude.Dict
use conversation_service.Prelude.Dict.{Dict}
use conversation_service.Model.{Uuid, Conversation}

pub record Hierarchy : Type 0 where
  pub nodes : Dict Conversation
  pub children : Dict (List Uuid)

-- `cid in self.nodes`
abbrev pub in_nodes : Hierarchy → Uuid → Bool
in_nodes h cid = is_some (Dict.get h.nodes cid)

-- `self.children.get(cid, [])`
abbrev pub children_of : Hierarchy → Uuid → List Uuid
children_of h cid = get_or (Dict.get h.children cid) []

-- A pair of `root_of`, or the `KeyError` of `self.nodes[current]`.
pub data Root : Type 0 where
  key_error : Root
  root : Uuid → Option Uuid → Root

-- The loop of `root_of`. `none`: the fuel ran out.
unfoldable pub root_from : Hierarchy → ℕ → List Uuid → Uuid → Option Root
root_from h zero seen current = none
root_from h (suc fuel) seen current = elim (Dict.get h.nodes current) [
  | none ↦ some key_error
  | some c ↦ elim c.parent_conversation_id [
    | none ↦ some (root current none)
    | some parent ↦
        let next = root_from h fuel (current ∷ seen) parent in
        if not (in_nodes h parent)
        then some (root current (some parent))
        else if contains parent (current ∷ seen)
        then some (root current (some parent))
        else next
  ]
]

-- One round for each node is enough.
unfoldable pub root_of : Hierarchy → Uuid → Option Root
unfolding root_from
root_of h cid = root_from h (suc (length h.nodes)) [] cid

-- The loop of `subtree`; the top of the stack is the head, so `extend(reversed(...))` is `++`.
unfoldable pub subtree_from : Hierarchy → ℕ → List Uuid → List Uuid → List Uuid → Option (List Uuid)
subtree_from h zero seen order stack = none
subtree_from h (suc fuel) seen order [] = some order
subtree_from h (suc fuel) seen order (cid ∷ stack) =
    let skip = subtree_from h fuel seen order stack in
    let visit = subtree_from h fuel (cid ∷ seen) (order ++ cid ∷ []) (children_of h cid ++ stack) in
    if contains cid seen || not (in_nodes h cid) then skip else visit

-- How many children the nodes that are not in `seen` have.
unfoldable pub waiting : Hierarchy → List Uuid → List Uuid → ℕ
waiting h seen [] = 0
waiting h seen (k ∷ keys) =
    let rest = waiting h seen keys in
    if contains k seen then rest else length (children_of h k) + rest

-- One round for the root, one for each child of a node, and one to see the empty stack.
unfoldable pub subtree : Hierarchy → Uuid → Option (List Uuid)
unfolding subtree_from
subtree h root_id =
    subtree_from h (suc (suc (waiting h [] (Dict.keys h.nodes)))) [] [] (root_id ∷ [])

-- The loop of `depth_of`.
unfoldable pub depth_from : Hierarchy → ℕ → Uuid → ℕ → Uuid → List Uuid → Option ℕ
depth_from h zero root_id depth current seen = none
depth_from h (suc fuel) root_id depth current seen =
    if (current == root_id) || contains current seen
    then some depth
    else elim (Dict.get h.nodes current) [
      | none ↦ none
      | some c ↦ elim c.parent_conversation_id [
        | none ↦ some depth
        | some parent ↦
            let next = depth_from h fuel root_id (depth + 1) parent (current ∷ seen) in
            if in_nodes h parent then next else some depth
      ]
    ]

unfoldable pub depth_of : Hierarchy → Uuid → Uuid → Option ℕ
unfolding depth_from
depth_of h cid root_id = depth_from h (suc (suc (length h.nodes))) root_id 0 cid []

-- The sort key `(created_at, str(conversation_id))`: ids of one width compare as numbers.
abbrev before : Conversation → Conversation → Bool
before a b =
    ltb a.created_at b.created_at
    || ((a.created_at == b.created_at) && leb a.conversation_id b.conversation_id)

insert_sorted : Conversation → List Conversation → List Conversation
insert_sorted c [] = c ∷ []
insert_sorted c (d ∷ ds) =
    let rest = insert_sorted c ds in if before c d then c ∷ d ∷ ds else d ∷ rest

unfoldable pub sort_oldest : List Conversation → List Conversation
unfolding insert_sorted
sort_oldest [] = []
sort_oldest (c ∷ cs) = insert_sorted c (sort_oldest cs)

-- `{c.conversation_id: c for c in conversations}`
unfoldable pub nodes_from : Dict Conversation → List Conversation → Dict Conversation
nodes_from d [] = d
nodes_from d (c ∷ cs) = nodes_from (Dict.put d c.conversation_id c) cs

-- `children.setdefault(parent, []).append(c.conversation_id)`
unfoldable pub add_child : Dict Conversation → Dict (List Uuid) → Conversation → Dict (List Uuid)
add_child nodes children c = elim c.parent_conversation_id [
  | none ↦ children
  | some parent ↦
      if is_some (Dict.get nodes parent) && not (parent == c.conversation_id)
      then Dict.put children parent (get_or (Dict.get children parent) [] ++ c.conversation_id ∷ [])
      else children
]

unfoldable pub children_from :
    Dict Conversation → Dict (List Uuid) → List Conversation → Dict (List Uuid)
children_from nodes children [] = children
children_from nodes children (c ∷ cs) = children_from nodes (add_child nodes children c) cs

unfoldable pub build_hierarchy : List Conversation → Hierarchy
build_hierarchy conversations =
    let nodes = nodes_from [] conversations in
    record { nodes = nodes; children = children_from nodes [] (sort_oldest conversations) }

-- `HierarchyService.load`, on what the catalog listed
unfoldable pub load : Uuid → List Conversation → Hierarchy
unfolding build_hierarchy
load user_id items = build_hierarchy (keep (λ c. c.user_id == user_id) items)

pub data Scope : Type 0 where
  self hierarchy auto : Scope

-- `scope = "hierarchy" if ... is None else "self"`
abbrev resolve_auto : Scope → Conversation → Scope
resolve_auto auto c = if is_some c.parent_conversation_id then self else hierarchy
resolve_auto s c = s

abbrev is_self : Scope → Bool
is_self self = true
is_self _ = false

-- `none`: a walk that did not end or that raised a `KeyError`.
unfoldable pub scope_ids : Hierarchy → Uuid → Scope → Option (List Uuid)
scope_ids h cid scope = elim (Dict.get h.nodes cid) [
  | none ↦ some (if is_self scope then cid ∷ [] else [])
  | some c ↦
      if is_self (resolve_auto scope c)
      then some (cid ∷ [])
      else elim (root_of h cid) [ some (root r missing) ↦ subtree h r | _ ↦ none ]
]
