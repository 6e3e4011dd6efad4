-- ===== src/Hierarchy/ScopeIds.antt =====
-- `scope_ids` on a catalog that `build_hierarchy` indexed.
use conversation_service.Prelude.{◌≡◌, Option, true, List, contains}
use conversation_service.Prelude.Dict
use conversation_service.Model.{Uuid, Conversation}
use conversation_service.Hierarchy.{Hierarchy, in_nodes, children_of, build_hierarchy}
use conversation_service.Hierarchy.Walks.{Ends, Ancestor}

module _ (cs : List Conversation) where
  abbrev tree : Hierarchy
  tree = build_hierarchy cs

-- `x` hangs under `r`: it is `r` or, by the links down, a child of what hangs under `r`.
pub data Under (h : Hierarchy) (r : Uuid) : Uuid → Type 0 where
  self : Under h r r
  child :
      (p : Uuid) {x : Uuid}
      → Under h r p
      → contains x (children_of h p) ≡ true
      → in_nodes h x ≡ true
      → Under h r x

-- The scope of `c`: the ids under the root that the parent links of `c` lead to, and no others.
pub record Scoped (h : Hierarchy) (c : Uuid) (ids : List Uuid) : Type 0 where
  pub top : Uuid
  pub missing : Option Uuid
  pub above : Ancestor h c top
  pub ends : Ends h c top missing
  pub whole : (x : Uuid) → Under h top x → contains x ids ≡ true
  pub only : (x : Uuid) → contains x ids ≡ true → Under h top x
  pub has_self : contains c ids ≡ true
