-- ===== src/Hierarchy/Subtree.antt =====
-- `subtree`: the end of the walk down, its nodes and their order.
use conversation_service.Prelude.{
  ℕ, zero, suc, ◌+◌, ◌<◌, ◌≡◌, refl, ◌∙◌, true, false, not, ◌||◌, Option, some, ◌⊎◌, inl, inr, List,
  [], ◌∷◌, ◌++◌, arith, ==_refl, Bool-cases, length, length-append, contains, contains-append,
  Unique, All,
}
use mathlib.Core.List.{reverse, reverse-append}
use conversation_service.Prelude.Dict
use conversation_service.Prelude.Dict.{contains-keys}
use conversation_service.Model.{Uuid}
use conversation_service.Hierarchy.{
  Hierarchy, in_nodes, children_of, waiting, subtree_from, subtree,
}
use conversation_service.Hierarchy.Measure.{waiting-cons}

-- Each id is the root or a child of an id visited before it; the newest stands first.
abbrev pub ParentsFirst : Hierarchy → Uuid → List Uuid → Type 0
ParentsFirst h r [] = Unit
ParentsFirst h r (x ∷ older) =
    ((x ≡ r) ⊎ ((p : Uuid) × (contains p older ≡ true) × (contains x (children_of h p) ≡ true)))
    × ParentsFirst h r older

-- What the walk has visited, newest first.
pub record Visited (h : Hierarchy) (r : Uuid) (seen : List Uuid) : Type 0 where
  pub once : Unique seen
  pub known : All (λ x. in_nodes h x ≡ true) seen
  pub parents_first : ParentsFirst h r seen

-- Every known child of a visited id, and the root, is visited or waits on the stack.
pub record Pending (h : Hierarchy) (r : Uuid) (seen stack : List Uuid) : Type 0 where
  pub of_root : in_nodes h r ≡ true → (contains r seen || contains r stack) ≡ true
  pub of_child :
      (p x : Uuid)
      → contains p seen ≡ true
      → contains x (children_of h p) ≡ true
      → in_nodes h x ≡ true
      → (contains x seen || contains x stack) ≡ true
  pub from :
      (x : Uuid)
      → contains x stack ≡ true
      → (x ≡ r) ⊎ ((p : Uuid) × (contains p seen ≡ true) × (contains x (children_of h p) ≡ true))

skip_step :
    (h : Hierarchy) (r c : Uuid) (seen stack : List Uuid)
    → (contains c seen || not (in_nodes h c)) ≡ true
    → Pending h r seen (c ∷ stack)
    → Pending h r seen stack
skip_step h r c seen stack skip w = record {
  of_root = λ n. ground (arith, w.of_root n);
  of_child = λ p x v k n. ground (arith, w.of_child p x);
  from = λ x m. w.from x (ground arith);
}

visit_from :
    (h : Hierarchy) (r c : Uuid) (seen stack : List Uuid)
    → Pending h r seen (c ∷ stack)
    → (x : Uuid) → contains x (children_of h c ++ stack) ≡ true
    → (x ≡ r)
      ⊎ ((p : Uuid) × (contains p (c ∷ seen) ≡ true) × (contains x (children_of h p) ≡ true))
visit_from h r c seen stack w x m = elim (Bool-cases (contains x (children_of h c))) [
  | inl k ↦ inr (c, rw ==_refl, k)
  | inr k ↦ elim (w.from x (ground (arith, contains-append x (children_of h c) stack))) [
    | inl e ↦ inl e
    | inr (p, v, q) ↦ inr (p, ground arith, q)
  ]
]

visit_step :
    (h : Hierarchy) (r c : Uuid) (seen stack : List Uuid)
    → Pending h r seen (c ∷ stack)
    → Pending h r (c ∷ seen) (children_of h c ++ stack)
visit_step h r c seen stack w = record {
  of_root = λ n. ground (arith, w.of_root n, contains-append r (children_of h c) stack);
  of_child = λ p x v k n. ground (arith, w.of_child p x, contains-append x (children_of h c) stack);
  from = visit_from h r c seen stack w;
}

visit_shorter :
    (h : Hierarchy) (c : Uuid) (seen stack : List Uuid) (fuel : ℕ)
    → (contains c seen || not (in_nodes h c)) ≡ false
    → waiting h seen (Dict.keys h.nodes) + suc (length stack) < suc fuel
    → waiting h (c ∷ seen) (Dict.keys h.nodes) + length (children_of h c ++ stack) < fuel
visit_shorter h c seen stack fuel new enough = omega (
  arith,
  length-append (children_of h c) stack,
  waiting-cons h c seen (Dict.keys h.nodes) (contains-keys h.nodes c ∙ ground arith) (ground arith),
)

visit-Visited :
    (h : Hierarchy) (r c : Uuid) (seen stack : List Uuid)
    → (contains c seen || not (in_nodes h c)) ≡ false
    → Pending h r seen (c ∷ stack)
    → Visited h r seen
    → Visited h r (c ∷ seen)
visit-Visited h r c seen stack new w v = record {
  once = (ground arith, v.once);
  known = (ground arith, v.known);
  parents_first = (w.from c (rw ==_refl), v.parents_first);
}

-- What `subtree` returns: the visited ids in the order of the visits, and nothing reachable is left.
abbrev pub Walked : Hierarchy → Uuid → Option (List Uuid) → Type 0
Walked h r result =
    (seen : List Uuid) × (result ≡ some (reverse seen)) × Visited h r seen × Pending h r seen []

module _ (h : Hierarchy) (r : Uuid) where
  subtree_from-Walked :
      (fuel : ℕ) (seen stack : List Uuid)
      → waiting h seen (Dict.keys h.nodes) + length stack < fuel
      → Visited h r seen
      → Pending h r seen stack
      → Walked h r (subtree_from h fuel seen (reverse seen) stack)
  unfolding subtree_from
  subtree_from-Walked zero seen stack enough v w = elim enough [ ]
  subtree_from-Walked (suc fuel) seen [] enough v w = (seen, refl, v, w)
  subtree_from-Walked (suc fuel) seen (c ∷ stack) enough v w =
      elim (Bool-cases (contains c seen || not (in_nodes h c))) [
        | inl skip ↦ rw skip (
            subtree_from-Walked fuel seen stack (omega arith) v (skip_step h r c seen stack skip w))
        | inr new ↦ rw new (
            rw (← reverse-append (c ∷ []) seen) (
              subtree_from-Walked fuel (c ∷ seen) (children_of h c ++ stack)
                (visit_shorter h c seen stack fuel new enough)
                (visit-Visited h r c seen stack new w v) (visit_step h r c seen stack w)))
      ]

-- The walk down from any id ends and returns the visited ids in the order of the visits: each
-- once, all in the catalog, each but the root after one that names it as a child; and the root (if
-- it is in the catalog) and every child in the catalog of a visited id has been visited.
pub subtree_total : (h : Hierarchy) (r : Uuid) → Walked h r (subtree h r)
unfolding subtree
subtree_total h r =
    subtree_from-Walked h r (suc (suc (waiting h [] (Dict.keys h.nodes)))) [] (r ∷ []) (omega arith)
      (record { once = tt; known = tt; parents_first = tt })
      (record {
        of_root = λ n. rw ==_refl;
        of_child = λ p x v k n. cc;
        from = λ x m. inl (ground arith);
      })
