-- ===== src/Hierarchy/Walks.antt =====
-- The walks up to the root, `root_of` and `depth_of`, and their fuel.
use conversation_service.Prelude.{
  ℕ, zero, suc, ◌+◌, ◌||◌, ◌≤◌, ◌<◌, ◌≡◌, refl, subst, ◌∙◌, true, false, Option, none, some, List,
  [], ◌∷◌, arith, ◌==◌, ==_iff, Bool-cases, Option-cases, inl, inr, length, contains,
}
use conversation_service.Prelude.Dict
use conversation_service.Prelude.Dict.{contains-keys}
use conversation_service.Model.{Uuid, Conversation}
use conversation_service.Hierarchy.{
  Hierarchy, in_nodes, Root, root, root_from, root_of, depth_from, depth_of,
}
use conversation_service.Hierarchy.Measure.{unseen, unseen-cons-lt}

-- The parent that the catalog names for a node.
unfoldable pub parent_of : Hierarchy → Uuid → Option Uuid
parent_of h cid = elim (Dict.get h.nodes cid) [ none ↦ none | some c ↦ c.parent_conversation_id ]

-- `a` is reached from `c` by parent links inside the catalog.
pub data Ancestor (h : Hierarchy) (c : Uuid) : Uuid → Type 0 where
  own : Ancestor h c c
  up :
      {p : Uuid} (q : Uuid)
      → Ancestor h c p
      → parent_of h p ≡ some q
      → in_nodes h q ≡ true
      → Ancestor h c q

-- Why the walk from `c` stops at `r`, with the second result.
pub data Ends (h : Hierarchy) (c r : Uuid) (missing : Option Uuid) : Type 0 where
  top : parent_of h r ≡ none → missing ≡ none → Ends h c r missing
  lost :
      (p : Uuid)
      → parent_of h r ≡ some p
      → in_nodes h p ≡ false
      → missing ≡ some p
      → Ends h c r missing
  cycle :
      (p : Uuid) → parent_of h r ≡ some p → Ancestor h c p → missing ≡ some p → Ends h c r missing

abbrev pub RootFound : Hierarchy → Uuid → Option Root → Type 0
RootFound h c result =
    (r : Uuid) × (m : Option Uuid) × (result ≡ some (root r m))
    × (in_nodes h r ≡ true)
    × Ancestor h c r
    × Ends h c r m

length-keys : (d : Dict.Dict Conversation) (s : List ℕ) → unseen s (Dict.keys d) ≤ length d
unfolding unseen
length-keys [] s = omega arith
length-keys ((k, c) ∷ d) s = ground (arith, length-keys d s)

module _ (h : Hierarchy) (c : Uuid) where
  root_from_found :
      (fuel : ℕ) (seen : List Uuid) (current : Uuid)
      → unseen seen (Dict.keys h.nodes) < fuel
      → in_nodes h current ≡ true
      → contains current seen ≡ false
      → Ancestor h c current
      → ((x : Uuid) → contains x seen ≡ true → Ancestor h c x)
      → RootFound h c (root_from h fuel seen current)
  unfolding root_from parent_of unseen
  root_from_found zero seen current enough here fresh anc all = elim enough [ ]
  root_from_found (suc fuel) seen current enough here fresh anc all =
      elim (Option-cases (Dict.get h.nodes current)) [
        | inl e ↦ cc
        | inr (n, e) ↦ elim (Option-cases n.parent_conversation_id) [
          | inl t ↦ (current, none, ground arith, here, anc, top (ground arith) refl)
          | inr (p, t) ↦ elim (Bool-cases (in_nodes h p)) [
            | inr gone ↦ (current, some p, ground arith, here, anc, lost p (ground arith) gone refl)
            | inl node ↦ elim (Bool-cases (contains p (current ∷ seen))) [
              | inl again ↦ (
                current,
                some p,
                ground arith,
                here,
                anc,
                cycle p (ground arith) (passed p again) refl,
              )
              | inr new ↦
                  let (r, m, q, there, a, stop) =
                    root_from_found fuel (current ∷ seen) p shorter node new
                      (up p anc (ground arith) node) passed in
                  (r, m, ground arith, there, a, stop)
            ]
          ]
        ]
      ]
    where
      passed : (x : Uuid) → contains x (current ∷ seen) ≡ true → Ancestor h c x
      passed x q = elim (Bool-cases (current == x)) [
        | inl e ↦ subst (Ancestor h c) ((==_iff current x).0 e) anc
        | inr e ↦ all x (ground arith)
      ]

      shorter : unseen (current ∷ seen) (Dict.keys h.nodes) < fuel
      shorter = omega (
        arith,
        unseen-cons-lt current seen (Dict.keys h.nodes) (contains-keys h.nodes current ∙ here)
            fresh,
      )

pub root_of_lem : (h : Hierarchy) (c : Uuid) → in_nodes h c ≡ true → RootFound h c (root_of h c)
unfolding root_of
root_of_lem h c here =
    root_from_found h c (suc (length h.nodes)) [] c (omega (arith, length-keys h.nodes [])) here
      refl own (λ x p. cc)

depth_from_total :
    (h : Hierarchy) (root_id : Uuid) (fuel depth : ℕ) (current : Uuid) (seen : List Uuid)
    → unseen seen (Dict.keys h.nodes) < fuel
    → in_nodes h current ≡ true
    → (d : ℕ) × (depth_from h fuel root_id depth current seen ≡ some d)
unfolding depth_from unseen
depth_from_total h root_id zero depth current seen enough here = elim enough [ ]
depth_from_total h root_id (suc fuel) depth current seen enough here =
    elim (Bool-cases ((current == root_id) || contains current seen)) [
      | inl stop ↦ (depth, rw (stop, depth_from) refl)
      | inr go ↦ elim (Option-cases (Dict.get h.nodes current)) [
        | inl e ↦ cc
        | inr (c, e) ↦ elim (Option-cases c.parent_conversation_id) [
          | inl t ↦ (depth, ground arith)
          | inr (p, t) ↦ elim (Bool-cases (in_nodes h p)) [
            | inr gone ↦ (depth, ground arith)
            | inl node ↦
                let (d, found) =
                  depth_from_total h root_id fuel (depth + 1) p (current ∷ seen)
                    (omega (
                      arith,
                      unseen-cons-lt current seen (Dict.keys h.nodes)
                          (contains-keys h.nodes current ∙ here) (ground arith),
                    ))
                    node in
                (d, ground arith)
          ]
        ]
      ]
    ]

-- For a node of the catalog `depth_of` ends, and gives a depth.
depth_of_total :
    (h : Hierarchy) (c root_id : Uuid)
    → in_nodes h c ≡ true
    → (d : ℕ) × (depth_of h c root_id ≡ some d)
unfolding depth_of
depth_of_total h c root_id here =
    depth_from_total h root_id (suc (suc (length h.nodes))) 0 c []
      (omega (arith, length-keys h.nodes [])) here

-- For a node of the catalog the walk ends without a `KeyError`, at an ancestor of it that is in the
-- catalog, and the second result says why it stopped there. The walk of `depth_of` from the node ends
-- too, with a depth, for any root id.
pub root_of_total :
    (h : Hierarchy) (c root_id : Uuid)
    → in_nodes h c ≡ true
    → RootFound h c (root_of h c) × ((d : ℕ) × (depth_of h c root_id ≡ some d))
root_of_total h c root_id here = (root_of_lem h c here, depth_of_total h c root_id here)
