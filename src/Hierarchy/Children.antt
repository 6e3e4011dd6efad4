-- ===== src/Hierarchy/Children.antt =====
-- `build_hierarchy`: what the two dicts hold.
use conversation_service.Prelude.{
  ◌≡◌, refl, ap, ◌∙◌, Bool, true, false, not, ◌&&◌, ◌||◌, none, some, List, [], ◌∷◌, ◌++◌, arith,
  ◌==◌, get_or, is_some, Option-cases, Bool-cases, ◌⊎◌, inl, inr, contains, contains-append, any,
}
use conversation_service.Prelude.Dict
use conversation_service.Prelude.Dict.{Dict, get-put}
use conversation_service.Model.{Uuid, Conversation}
use conversation_service.Hierarchy.{
  in_nodes, children_of, insert_sorted, sort_oldest, nodes_from, add_child, children_from,
  build_hierarchy,
}

-- `c` names `p` as its parent.
abbrev pub names : Uuid → Conversation → Bool
names p c = elim c.parent_conversation_id [ none ↦ false | some q ↦ q == p ]

any-insert_sorted :
    (f : Conversation → Bool) (c : Conversation) (cs : List Conversation)
    → any f (insert_sorted c cs) ≡ (f c || any f cs)
unfolding insert_sorted
any-insert_sorted f c [] = refl
any-insert_sorted f c (d ∷ ds) = ground (arith, any-insert_sorted f c ds)

any-sort_oldest :
    (f : Conversation → Bool) (cs : List Conversation) → any f (sort_oldest cs) ≡ any f cs
unfolding sort_oldest
any-sort_oldest f [] = refl
any-sort_oldest f (c ∷ cs) =
    ground (arith, any-insert_sorted f c (sort_oldest cs), any-sort_oldest f cs)

get-nodes_from :
    (d : Dict Conversation) (cs : List Conversation) (x : Uuid)
    → is_some (Dict.get (nodes_from d cs) x)
      ≡ (is_some (Dict.get d x) || any (λ c. c.conversation_id == x) cs)
unfolding nodes_from
get-nodes_from d [] x = ground arith
get-nodes_from d (c ∷ cs) x =
    ground
      (arith, get-nodes_from (Dict.put d c.conversation_id c) cs x, get-put d c.conversation_id x c)

-- The test under which the loop files `x` under `p`.
abbrev files : Dict Conversation → Uuid → Uuid → Conversation → Bool
files nodes p x c =
    (c.conversation_id == x) && (names p c && (is_some (Dict.get nodes p) && not (p == x)))

contains-add_child :
    (nodes : Dict Conversation) (d : Dict (List Uuid)) (c : Conversation) (p x : Uuid)
    → contains x (get_or (Dict.get (add_child nodes d c) p) [])
      ≡ (contains x (get_or (Dict.get d p) []) || files nodes p x c)
unfolding add_child
contains-add_child nodes d c p x = elim (Option-cases c.parent_conversation_id) [
  | inl e ↦ ground arith
  | inr (q, e) ↦
      let old = get_or (Dict.get d q) [] in
      ground (
        arith,
        get-put d q p (old ++ c.conversation_id ∷ []),
        contains-append x old (c.conversation_id ∷ []),
      )
]

contains-children_from :
    (nodes : Dict Conversation) (d : Dict (List Uuid)) (cs : List Conversation) (p x : Uuid)
    → contains x (get_or (Dict.get (children_from nodes d cs) p) [])
      ≡ (contains x (get_or (Dict.get d p) []) || any (files nodes p x) cs)
unfolding children_from
contains-children_from nodes d [] p x = ground arith
contains-children_from nodes d (c ∷ cs) p x = ground (
  arith,
  contains-children_from nodes (add_child nodes d c) cs p x,
  contains-add_child nodes d c p x,
)

-- The nodes are the ids of the listed conversations, and the children of an id are the listed
-- conversations that name it as parent, if it is a node and not the child itself.
pub build_hierarchy_lem :
    (cs : List Conversation) (p x : Uuid)
    → (in_nodes (build_hierarchy cs) x ≡ any (λ c. c.conversation_id == x) cs)
      × (contains x (children_of (build_hierarchy cs) p)
          ≡ any
              (λ c.
                (c.conversation_id == x)
                && (names p c && (any (λ d. d.conversation_id == p) cs && not (p == x))))
              cs)
unfolding build_hierarchy Dict.get
build_hierarchy_lem cs p x = (
  get-nodes_from [] cs x,
  contains-children_from nodes [] (sort_oldest cs) p x
      ∙ any-sort_oldest (files nodes p x) cs
      ∙ ap (λ b. any (filed b) cs) (get-nodes_from [] cs p),
)
  where
    nodes : Dict Conversation
    nodes = nodes_from [] cs

    filed : Bool → Conversation → Bool
    filed b c = (c.conversation_id == x) && (names p c && (b && not (p == x)))

-- A node stands for a listed conversation with its id.
listed_of_node :
    (f : Conversation → Bool) (d : Dict Conversation) (cs : List Conversation) (x : Uuid)
    {c : Conversation}
    → Dict.get (nodes_from d cs) x ≡ some c
    → f c ≡ true
    → (Dict.get d x ≡ some c) ⊎ (any (λ e. (e.conversation_id == x) && f e) cs ≡ true)
unfolding nodes_from
listed_of_node f d [] x e h = inl e
listed_of_node f d (b ∷ cs) x e h =
    elim (listed_of_node f (Dict.put d b.conversation_id b) cs x e h) [
      | inl old ↦ elim (Bool-cases (b.conversation_id == x)) [
        | inl same ↦ inr (ground (arith, get-put d b.conversation_id x b))
        | inr other ↦ inl (ground (arith, get-put d b.conversation_id x b))
      ]
      | inr later ↦ inr (ground arith)
    ]

-- The conversation that a node stands for is listed under the node's id.
pub node_listed :
    (cs : List Conversation) (f : Conversation → Bool) (x : Uuid) {c : Conversation}
    → Dict.get (build_hierarchy cs).nodes x ≡ some c
    → f c ≡ true
    → any (λ e. (e.conversation_id == x) && f e) cs ≡ true
unfolding build_hierarchy Dict.get
node_listed cs f x e h = elim (listed_of_node f [] cs x e h) [ inl p ↦ cc | inr p ↦ p ]
