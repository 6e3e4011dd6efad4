-- ===== src/Tests/Catalog.antt =====
-- Identifiers, citations and the tree of a small catalog.
use conversation_service.Prelude.{
  ℕ, ◌+◌, ◌/◌, ◌%◌, ◌^◌, ◌≤◌, ◌<◌, ◌≡◌, refl, true, Option, none, some, List, [], ◌∷◌, arith,
  length, contains, any, ◌==◌, ◌&&◌, not, All,
}
use conversation_service.Prelude.Dict
use conversation_service.Model.{Uuid, Conversation, active}
use conversation_service.Strings.{codes}
use conversation_service.Helpers.{uuidv7, uuidv7_after}
use conversation_service.Helpers.After.{lt-uuidv7_after}
use conversation_service.Helpers.Layout.{uuidv7_layout}
use conversation_service.Hierarchy.{
  in_nodes, nodes_from, children_of, build_hierarchy, root_of, depth_of, subtree,
}
use conversation_service.Hierarchy.Walks.{RootFound, root_of_total}
use conversation_service.Hierarchy.Subtree.{Walked, subtree_total}
use conversation_service.Hierarchy.Children.{names, build_hierarchy_lem}
use conversation_service.Citations.{
  arr, cons, nil, max_citations, max_json_bytes, sanitize_citations,
}
use conversation_service.Citations.Bounds.{IsClean, Distinct, sanitize_citations_bounded}
use conversation_service.Tests.Fixtures.{source, size}

abbrev conversation : Uuid → Option Uuid → Uuid → Conversation
conversation c parent created_at = record {
  conversation_id = c;
  user_id = 7;
  title = codes "Notes";
  created_at = created_at;
  updated_at = created_at;
  status = active;
  parent_conversation_id = parent;
  branch_message_id = none;
}

-- Two branches of conversation 1, and a branch of a deleted conversation.
abbrev catalog : List Conversation
catalog =
    conversation 1 none 10
    ∷ conversation 2 (some 1) 20
    ∷ conversation 3 (some 2) 30
    ∷ conversation 4 (some 9) 40
    ∷ []

known : in_nodes (build_hierarchy catalog) 3 ≡ true
unfolding build_hierarchy Dict.get nodes_from Dict.put
known = refl

root_of_total_example :
    RootFound (build_hierarchy catalog) 3 (root_of (build_hierarchy catalog) 3)
    × ((d : ℕ) × (depth_of (build_hierarchy catalog) 3 1 ≡ some d))
root_of_total_example = root_of_total (build_hierarchy catalog) 3 1 known

subtree_total_example : Walked (build_hierarchy catalog) 1 (subtree (build_hierarchy catalog) 1)
subtree_total_example = subtree_total (build_hierarchy catalog) 1

build_hierarchy_lem_example :
    (in_nodes (build_hierarchy catalog) 2 ≡ any (λ c. c.conversation_id == 2) catalog)
    × (contains 2 (children_of (build_hierarchy catalog) 1)
        ≡ any
            (λ c.
              (c.conversation_id == 2)
              && (names 1 c && (any (λ d. d.conversation_id == 1) catalog && not (1 == 2))))
            catalog)
build_hierarchy_lem_example = build_hierarchy_lem catalog 1 2

lt-uuidv7_after_example : 41 < uuidv7_after (λ i. 40 + i) 41
lt-uuidv7_after_example = lt-uuidv7_after (λ i. 40 + i) 41 (omega arith)

uuidv7_layout_example :
    (id : Uuid) × (uuidv7 1700000000000 (λ i. i % 256) ≡ some id)
    × (id / 2 ^ 80 ≡ 1700000000000)
    × (id / 2 ^ 76 % 16 ≡ 7)
    × (id / 2 ^ 62 % 4 ≡ 2)
    × (id < 2 ^ 128)
uuidv7_layout_example = uuidv7_layout 1700000000000 (λ i. i % 256) (omega arith) (λ i. omega arith)

sanitize_citations_bounded_example :
    let cs = sanitize_citations size (arr (cons source (cons source nil))) in
    (length cs ≤ max_citations) × All IsClean cs × Distinct [] cs × (size cs ≤ max_json_bytes)
sanitize_citations_bounded_example =
    sanitize_citations_bounded size (arr (cons source (cons source nil))) (omega arith)
