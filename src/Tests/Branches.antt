-- ===== src/Tests/Branches.antt =====
-- A branch of a branch.
use conversation_service.Prelude.{
  ◌≤◌, ◌≡◌, refl, ◌==◌, if◌then◌else◌, Option, none, some, [], ◌∷◌, length,
}
use mathlib.Core.List.{reverse}
use conversation_service.Model.{Uuid, Conversation, active, Message, user, sent}
use conversation_service.Strings.{codes}
use conversation_service.Errors.{ok}
use conversation_service.Branches.{Reads, Lineage, lineage, inherited_history, max_lineage_depth}
use conversation_service.Branches.Chain.{Chain, lineage-Chain}
use conversation_service.Branches.Inherit.{IsBounded, inherited_history-IsBounded}
use conversation_service.Branches.Documents.{context, context-Bounded, Bounded}

abbrev conversation : Uuid → Option Uuid → Option Uuid → Conversation
conversation c parent branch = record {
  conversation_id = c;
  user_id = 7;
  title = codes "Notes";
  created_at = 5;
  updated_at = 5;
  status = active;
  parent_conversation_id = parent;
  branch_message_id = branch;
}

abbrev message : Uuid → Uuid → Message
message c m = record {
  conversation_id = c;
  message_id = m;
  sender = user;
  content = codes "Why?";
  created_at = 4;
  status = sent;
  file_ids = 60 ∷ 61 ∷ 60 ∷ [];
  citations = [];
  response_message_id = none;
}

abbrev reads : Reads
reads = record {
  get = λ i.
      if i == 2
      then ok (some (conversation 2 (some 1) (some 41)))
      else if i == 1
      then ok (some (conversation 1 none none))
      else ok none;
  history = λ c n. ok (message c 45 ∷ message c 41 ∷ []);
  history_upto = λ c m n. ok (message c m ∷ []);
}

abbrev branch : Conversation
branch = conversation 3 (some 2) (some 42)

abbrev ancestry : Lineage
ancestry = record {
  segments =
      record {
        conversation_id = 1;
        title = codes "Notes";
        upto_message_id = some 41;
        upto_time = none;
      }
      ∷ record {
        conversation_id = 2;
        title = codes "Notes";
        upto_message_id = some 42;
        upto_time = none;
      }
      ∷ [];
  truncated = none;
}

found : lineage reads branch ≡ ok ancestry
unfolding lineage
found = refl

lineage-Chain_example :
    Chain reads 7 (3 ∷ []) branch (reverse ancestry.segments) none
    × (length (reverse ancestry.segments) ≤ max_lineage_depth)
lineage-Chain_example = lineage-Chain reads branch ancestry found

inherited_history-IsBounded_example : IsBounded (inherited_history reads ancestry)
inherited_history-IsBounded_example = inherited_history-IsBounded reads ancestry

context-Bounded_example : Bounded (context reads branch)
context-Bounded_example = context-Bounded reads branch
