-- ===== src/Tests/Conversations.antt =====
-- A conversation that is renamed, and a branch of it.
use conversation_service.Prelude.{
  ℕ, ◌<◌, ◌≡◌, refl, subst, true, false, ◌==◌, Option, none, some, List, [], ◌∷◌, arith,
}
use mathlib.Core.List.{map}
use conversation_service.Model.{Uuid, Time, Text, Conversation}
use conversation_service.Strings.{codes}
use conversation_service.Errors.{Result, ok, raised}
use conversation_service.Errors.Ensures.{Ensures}
use conversation_service.Conversations.{Entry, Env, Tables}
use conversation_service.Conversations.Catalog.{IsCataloged}
use conversation_service.Conversations.Service.{MessageReads, create, get, rename}
use conversation_service.Conversations.Service.Safety.{IsLater, Same}
use conversation_service.Conversations.Service.Branching.{Created, create-Created}
use conversation_service.Conversations.Service.History.{
  created_one, renamed, initial, next, no_conversations, Reachable-IsCataloged,
}

abbrev at : Time → Env
at now = record { now = now; redis = true; down = λ c. false }

abbrev started : Tables
started = (create (at 5000) 1 90 7 (codes "Notes") none none none no_conversations).1

abbrev retitled : Tables
retitled = (rename (at 9000) 1 91 (codes "Plans") started).1

is_later : IsLater (at 9000) 1 started
unfolding create
is_later = record { later = λ c e. subst (λ o. get_time o < 9000) e (omega arith) }
  where
    get_time : Option Conversation → ℕ
    get_time none = 0
    get_time (some c) = c.updated_at

Reachable-IsCataloged_example : IsCataloged retitled
Reachable-IsCataloged_example = Reachable-IsCataloged retitled (
    next (next initial (created_one (at 5000) 1 90 7 (codes "Notes") none none none refl))
      (renamed (at 9000) 1 91 (codes "Plans") is_later))

abbrev reads : MessageReads
reads = record { has_message = λ c m. ok (m == 41); latest = λ c. ok (some 41) }

create-Created_example :
    Ensures
      (λ conv v. Created (at 9500) 2 7 (codes "Branch") (some 1) retitled conv v)
      (λ e v. Same retitled v)
      (create (at 9500) 2 92 7 (codes "Branch") (some 1) none (some reads) retitled)
create-Created_example =
    create-Created (at 9500) 2 92 7 (codes "Branch") (some 1) none (some reads) retitled

abbrev titles : List Entry → List Text
titles es = map (λ e. e.title) es

renamed_once : titles retitled.by_user ≡ codes "Plans" ∷ []
unfolding create rename
renamed_once = refl

-- A read after the rename of a branch misses its branch point, which the row still has.
abbrev branched : Tables
branched = (create (at 9500) 2 92 7 (codes "Branch") (some 1) none (some reads) retitled).1

abbrev branch_of : Option Conversation → Option Uuid
branch_of none = none
branch_of (some c) = c.branch_message_id

abbrev read_branch : Result (Option Conversation) → Option Uuid
read_branch (raised e) = none
read_branch (ok o) = branch_of o

abbrev rebranched : Tables
rebranched = (rename (at 19800) 2 93 (codes "Ideas") branched).1

lost_branch :
    (read_branch (get (at 19900) 2 rebranched).0 ≡ none)
    × (branch_of (rebranched.conversations 2) ≡ some 41)
unfolding create rename get
lost_branch = (refl, refl)
