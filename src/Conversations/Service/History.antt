-- ===== src/Conversations/Service/History.antt =====
-- The operations of the service and the clean-up of deleted conversations, one at a time in any order,
-- from empty tables.
use conversation_service.Prelude.{◌≡◌, refl, sym, subst, ap, ◌∙◌, Option, none, some, []}
use conversation_service.Model.{Uuid, Text}
use conversation_service.Errors.{Result, return}
use conversation_service.Errors.Ensures.{
  Ensures-continue, Ensures-map, Ensures-state, Ensures-value,
}
use conversation_service.Conversations.{Tables, Env, created}
use conversation_service.Conversations.Repository.{create_with_outbox, hard_delete}
use conversation_service.Conversations.Catalog.{IsCataloged, created-IsCataloged}
use conversation_service.Conversations.Service.{
  MessageReads, get, parent_branch, checked_parent, stage_conversation, create, rename, archive,
  delete, set_title,
}
use conversation_service.Conversations.Service.Safety.{
  Same, Kept, IsLater, Same-IsCataloged, remember-Kept, get-Kept, Cataloged, written,
}
use conversation_service.Conversations.Service.Steps.{
  rename-Cataloged, archive-Cataloged, delete-Cataloged, set_title-Cataloged, hard_delete-Cataloged,
}

module _ (env : Env) where
  pub parent_branch-Kept :
      (user_id : Uuid) (parent message : Option Uuid) (reads : Option MessageReads) (t : Tables)
      → Kept t (parent_branch env user_id parent message reads t)
  unfolding parent_branch
  parent_branch-Kept user_id none message reads t = record { after = (refl, refl, refl) }
  parent_branch-Kept user_id (some parent) message reads t =
      Ensures-continue (get-Kept env parent t)
        (λ conv v s.
          Ensures-map (Ensures-value (checked_parent env user_id reads parent message conv) v)
            (λ a x e. subst (Same t) (sym e) s) (λ f x e. subst (Same t) (sym e) s))
        (λ e v s. s)

  stage_conversation-Cataloged :
      (i event_id user_id : Uuid) (title : Text) (parent branch : Option Uuid) (t : Tables)
      → IsCataloged t
      → t.conversations i ≡ none
      → Cataloged env (stage_conversation env i event_id user_id title parent branch t)
  unfolding stage_conversation create_with_outbox
  stage_conversation-Cataloged i event_id user_id title parent branch t w fresh =
      Ensures-continue
        (written env _ _ (λ u. created _ _ u) t w (created-IsCataloged _ _ t w fresh))
        (λ conv v w'.
          Ensures-continue {f = λ u. return conv} (remember-Kept env (some conv) v)
            (λ u x kept. record { after = Same-IsCataloged v x kept w' })
            (λ e x kept. Same-IsCataloged v x kept w'))
        (λ e v w'. w')

  create-Cataloged :
      (i event_id user_id : Uuid) (title : Text) (parent message : Option Uuid)
      (reads : Option MessageReads) (t : Tables)
      → IsCataloged t
      → t.conversations i ≡ none
      → Cataloged env (create env i event_id user_id title parent message reads t)
  unfolding create
  create-Cataloged i event_id user_id title parent message reads t w fresh =
      Ensures-continue (parent_branch-Kept user_id parent message reads t)
        (λ branch v s.
          stage_conversation-Cataloged i event_id user_id title parent branch v
            (Same-IsCataloged t v s w) (ap (λ f. f i) s.0 ∙ fresh))
        (λ e v s. Same-IsCataloged t v s w)

-- One operation, with any calls that raise. A new conversation has a fresh id, and a change comes at
-- least a millisecond after the last one of the conversation.
pub data Step : Tables → Tables → Type 0 where
  created_one :
      {t : Tables} (env : Env) (i event_id user_id : Uuid) (title : Text)
      (parent message : Option Uuid) (reads : Option MessageReads)
      → t.conversations i ≡ none
      → Step t (create env i event_id user_id title parent message reads t).1
  read_one : {t : Tables} (env : Env) (i : Uuid) → Step t (get env i t).1
  renamed :
      {t : Tables} (env : Env) (i event_id : Uuid) (title : Text)
      → IsLater env i t
      → Step t (rename env i event_id title t).1
  archived_one :
      {t : Tables} (env : Env) (i event_id : Uuid)
      → IsLater env i t
      → Step t (archive env i event_id t).1
  deleted_one :
      {t : Tables} (env : Env) (i event_id : Uuid)
      → IsLater env i t
      → Step t (delete env i event_id t).1
  titled :
      {t : Tables} (env : Env) (i : Uuid) (title : Text)
      → IsLater env i t
      → Step t (set_title env i title t).1
  cleaned_up : {t : Tables} (env : Env) (i : Uuid) → Step t (hard_delete env i t).1

abbrev pub no_conversations : Tables
no_conversations = record {
  conversations = λ i. none;
  by_user = [];
  outbox = [];
  cache = λ i. none;
}

pub data Reachable : Tables → Type 0 where
  initial : Reachable no_conversations
  next : {t u : Tables} → Reachable t → Step t u → Reachable u

state_of : {A : Type 0} (env : Env) (m : Result A × Tables) → Cataloged env m → IsCataloged m.1
state_of env m p = Ensures-state IsCataloged m p

step-IsCataloged : (t u : Tables) → IsCataloged t → Step t u → IsCataloged u
step-IsCataloged t u w (created_one env i event_id user_id title parent message reads fresh) =
    state_of env _ (create-Cataloged env i event_id user_id title parent message reads t w fresh)
step-IsCataloged t u w (read_one env i) =
    Same-IsCataloged t _ (Ensures-state (Same t) _ (get-Kept env i t)) w
step-IsCataloged t u w (renamed env i event_id title later) =
    state_of env _ (rename-Cataloged env i event_id title t (w, later))
step-IsCataloged t u w (archived_one env i event_id later) =
    state_of env _ (archive-Cataloged env i event_id t (w, later))
step-IsCataloged t u w (deleted_one env i event_id later) =
    state_of env _ (delete-Cataloged env i event_id t (w, later))
step-IsCataloged t u w (titled env i title later) =
    state_of env _ (set_title-Cataloged env i title t (w, later))
step-IsCataloged t u w (cleaned_up env i) = state_of env _ (hard_delete-Cataloged env i t w)

-- After any operations in any order, whichever of their calls of Cassandra and Redis raise: a
-- conversation with a row has exactly one entry in the lists of the users, with the owner, title,
-- times, status and parent of the row, and a conversation without a row has no entry. A new
-- conversation has a fresh id, and each change comes in a later millisecond than the last one of
-- that conversation.
pub Reachable-IsCataloged : (t : Tables) → Reachable t → IsCataloged t
Reachable-IsCataloged t initial = record { row = λ i c e. cc; absent = λ i e. refl }
Reachable-IsCataloged u (next {t} r step) = step-IsCataloged t u (Reachable-IsCataloged t r) step
