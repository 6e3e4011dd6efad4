-- ===== src/Conversations/Repository.antt =====
-- The methods of app/repositories/conversation_repository.py, whose calls may raise before they have
-- an effect.
use conversation_service.Prelude.{
  ℕ, Bool, true, false, not, ◌&&◌, Option, none, some, List, ◌∷◌, ltb, ◌==◌, if◌then◌else◌, keep,
  take, is_some,
}
use mathlib.Core.List.{map}
use conversation_service.Model.{
  Uuid, Time, Text, Conversation, ConversationStatus, deleted, is_deleted,
}
use conversation_service.Errors.{Method, ok, raised, storage, ◌>>=◌, ◌>>◌, return}
use conversation_service.Conversations.{
  Entry, ConversationEvent, Tables, Call, Env, created, changed, removed, db_read, db_write,
}

module _ (env : Env) where
  unfoldable pub calls : Call → Method Tables (Unit {0})
  calls c t = if env.down c then (raised storage, t) else (ok tt, t)

  unfoldable pub create_with_outbox : Conversation → ConversationEvent → Method Tables Conversation
  unfolding calls created
  create_with_outbox conv event = do calls db_write; λ t. return conv (created conv event t)

  unfoldable pub get_row : Uuid → Method Tables (Option Conversation)
  unfolding calls
  get_row i = do calls db_read; λ t. return (t.conversations i) t

  -- The conversation that is returned has no branch message.
  unfoldable pub update_row :
      Uuid
      → Text
      → ConversationStatus
      → ConversationEvent
      → Option Conversation
      → Method Tables (Option Conversation)
  unfolding changed calls
  update_row i title status event none = return none
  update_row i title status event (some conv) = do
    calls db_write
    λ t.
        return
          (some (record conv {
            conversation_id = i;
            title = title;
            updated_at = env.now;
            status = status;
            branch_message_id = none;
          }))
          (changed i conv title status env.now (event ∷ t.outbox) t)

  unfoldable pub update_with_outbox :
      Uuid → Text → ConversationStatus → ConversationEvent → Method Tables (Option Conversation)
  unfolding update_row get_row
  update_with_outbox i title status event = do
    conv ← get_row i
    update_row i title status event conv

  unfoldable pub delete_row : Uuid → ConversationEvent → Option Conversation → Method Tables Bool
  unfolding update_with_outbox
  delete_row i event none = return false
  delete_row i event (some conv) = do
    result ← update_with_outbox i conv.title deleted event
    return (is_some result)

  unfoldable pub delete_with_outbox : Uuid → ConversationEvent → Method Tables Bool
  unfolding delete_row get_row
  delete_with_outbox i event = do conv ← get_row i; delete_row i event conv

  unfoldable pub title_row : Uuid → Text → Option Conversation → Method Tables Bool
  unfolding changed calls
  title_row i title none = return false
  title_row i title (some conv) = do
    calls db_write
    λ t. return true (changed i conv title conv.status env.now t.outbox t)

  unfoldable pub update_title : Uuid → Text → Method Tables Bool
  unfolding title_row get_row
  update_title i title = do conv ← get_row i; title_row i title conv

  unfoldable pub remove_row : Uuid → Option Conversation → Method Tables Bool
  unfolding removed calls
  remove_row i none = return false
  remove_row i (some conv) = do calls db_write; λ t. return true (removed i conv t)

  unfoldable pub hard_delete : Uuid → Method Tables Bool
  unfolding remove_row get_row
  hard_delete i = do conv ← get_row i; remove_row i conv

  -- A listed conversation has no branch message.
  abbrev listed : Entry → Conversation
  listed e = record {
    conversation_id = e.conversation_id;
    user_id = e.user_id;
    title = e.title;
    created_at = e.created_at;
    updated_at = e.updated_at;
    status = e.status;
    parent_conversation_id = e.parent_conversation_id;
    branch_message_id = none;
  }

  abbrev before : Option Time → Entry → Bool
  before none e = true
  before (some cursor) e = ltb e.updated_at cursor

  -- The limit counts the deleted rows too.
  unfoldable pub list : Uuid → ℕ → Option Time → Method Tables (List Conversation)
  unfolding calls
  list user_id limit cursor = do
    calls db_read
    λ t.
        return
          (map listed (
            keep (λ e. not (is_deleted e.status))
              (take limit (keep (λ e. (e.user_id == user_id) && before cursor e) t.by_user))))
          t
