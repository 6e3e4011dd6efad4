-- ===== src/Conversations/Service.antt =====
-- app/services/conversation_service.py, with the conversations of app/services/cache_service.py. The
-- new ids and the reads of the message repository are handed in; an event is staged in the batch that
-- makes the change.
pub mod Safety
pub mod Steps
pub mod History
pub mod Branching
use conversation_service.Prelude.{
  ℕ, ◌%◌, Bool, true, false, not, ◌&&◌, Option, none, some, List, [], ◌∷◌, ◌==◌, if◌then◌else◌,
  is_some,
}
use conversation_service.Model.{
  Uuid, Time, Text, Conversation, ConversationStatus, active, archived, deleted, is_active,
}
use conversation_service.State.{
  Topic, conversation_created, conversation_updated, conversation_deleted,
}
use conversation_service.Errors.{
  Error, Method, Result, ok, raised, ◌>>=◌, ◌>>◌, return, fail, lookup_error, value_error,
  permission_error,
}
use conversation_service.Conversations
use conversation_service.Conversations.{
  ConversationPayload, ConversationEvent, Tables, Env, Call, cache_read, cache_write, cache_evict,
  set_row,
}
use conversation_service.Conversations.Repository.{
  create_with_outbox, get_row, update_with_outbox, delete_with_outbox, update_title,
}

-- The message repository, as `create` reads it: whether a message is there, and the latest one. A read
-- may raise.
pub record MessageReads : Type 0 where
  pub has_message : Uuid → Uuid → Result Bool
  pub latest : Uuid → Result (Option Uuid)

abbrev event_of : Uuid → Uuid → Topic → ConversationPayload → Time → ConversationEvent
event_of i event_id event_type payload now = record {
  bucket = i % 32;
  event_id = event_id;
  event_type = event_type;
  payload = payload;
  created_at = now;
}

-- What an event of a change tells of the conversation.
abbrev payload_of : Uuid → Conversation → Text → ConversationStatus → ConversationPayload
payload_of i conv title status = record {
  conversation_id = i;
  user_id = conv.user_id;
  title = title;
  status = status;
  parent_conversation_id = none;
  branch_message_id = none;
}

module _ (env : Env) where
  -- An exception of Redis is logged, and means a miss or no write.
  unfoldable pub get_conversation : Uuid → Method Tables (Option Conversation)
  get_conversation i t =
      return (if env.redis && not (env.down cache_read) then t.cache i else none) t

  unfoldable pub set_conversation : Conversation → Method Tables (Unit {0})
  set_conversation conv t = return tt (
      if env.redis && not (env.down cache_write)
      then record t { cache = set_row conv.conversation_id (some conv) t.cache }
      else t)

  unfoldable pub delete_conversation : Uuid → Method Tables (Unit {0})
  delete_conversation i t = return tt (
      if env.redis && not (env.down cache_evict)
      then record t { cache = set_row i none t.cache }
      else t)

  abbrev pub remember : Option Conversation → Method Tables (Unit {0})
  remember none t = return tt t
  remember (some conv) t = set_conversation conv t

  unfoldable pub read_through : Uuid → Option Conversation → Method Tables (Option Conversation)
  unfolding get_row set_conversation
  read_through i (some conv) t = return (some conv) t
  read_through i none t = (do conv ← get_row env i; remember conv; return conv) t

  unfoldable pub get : Uuid → Method Tables (Option Conversation)
  unfolding get_conversation read_through
  get i = do cached ← get_conversation i; read_through i cached

  abbrev pub known_message : Uuid → Result Bool → Result (Option Uuid)
  known_message message (raised e) = raised e
  known_message message (ok known) = if known then ok (some message) else raised value_error

  -- The branch point of a new conversation: a given message must be one of the parent's, and the
  -- parent's latest message stands in for a missing one.
  abbrev branch_point : Option MessageReads → Uuid → Option Uuid → Result (Option Uuid)
  branch_point none parent message = ok message
  branch_point (some reads) parent (some message) =
      known_message message (reads.has_message parent message)
  branch_point (some reads) parent none = reads.latest parent

  unfoldable pub checked_parent :
      Uuid → Option MessageReads → Uuid → Option Uuid → Option Conversation → Result (Option Uuid)
  checked_parent user_id reads parent message none = raised lookup_error
  checked_parent user_id reads parent message (some conv) =
      if not (is_active conv.status)
      then raised value_error
      else if not (conv.user_id == user_id)
      then raised permission_error
      else branch_point reads parent message

  unfoldable pub parent_branch :
      Uuid → Option Uuid → Option Uuid → Option MessageReads → Method Tables (Option Uuid)
  unfolding get checked_parent
  parent_branch user_id none message reads t = return none t
  parent_branch user_id (some parent) message reads t =
      (do conv ← get parent; λ u. (checked_parent user_id reads parent message conv, u)) t

  abbrev pub new_conversation : Uuid → Uuid → Text → Option Uuid → Option Uuid → Conversation
  new_conversation i user_id title parent branch = record {
    conversation_id = i;
    user_id = user_id;
    title = title;
    created_at = env.now;
    updated_at = env.now;
    status = active;
    parent_conversation_id = parent;
    branch_message_id = branch;
  }

  abbrev pub created_event :
      Uuid → Uuid → Uuid → Text → Option Uuid → Option Uuid → ConversationEvent
  created_event i event_id user_id title parent branch =
      event_of i event_id conversation_created
        (record {
          conversation_id = i;
          user_id = user_id;
          title = title;
          status = active;
          parent_conversation_id = parent;
          branch_message_id = branch;
        })
        env.now

  unfoldable pub stage_conversation :
      Uuid → Uuid → Uuid → Text → Option Uuid → Option Uuid → Method Tables Conversation
  unfolding create_with_outbox set_conversation
  stage_conversation i event_id user_id title parent branch = do
    conv ←
        create_with_outbox env (new_conversation i user_id title parent branch)
          (created_event i event_id user_id title parent branch)
    set_conversation conv
    return conv

  unfoldable pub create :
      Uuid
      → Uuid
      → Uuid
      → Text
      → Option Uuid
      → Option Uuid
      → Option MessageReads
      → Method Tables Conversation
  unfolding parent_branch stage_conversation
  create i event_id user_id title parent message reads = do
    branch ← parent_branch user_id parent message reads
    stage_conversation i event_id user_id title parent branch

  -- `rename` and `archive`, for the conversation that `get` gave.
  unfoldable pub update_found :
      Uuid → Uuid → Text → ConversationStatus → Conversation → Method Tables (Option Conversation)
  unfolding update_with_outbox set_conversation
  update_found i event_id title status conv = do
    updated ←
        update_with_outbox env i title status
          (event_of i event_id conversation_updated (payload_of i conv title status) env.now)
    remember updated
    return updated

  unfoldable pub rename : Uuid → Uuid → Text → Method Tables (Option Conversation)
  unfolding get update_found
  rename i event_id title = do
    conv ← get i
    elim conv [ none ↦ return none | some found ↦ update_found i event_id title found.status found ]

  unfoldable pub archive : Uuid → Uuid → Method Tables (Option Conversation)
  unfolding get update_found
  archive i event_id = do
    conv ← get i
    elim conv [
      | none ↦ return none
      | some found ↦ update_found i event_id found.title archived found
    ]

  unfoldable pub delete_found : Uuid → Uuid → Conversation → Method Tables Bool
  unfolding delete_with_outbox delete_conversation
  delete_found i event_id conv = do
    success ←
        delete_with_outbox env i
          (event_of i event_id conversation_deleted (payload_of i conv conv.title deleted) env.now)
    if success then delete_conversation i >> return true else return false

  unfoldable pub delete : Uuid → Uuid → Method Tables Bool
  unfolding get delete_found
  delete i event_id = do
    conv ← get i
    elim conv [ none ↦ return false | some found ↦ delete_found i event_id found ]

  unfoldable pub set_title : Uuid → Text → Method Tables Bool
  unfolding update_title delete_conversation
  set_title i title = do
    success ← update_title env i title
    if success then delete_conversation i >> return true else return false
