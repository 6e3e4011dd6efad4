-- ===== src/Conversations.antt =====
-- The two tables of app/repositories/conversation_repository.py, `conversations` and
-- `conversations_by_user`, with the batches that write them. A time is stored to the millisecond, and
-- in one batch a deleted row wins over an inserted one.
pub mod Repository
pub mod Service
pub mod Catalog
use conversation_service.Prelude.{
  ℕ, ◌*◌, ◌/◌, Bool, true, false, not, ◌&&◌, Option, none, some, List, [], ◌∷◌, ltb, ◌==◌,
  if◌then◌else◌, keep, take, is_some,
}
use mathlib.Core.List.{map}
use conversation_service.Model.{
  Uuid, Time, Text, Conversation, ConversationStatus, deleted, is_deleted, is_active,
}
use conversation_service.State.{Topic}
use conversation_service.Errors.{Method, Result, ok, raised, storage, ◌>>=◌, ◌>>◌, return}

-- A row of `conversations_by_user`.
pub record Entry : Type 0 where
  pub user_id : Uuid
  pub updated_at : Time
  pub conversation_id : Uuid
  pub title : Text
  pub created_at : Time
  pub status : ConversationStatus
  pub parent_conversation_id : Option Uuid

-- The payload of a conversation event, by the keys that each event has.
pub record ConversationPayload : Type 0 where
  pub conversation_id : Uuid
  pub user_id : Uuid
  pub title : Text
  pub status : ConversationStatus
  pub parent_conversation_id : Option Uuid
  pub branch_message_id : Option Uuid

pub record ConversationEvent : Type 0 where
  pub bucket : ℕ
  pub event_id : Uuid
  pub event_type : Topic
  pub payload : ConversationPayload
  pub created_at : Time

pub record Tables : Type 0 where
  pub conversations : Uuid → Option Conversation
  pub by_user : List Entry  -- by falling time
  pub outbox : List ConversationEvent
  pub cache : Uuid → Option Conversation  -- conversation:<id>

pub data Call : Type 0 where
  db_read db_write cache_read cache_write cache_evict : Call

-- The clock, whether there is a Redis client, and which calls raise.
pub record Env : Type 0 where
  pub now : Time
  pub redis : Bool
  pub down : Call → Bool

abbrev pub milliseconds : Time → Time
milliseconds t = t / 1000 * 1000

abbrev pub names : Uuid → Entry → Bool
names i e = e.conversation_id == i

-- The primary key of an entry.
abbrev pub at_key : Uuid → Time → Uuid → Entry → Bool
at_key user_id updated_at i e =
    (e.user_id == user_id) && (e.updated_at == updated_at) && (e.conversation_id == i)

unfoldable pub insert_entry : Entry → List Entry → List Entry
insert_entry e [] = e ∷ []
insert_entry e (f ∷ fs) =
    let rest = insert_entry e fs in if ltb f.updated_at e.updated_at then e ∷ f ∷ fs else f ∷ rest

abbrev pub delete_entry : (Entry → Bool) → List Entry → List Entry
delete_entry key es = keep (λ e. not (key e)) es

-- DELETE and INSERT with one timestamp: an insert at the deleted key is lost.
unfoldable pub move_entry : (Entry → Bool) → Entry → List Entry → List Entry
unfolding insert_entry
move_entry key e es = delete_entry key (insert_entry e (delete_entry key es))

abbrev pub entry_of : Conversation → Entry
entry_of c = record {
  user_id = c.user_id;
  updated_at = c.updated_at;
  conversation_id = c.conversation_id;
  title = c.title;
  created_at = c.created_at;
  status = c.status;
  parent_conversation_id = c.parent_conversation_id;
}

abbrev pub set_row :
    Uuid → Option Conversation → (Uuid → Option Conversation) → Uuid → Option Conversation
set_row i row rows j = if j == i then row else rows j

-- The rows of a new conversation, as they are stored.
unfoldable pub created : Conversation → ConversationEvent → Tables → Tables
unfolding insert_entry
created conv event t =
    let row : Conversation = record conv {
      created_at = milliseconds conv.created_at;
      updated_at = milliseconds conv.updated_at;
    } in
    record t {
      conversations = set_row conv.conversation_id (some row) t.conversations;
      by_user = insert_entry (entry_of row) t.by_user;
      outbox = event ∷ t.outbox;
    }

-- The batches of `update_with_outbox` and `update_title`, for the row that was read.
unfoldable pub changed :
    Uuid
    → Conversation
    → Text
    → ConversationStatus
    → Time
    → List ConversationEvent
    → Tables
    → Tables
unfolding move_entry
changed i conv title status now events t =
    let row : Conversation = record conv {
      title = title;
      updated_at = milliseconds now;
      status = status;
    } in
    record t {
      conversations = set_row i (some row) t.conversations;
      by_user =
          move_entry (at_key conv.user_id conv.updated_at i)
            (record (entry_of row) { conversation_id = i }) t.by_user;
      outbox = events;
    }

unfoldable pub removed : Uuid → Conversation → Tables → Tables
removed i conv t = record t {
  conversations = set_row i none t.conversations;
  by_user = delete_entry (at_key conv.user_id conv.updated_at i) t.by_user;
}
