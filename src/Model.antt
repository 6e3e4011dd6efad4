-- ===== src/Model.antt =====
-- The domain entities: app/models/conversation.py and app/models/message.py. A UUID is the number
-- that `UUID.int` gives, a time is the number of its microseconds, and a text is the list of its
-- code points.
use conversation_service.Prelude.{ℕ, Bool, true, false, Option, List}

abbrev pub Uuid : Type 0
Uuid = ℕ

abbrev pub Time : Type 0
Time = ℕ

abbrev pub Text : Type 0
Text = List ℕ

pub data ConversationStatus : Type 0 where
  active archived deleted : ConversationStatus

abbrev pub is_active : ConversationStatus → Bool
is_active active = true
is_active _ = false

abbrev pub is_deleted : ConversationStatus → Bool
is_deleted deleted = true
is_deleted _ = false

pub record Conversation : Type 0 where
  pub conversation_id : Uuid
  pub user_id : Uuid
  pub title : Text
  pub created_at : Time
  pub updated_at : Time
  pub status : ConversationStatus
  pub parent_conversation_id : Option Uuid
  pub branch_message_id : Option Uuid

-- One whitelisted source of an answer (app/services/citations.py): the keys of the dict, with the
-- two times absent together.
pub record Citation : Type 0 where
  pub file_id : Text
  pub source_name : Text
  pub page_number : Option ℕ
  pub section : Option Text
  pub times : Option (ℕ × Option ℕ)

pub data MessageStatus : Type 0 where
  pending sent failed : MessageStatus

abbrev pub is_sent : MessageStatus → Bool
is_sent sent = true
is_sent _ = false

abbrev pub is_pending : MessageStatus → Bool
is_pending pending = true
is_pending _ = false

-- The texts that the service writes, and any other. `null` is the empty column of a row that only
-- a soft delete has written.
pub data Sender : Type 0 where
  user assistant system null : Sender
  other : Text → Sender

abbrev pub is_assistant : Sender → Bool
is_assistant assistant = true
is_assistant _ = false

abbrev pub is_user : Sender → Bool
is_user user = true
is_user _ = false

pub record Message : Type 0 where
  pub conversation_id : Uuid
  pub message_id : Uuid
  pub sender : Sender
  pub content : Text
  pub created_at : Time
  pub status : MessageStatus
  pub file_ids : List Uuid
  pub citations : List Citation
  pub response_message_id : Option Uuid
