-- ===== src/State.antt =====
-- The state that the message side of the service shares: the Cassandra tables that
-- app/db/schema.cql declares, as its statements read and write them, and the Redis keys.
-- `app/models/outbox.py` is `OutboxEvent`, `app/events/topics.py` is `Topic`.
use conversation_service.Prelude.{ℕ, Bool, Option, List}
use conversation_service.Model.{Uuid, Time, Text, Sender, MessageStatus, Message, Citation}

-- The column `status`: a `MessageStatus`, or the 'deleted' of a soft delete.
pub data RowStatus : Type 0 where
  live : MessageStatus → RowStatus
  deleted : RowStatus

-- A row of `messages_by_conversation`, within its partition.
pub record Row : Type 0 where
  pub message_id : Uuid
  pub sender : Sender
  pub content : Text
  pub created_at : Time
  pub status : RowStatus
  pub file_ids : List Uuid
  pub citations : List Citation

pub data Topic : Type 0 where
  chat_message_created chat_response_chunk chat_response_generated : Topic
  conversation_created conversation_updated conversation_deleted : Topic
  summary_generated title_generated chat_dlq : Topic

-- An entry of the `history` of a request event. Own turns carry their id; inherited ones the
-- conversation that they come from.
pub record HistoryEntry : Type 0 where
  pub role : Sender
  pub content : Text
  pub message_id : Option Uuid
  pub source_conversation_id : Option Uuid

-- A message that a branch inherits, as `inherited_history` lists it.
pub record Inherited : Type 0 where
  pub role : Sender
  pub content : Text
  pub conversation_id : Uuid
  pub message_id : Uuid

pub record AncestorRef : Type 0 where
  pub conversation_id : Uuid
  pub upto_message_id : Uuid

-- The definition of a custom mode that travels with a request (`CustomModeSnapshot`).
pub record CustomModeSnapshot : Type 0 where
  pub mode_id : Uuid
  pub version : ℕ
  pub name : Text
  pub smart : Bool
  pub instructions : Text

-- What `generation_preferences` gives, by its keys.
pub record Generation : Type 0 where
  pub answer_length : Text
  pub tone : Text
  pub language : Text
  pub language_name : Text
  pub personal_instructions : Text
  pub citations : Text

pub record Defaults : Type 0 where
  pub mode : Bool
  pub tools : Bool

-- `metadata` of a request event: empty for a send.
pub data Metadata : Type 0 where
  empty : Metadata
  regeneration : Option Uuid → Uuid → Metadata

-- The `chat.message.created` payload, without its constant fields.
pub record ChatMessageCreated : Type 0 where
  pub message_id : Uuid
  pub response_message_id : Option Uuid
  pub conversation_id : Uuid
  pub user_id : Option Uuid
  pub content : Text
  pub mode_hint : Option Text
  pub selected_tools : List Text
  pub include_diagrams : Bool
  pub file_ids : List Uuid
  pub history : List HistoryEntry
  pub ancestors : List AncestorRef
  pub custom_mode : Option CustomModeSnapshot
  pub preferences : Option Generation
  pub defaults_applied : Defaults
  pub metadata : Metadata
  pub timestamp : Time

pub record OutboxEvent : Type 0 where
  pub bucket : ℕ
  pub event_id : Uuid
  pub event_type : Topic
  pub payload : ChatMessageCreated
  pub published : Bool
  pub created_at : Time

-- `pending_response:<id>`: the conversation, and when the key expires.
pub record Marker : Type 0 where
  pub conversation_id : Uuid
  pub expires_at : Time

-- `status` of a streamed event; a chunk has none.
pub data StreamStatus : Type 0 where
  chunk completed failed : StreamStatus

-- An event on a conversation's stream, by the keys that the clients read.
pub record StreamEvent : Type 0 where
  pub conversation_id : Uuid
  pub message_id : Uuid
  pub content : Text
  pub is_final : Bool
  pub status : StreamStatus
  pub full_content : Text
  pub citations : List Citation
  pub event_id : Option ℕ

-- A record that Kafka accepted.
pub record Delivery : Type 0 where
  pub topic : Topic
  pub key : Uuid
  pub value : ChatMessageCreated

pub record World : Type 0 where
  pub rows : Uuid → List Row  -- messages_by_conversation, newest first in each partition
  pub outbox : List OutboxEvent  -- transactional_outbox, by event id
  pub broker : List Delivery  -- what Kafka accepted, oldest first
  pub inbox : Uuid → Bool  -- inbox_events
  pub marker : Uuid → Option Marker  -- pending_response:<id>
  pub deadlines : List (Uuid × Time)  -- pending_response:zset, by score
  pub recent : Uuid → Option (List Message)  -- conversation:<id>:last50
  pub event_log : Uuid → List StreamEvent  -- conversation:<id>:events, oldest first
  pub streamed : List StreamEvent  -- what was published, oldest first

-- The calls of Cassandra and Redis that may raise.
pub data Call : Type 0 where
  db_history db_get_message db_insert db_batch db_delete : Call
  inbox_exists inbox_save : Call
  cache_get cache_clear cache_push cache_evict : Call
  marker_set marker_zadd marker_delete marker_zrem zset_scan marker_get : Call
  log_append log_expire log_read publish : Call

-- What an operation meets: the clock, whether a Redis client is there, which calls raise while it
-- runs (a call that raises has no effect), and the bytes that a list of citations takes. Two calls of
-- one kind in one operation raise alike; each operation, each event and each entry of a timeout scan
-- has its own `Env`.
pub record Env : Type 0 where
  pub now : Time
  pub redis : Bool
  pub down : Call → Bool
  pub json_size : List Citation → ℕ
