-- ===== src/Consumers.antt =====
-- The two handlers of app/events/consumers.py for the events of the LLM service. `uuid5` is the
-- parameter `derive_event_id`, on the parts that the key is made of.
pub mod Delivery
pub mod Safety
pub mod Delivered
use conversation_service.Prelude.{
  ℕ, Bool, true, false, not, ◌||◌, Option, none, some, List, [], ◌∷◌, if◌then◌else◌, is_some,
}
use conversation_service.Model.{Uuid, Text, Citation, Message}
use conversation_service.Text.{is_empty}
use conversation_service.Strings.{codes}
use conversation_service.State.{StreamEvent, StreamStatus, chunk, completed, failed, World, Env}
use conversation_service.Citations.{Json, sanitize_citations}
use conversation_service.Errors.{Method, value_error, ◌>>=◌, ◌>>◌, return, fail}
use conversation_service.MessageService.{Services}
use conversation_service.MessageService.Pending.{clear_pending_response}
use conversation_service.MessageService.Finish.{finalize_assistant_message, fail_assistant_message}
use conversation_service.Stream.{publish_token}
use conversation_service.Inbox

-- A key of the event that should hold a UUID.
pub data RawId : Type 0 where
  absent : RawId
  malformed : RawId
  uuid : Uuid → RawId

-- `_response_message_id`
abbrev pub response_message_id : RawId → Option Uuid
response_message_id (uuid m) = some m
response_message_id _ = none

-- The parts of an inbox key.
pub data EventKey : Type 0 where
  chunk_key : Uuid → Option ℕ → EventKey
  generated_key : Uuid → EventKey

pub record ChunkEvent : Type 0 where
  pub response_id : RawId
  pub conversation : RawId
  pub sequence_number : Option ℕ
  pub content : Text

pub record GeneratedEvent : Type 0 where
  pub response_id : RawId
  pub conversation : RawId
  pub success : Bool
  pub full_content : Text
  pub error_message : Text
  pub citations : Json

abbrev pub chunk_token : Uuid → Uuid → Text → StreamEvent
chunk_token cid m content = record {
  conversation_id = cid;
  message_id = m;
  content = content;
  is_final = false;
  status = chunk;
  full_content = [];
  citations = [];
  event_id = none;
}

abbrev pub completed_token : Uuid → Uuid → Text → List Citation → StreamEvent
completed_token cid m full_content citations = record {
  conversation_id = cid;
  message_id = m;
  content = [];
  is_final = true;
  status = completed;
  full_content = full_content;
  citations = citations;
  event_id = none;
}

abbrev pub failed_token : Uuid → Uuid → Text → StreamEvent
failed_token cid m error_message = record {
  conversation_id = cid;
  message_id = m;
  content = error_message;
  is_final = true;
  status = failed;
  full_content = [];
  citations = [];
  event_id = none;
}

-- `event.get("error_message") or "Generation failed."`
abbrev pub error_text : Text → Text
error_text t = if is_empty t then codes "Generation failed." else t

module _ (env : Env) (svc : Services) (derive_event_id : EventKey → Uuid) where
  abbrev pub parse : RawId → Method World Uuid
  parse (uuid cid) = return cid
  parse _ = fail value_error

  unfoldable pub publish_chunk : Uuid → Uuid → Uuid → Text → Method World (Unit {0})
  publish_chunk key cid m content = do
    λ w. return tt (publish_token env cid (chunk_token cid m content) w)
    Inbox.save env key

  unfoldable pub chunk_of : RawId → Uuid → Option ℕ → Text → Method World (Unit {0})
  unfolding publish_chunk
  chunk_of absent m seq content = return tt
  chunk_of conversation m seq content = do
    let key = derive_event_id (chunk_key m seq)
    seen ← Inbox.exists env key
    if seen then return tt else (do cid ← parse conversation; publish_chunk key cid m content)

  unfoldable pub handle_chat_response_chunk : ChunkEvent → Method World (Unit {0})
  unfolding chunk_of
  handle_chat_response_chunk e = elim (response_message_id e.response_id) [
    | none ↦ return tt
    | some m ↦ chunk_of e.conversation m e.sequence_number e.content
  ]

  -- A refused write ends the handler before the inbox is written.
  abbrev pub end_turn : Uuid → Uuid → Uuid → StreamEvent → Option Message → Method World (Unit {0})
  end_turn key cid m token none = return tt
  end_turn key cid m token (some written) = do
    λ w. return tt (clear_pending_response env svc m w)
    λ w. return tt (publish_token env cid token w)
    Inbox.save env key

  unfoldable pub reply : Uuid → Uuid → Uuid → GeneratedEvent → Method World (Unit {0})
  reply key cid m e =
      if e.success
      then (do
        let citations = sanitize_citations env.json_size e.citations
        written ← finalize_assistant_message env svc cid m e.full_content citations
        end_turn key cid m (completed_token cid m e.full_content citations) written)
      else (do
        let error_message = error_text e.error_message
        written ← fail_assistant_message env svc cid m error_message
        end_turn key cid m (failed_token cid m error_message) written)

  unfoldable pub generated_of : RawId → Uuid → GeneratedEvent → Method World (Unit {0})
  unfolding reply
  generated_of absent m e = return tt
  generated_of conversation m e = do
    let key = derive_event_id (generated_key m)
    seen ← Inbox.exists env key
    if seen then return tt else (do cid ← parse conversation; reply key cid m e)

  unfoldable pub handle_chat_response_generated : GeneratedEvent → Method World (Unit {0})
  unfolding generated_of
  handle_chat_response_generated e = elim (response_message_id e.response_id) [
    | none ↦ return tt
    | some m ↦ generated_of e.conversation m e
  ]
