-- ===== src/MessageService/Send.antt =====
-- `send` and `regenerate` of app/services/message_service.py: the request event and its staging.
use conversation_service.Prelude.{
  ℕ, Bool, false, Option, none, some, List, [], ◌∷◌, ◌++◌, ◌==◌, if◌then◌else◌, is_some,
}
use mathlib.Core.List.{map}
use conversation_service.Model.{
  Uuid, Text, Sender, user, assistant, MessageStatus, pending, sent, is_assistant, Message,
}
use conversation_service.State.{
  chat_message_created, HistoryEntry, Inherited, AncestorRef, Metadata, empty, regeneration,
  ChatMessageCreated, World, Env,
}
use conversation_service.Errors.{
  Result, ok, raised, Error, Method, ◌>>=◌, ◌>>◌, return, fail, except,
}
use conversation_service.Messages
use conversation_service.Helpers.{uuidv7_after}
use conversation_service.MessageService.{
  Services, Resolved, resolve_preferences, format_history, recent_history, invalidate_cache, or_nil,
  cache_history_limit,
}
use conversation_service.MessageService.Pending.{open_pending_response, discard_pending_response}

-- The ids that a request takes: those that `uuidv7` returns, and the event's.
pub record Ids : Type 0 where
  pub candidate : ℕ → Uuid
  pub event_id : Uuid
  pub request_id : Uuid

abbrev marked : Inherited → HistoryEntry
marked h = record {
  role = h.role;
  content = h.content;
  message_id = none;
  source_conversation_id = some h.conversation_id;
}

-- Best effort: what cannot be read is left out.
unfoldable pub branch_event_context :
    Services → Uuid → List HistoryEntry → List HistoryEntry × List AncestorRef
branch_event_context svc cid own = elim svc.branch_get [
  | none ↦ (own, [])
  | some branch_get ↦ elim (branch_get cid) [
    | raised e ↦ (own, [])
    | ok found ↦ elim found [
      | none ↦ (own, [])
      | some conv ↦
          if is_some conv.parent_conversation_id
          then elim (svc.event_context conv) [
            | raised e ↦ (own, [])
            | ok context ↦ (map marked context.0 ++ own, context.1)
          ]
          else (own, [])
    ]
  ]
]

module _ (env : Env) (svc : Services) (ids : Ids) where
  abbrev pub chat_message_created_payload :
      Uuid
      → Uuid
      → Option Uuid
      → Text
      → Resolved
      → List Uuid
      → Option Uuid
      → List HistoryEntry
      → List AncestorRef
      → Bool
      → Metadata
      → ChatMessageCreated
  chat_message_created_payload cid m user_id content resolved file_ids response history ancestors
        include_diagrams metadata =
      record {
        message_id = m;
        response_message_id = response;
        conversation_id = cid;
        user_id = user_id;
        content = content;
        mode_hint = resolved.mode;
        selected_tools = or_nil resolved.selected_tools;
        include_diagrams = include_diagrams;
        file_ids = file_ids;
        history = history;
        ancestors = ancestors;
        custom_mode = resolved.custom_mode;
        preferences = resolved.generation;
        defaults_applied = resolved.defaults_applied;
        metadata = metadata;
        timestamp = env.now;
      }

  abbrev discard_if : Uuid → Option Uuid → Error → Method World Message
  discard_if cid none e w = fail e w
  discard_if cid (some id) e w = fail e (discard_pending_response env svc cid id w)

  -- The batch, and the compensation if it raises.
  unfoldable pub stage_request :
      Uuid
      → Uuid
      → Sender
      → Text
      → MessageStatus
      → ChatMessageCreated
      → List Uuid
      → Option Uuid
      → Method World Message
  stage_request cid m sender content status payload file_ids response w =
      except
        (Messages.create_with_outbox env cid m sender content status ids.event_id
          chat_message_created payload file_ids w)
        (discard_if cid response)

  abbrev open_if : Uuid → Option Uuid → Method World (Unit {0})
  open_if cid none = return tt
  open_if cid (some id) = open_pending_response env svc cid id

  abbrev lift : Result Resolved → Method World Resolved
  lift r w = (r, w)

  abbrev history_if : Uuid → Sender → Method World (List HistoryEntry)
  history_if cid user = recent_history env svc cid
  history_if cid _ = return []

  abbrev context_if : Uuid → Sender → List HistoryEntry → List HistoryEntry × List AncestorRef
  context_if cid user own = branch_event_context svc cid own
  context_if cid _ own = (own, [])

  abbrev pub response_id : Uuid → Sender → Option Uuid
  response_id m user = some (uuidv7_after ids.candidate m)
  response_id m _ = none

  unfoldable pub send :
      Uuid
      → Uuid
      → Sender
      → Text
      → Option Uuid
      → Option Text
      → Option (List Text)
      → List Uuid
      → Bool
      → Method World Message
  send cid m sender content user_id mode tools file_ids include_diagrams = do
    own ← history_if cid sender
    resolved ← lift (resolve_preferences svc user_id mode tools)
    let response = response_id m sender
    let context = context_if cid sender own
    let payload =
        chat_message_created_payload cid m user_id content resolved file_ids response context.0
          context.1 include_diagrams empty
    open_if cid response
    msg ← stage_request cid m sender content sent payload file_ids response
    invalidate_cache env svc cid
    return (record msg { response_message_id = response })

-- The message `m` in a newest-first history, with the messages older than it.
unfoldable pub locate : Uuid → List Message → Option (Message × List Message)
locate m [] = none
locate m (x ∷ xs) = if x.message_id == m then some (x, xs) else locate m xs

abbrev pub prompt_id : Message → List Message → Uuid
prompt_id target [] = target.message_id
prompt_id target (prompt ∷ older) = prompt.message_id

abbrev prompt_content : List Message → Text
prompt_content [] = []
prompt_content (prompt ∷ older) = prompt.content

abbrev prompt_files : List Message → List Uuid
prompt_files [] = []
prompt_files (prompt ∷ older) = prompt.file_ids

abbrev prompt_ref : List Message → Option Uuid
prompt_ref [] = none
prompt_ref (prompt ∷ older) = some prompt.message_id

abbrev older_than_prompt : List Message → List Message
older_than_prompt [] = []
older_than_prompt (prompt ∷ older) = older

module _ (env : Env) (svc : Services) (ids : Ids) where
  -- The custom mode of the resolved preferences is not put into the payload.
  abbrev pub regenerate_payload :
      Uuid → Uuid → Option Uuid → Resolved → List Message → Uuid → ChatMessageCreated
  regenerate_payload cid m owner_id resolved rest response =
      record (chat_message_created_payload env svc ids cid ids.request_id owner_id
        (prompt_content rest) resolved (prompt_files rest) (some response)
        (format_history (older_than_prompt rest)) [] false (regeneration (prompt_ref rest) m)) {
          custom_mode = none;
        }

  -- The replaced answer goes last; an exception of its delete is logged.
  abbrev pub replace_answer : Uuid → Message → Method World (Unit {0})
  replace_answer cid target w =
      if is_assistant target.sender
      then return tt (Messages.delete env cid target.message_id w).1
      else return tt w

  unfoldable pub regenerate_found :
      Uuid → Option Uuid → Message → List Message → Method World (Option Message)
  regenerate_found cid owner_id target rest = do
    let response = uuidv7_after ids.candidate (prompt_id target rest)
    resolved ← lift env svc ids (resolve_preferences svc owner_id none none)
    let payload = regenerate_payload cid target.message_id owner_id resolved rest response
    open_pending_response env svc cid response
    stage_request env svc ids cid response assistant [] pending payload [] (some response)
    replace_answer cid target
    invalidate_cache env svc cid
    return (some (record target { response_message_id = some response }))

  unfoldable pub regenerate : Uuid → Uuid → Option Uuid → Method World (Option Message)
  unfolding locate regenerate_found
  regenerate cid m user_id = do
    messages ← Messages.history env cid cache_history_limit none
    elim (locate m messages) [
      | none ↦ return none
      | some (target, rest) ↦ regenerate_found cid user_id target rest
    ]
