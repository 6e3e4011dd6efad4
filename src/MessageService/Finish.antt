-- ===== src/MessageService/Finish.antt =====
-- The writes that end a turn: `_is_writable_assistant_row`, `finalize_assistant_message`,
-- `fail_assistant_message`, `attach_summary` and `delete` of app/services/message_service.py.
pub mod Rows
pub mod Safety
use conversation_service.Prelude.{
  Bool, true, false, not, ◌&&◌, Option, none, some, List, [], ◌++◌, if◌then◌else◌,
}
use conversation_service.Model.{
  Uuid, Text, assistant, system, sent, failed, is_sent, is_assistant, Message, Citation,
}
use conversation_service.Text.{is_empty}
use conversation_service.State.{World, Env}
use conversation_service.Errors.{Method, ◌>>=◌, ◌>>◌, return}
use conversation_service.Messages
use conversation_service.Strings.{codes}
use conversation_service.MessageService.{Services, invalidate_cache}

abbrev pub writable : Option Message → Bool
writable none = true
writable (some existing) = is_assistant existing.sender

-- A stored reply: a late failure must not overwrite it.
abbrev pub completed : Option Message → Bool
completed none = false
completed (some existing) =
    is_assistant existing.sender && is_sent existing.status && not (is_empty existing.content)

module _ (env : Env) (svc : Services) where
  unfoldable pub is_writable_assistant_row : Uuid → Uuid → Method World Bool
  is_writable_assistant_row cid m = do
    existing ← Messages.get_message env cid m
    return (writable existing)

  finalize_write : Uuid → Uuid → Text → List Citation → Method World (Option Message)
  finalize_write cid m content citations = do
    msg ← Messages.create_message_direct env cid m assistant content sent citations
    invalidate_cache env svc cid
    return (some msg)

  unfoldable pub finalize_assistant_message :
      Uuid → Uuid → Text → List Citation → Method World (Option Message)
  unfolding is_writable_assistant_row finalize_write
  finalize_assistant_message cid m content citations = do
    fine ← is_writable_assistant_row cid m
    if fine then finalize_write cid m content citations else return none

  fail_write : Uuid → Uuid → Text → Method World (Option Message)
  fail_write cid m error_message = do
    msg ← Messages.create_message_direct env cid m assistant error_message failed []
    invalidate_cache env svc cid
    return (some msg)

  fail_checked : Uuid → Uuid → Text → Method World (Option Message)
  unfolding fail_write
  fail_checked cid m error_message = do
    existing ← Messages.get_message env cid m
    if completed existing then return existing else fail_write cid m error_message

  unfoldable pub fail_assistant_message : Uuid → Uuid → Text → Method World (Option Message)
  unfolding is_writable_assistant_row fail_checked
  fail_assistant_message cid m error_message = do
    fine ← is_writable_assistant_row cid m
    if fine then fail_checked cid m error_message else return none

  -- `summary_id` is the `uuid4` of the new message.
  unfoldable pub attach_summary : Uuid → Uuid → Text → Method World Message
  attach_summary summary_id cid summary = do
    msg ←
        Messages.create_message_direct env cid summary_id system (codes "Summary: " ++ summary) sent
          []
    invalidate_cache env svc cid
    return msg

  unfoldable pub delete : Uuid → Uuid → Method World Bool
  delete cid m = do
    success ← Messages.delete env cid m
    if success then (do invalidate_cache env svc cid; return true) else return false
