-- ===== src/Messages.antt =====
-- app/repositories/message_repository.py. A CQL statement acts on the rows of one partition, which
-- are kept in the clustering order of the schema, `message_id DESC`. A read of a null text gives ""
-- here, and the write timestamps of the statements are not modelled.
pub mod Table
pub mod Effects
use conversation_service.Prelude.{
  ℕ, ◌%◌, Bool, true, false, Option, none, some, List, [], ◌∷◌, ltb, leb, ◌==◌, if◌then◌else◌, keep,
  take,
}
use conversation_service.Model.{
  Uuid, Time, Text, Sender, null, MessageStatus, failed, Message, Citation,
}
use conversation_service.State.{
  RowStatus, live, deleted, Row, Topic, ChatMessageCreated, OutboxEvent, World, Call, db_history,
  db_get_message, db_insert, db_batch, db_delete, Env,
}
use conversation_service.Citations.{Json, arr, sanitize_citations, loads_citations, to_items}
use conversation_service.Errors.{Method, Error, storage, ◌>>=◌, ◌>>◌, return, fail}
use conversation_service.Messages.Table.{find, upsert}

-- A call of an outside service, which raises if it is down.
abbrev pub calls : Env → Call → Method World (Unit {0})
calls env c w = if env.down c then fail storage w else return tt w

-- A write of one partition.
abbrev pub write : Uuid → (List Row → List Row) → World → World
write cid f w = record w { rows = λ c. if c == cid then f (w.rows c) else w.rows c }

-- The columns of a row that a statement creates and does not write.
abbrev pub blank : Uuid → Row
blank m = record {
  message_id = m;
  sender = null;
  content = [];
  created_at = 0;
  status = deleted;
  file_ids = [];
  citations = [];
}

abbrev pub row_or_blank : Uuid → Option Row → Row
row_or_blank m none = blank m
row_or_blank m (some r) = r

-- INSERT of the listed columns: the others keep what they hold.
abbrev pub insert_sent : Uuid → Sender → Text → Time → MessageStatus → List Uuid → Option Row → Row
insert_sent m sender content now status file_ids old = record (row_or_blank m old) {
  message_id = m;
  sender = sender;
  content = content;
  created_at = now;
  status = live status;
  file_ids = file_ids;
}

abbrev pub insert_direct :
    Uuid → Sender → Text → Time → MessageStatus → List Citation → Option Row → Row
insert_direct m sender content now status [] old = record (row_or_blank m old) {
  message_id = m;
  sender = sender;
  content = content;
  created_at = now;
  status = live status;
}
insert_direct m sender content now status (c ∷ clean) old = record (row_or_blank m old) {
  message_id = m;
  sender = sender;
  content = content;
  created_at = now;
  status = live status;
  citations = c ∷ clean;
}

-- UPDATE ... SET status = 'deleted', which creates a row where there is none.
abbrev pub mark_deleted : Uuid → Option Row → Row
mark_deleted m old = record (row_or_blank m old) { message_id = m; status = deleted }

-- The place of an event among those of the outbox, by its time-ordered id.
unfoldable pub stage : OutboxEvent → List OutboxEvent → List OutboxEvent
stage e [] = e ∷ []
stage e (d ∷ ds) =
    let rest = stage e ds in if ltb e.event_id d.event_id then e ∷ d ∷ ds else d ∷ rest

abbrev pub new_event : Uuid → Uuid → Topic → ChatMessageCreated → Time → OutboxEvent
new_event cid event_id event_type payload now = record {
  bucket = cid % 32;
  event_id = event_id;
  event_type = event_type;
  payload = payload;
  published = false;
  created_at = now;
}

abbrev new_message :
    Uuid → Uuid → Sender → Text → Time → MessageStatus → List Uuid → List Citation → Message
new_message cid m sender content now status file_ids citations = record {
  conversation_id = cid;
  message_id = m;
  sender = sender;
  content = content;
  created_at = now;
  status = status;
  file_ids = file_ids;
  citations = citations;
  response_message_id = none;
}

module _ (env : Env) where
  unfoldable pub create_with_outbox :
      Uuid
      → Uuid
      → Sender
      → Text
      → MessageStatus
      → Uuid
      → Topic
      → ChatMessageCreated
      → List Uuid
      → Method World Message
  create_with_outbox cid m sender content status event_id event_type payload file_ids = do
    calls env db_batch
    λ w. return tt (
        write cid (upsert m (insert_sent m sender content env.now status file_ids)) (record w {
          outbox = stage (new_event cid event_id event_type payload env.now) w.outbox;
        }))
    return (new_message cid m sender content env.now status file_ids [])

  abbrev pub as_message : Uuid → MessageStatus → Row → Message
  as_message cid status r =
      new_message cid r.message_id r.sender r.content r.created_at status r.file_ids
        (loads_citations env.json_size r.citations)

  -- The rows that are not soft-deleted, as messages.
  abbrev pub shown : Uuid → List Row → List Message
  shown cid [] = []
  shown cid (r ∷ rs) =
      let rest = shown cid rs in
      elim r.status [ live status ↦ as_message cid status r ∷ rest | deleted ↦ rest ]

  abbrev pub below : Option Uuid → Row → Bool
  below none r = true
  below (some cursor) r = ltb r.message_id cursor

  -- LIMIT counts the soft-deleted rows too.
  abbrev pub page : Uuid → ℕ → Option Uuid → World → List Message
  page cid limit cursor w = shown cid (take limit (keep (below cursor) (w.rows cid)))

  unfoldable pub history : Uuid → ℕ → Option Uuid → Method World (List Message)
  history cid limit cursor = do calls env db_history; λ w. return (page cid limit cursor w) w

  abbrev pub page_upto : Uuid → Uuid → ℕ → World → List Message
  page_upto cid upto limit w =
      shown cid (take limit (keep (λ r. leb r.message_id upto) (w.rows cid)))

  unfoldable pub history_upto : Uuid → Uuid → ℕ → Method World (List Message)
  history_upto cid upto limit = do calls env db_history; λ w. return (page_upto cid upto limit w) w

  abbrev pub read_row : Uuid → Option Row → Option Message
  read_row cid none = none
  read_row cid (some r) = elim r.status [
    | live status ↦ some (as_message cid status r)
    | deleted ↦ some (as_message cid failed r)
  ]

  -- A soft-deleted row is read as a failed message.
  unfoldable pub get_message : Uuid → Uuid → Method World (Option Message)
  get_message cid m = do
    calls env db_get_message
    λ w. return (read_row cid (find m (w.rows cid))) w

  unfoldable pub delete : Uuid → Uuid → Method World Bool
  delete cid m = do calls env db_delete; λ w. return true (write cid (upsert m (mark_deleted m)) w)

  abbrev pub cleaned : List Citation → List Citation
  cleaned [] = []
  cleaned (c ∷ cs) = sanitize_citations env.json_size (arr (to_items (c ∷ cs)))

  unfoldable pub create_message_direct :
      Uuid → Uuid → Sender → Text → MessageStatus → List Citation → Method World Message
  create_message_direct cid m sender content status citations = do
    calls env db_insert
    λ w.
        return tt (
          write cid (upsert m (insert_direct m sender content env.now status (cleaned citations)))
            w)
    return (new_message cid m sender content env.now status [] (cleaned citations))

  unfoldable pub delete_all_for_conversation : Uuid → Method World Bool
  delete_all_for_conversation cid = do
    calls env db_delete
    λ w. return true (write cid (λ rs. []) w)
