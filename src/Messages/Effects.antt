-- ===== src/Messages/Effects.antt =====
-- What each statement of the repository leaves behind, on a return and on a raise.
use conversation_service.Prelude.{◌≡◌, refl, ap, true, false, Option, List, ℕ}
use conversation_service.Model.{Uuid, Text, Sender, MessageStatus, Citation}
use conversation_service.State.{
  World, Call, db_history, db_get_message, db_insert, db_batch, Env, Topic, ChatMessageCreated,
}
use conversation_service.Errors.Ensures.{Ensures, Ensures-continue, Ensures-if}
use conversation_service.Messages.{
  calls, history, get_message, page, read_row, create_message_direct, create_with_outbox, write,
  insert_direct, insert_sent, cleaned, stage, new_event,
}
use conversation_service.Messages.Table.{find, upsert}

module _ (env : Env) where
  pub calls-Ensures :
      (c : Call) (w : World)
      → Ensures
          (λ u v. (env.down c ≡ false) × (v ≡ w))
          (λ e v. (env.down c ≡ true) × (v ≡ w))
          (calls env c w)
  calls-Ensures c w =
      Ensures-if (env.down c) (λ d. record { after = (d, refl) })
        (λ d. record { after = (d, refl) })

  pub history-Ensures :
      (cid : Uuid) (limit : ℕ) (cursor : Option Uuid) (w : World)
      → Ensures
          (λ ms v. (ms ≡ page env cid limit cursor w) × (v ≡ w))
          (λ e v. v ≡ w)
          (history env cid limit cursor w)
  unfolding history
  history-Ensures cid limit cursor w =
      Ensures-continue (calls-Ensures db_history w)
        (λ u v s. record { after = (ap (page env cid limit cursor) s.1, s.1) }) (λ e v s. s.1)

  pub get_message-Ensures :
      (cid m : Uuid) (w : World)
      → Ensures
          (λ found v. (found ≡ read_row env cid (find m (w.rows cid))) × (v ≡ w))
          (λ e v. v ≡ w)
          (get_message env cid m w)
  unfolding get_message
  get_message-Ensures cid m w =
      Ensures-continue (calls-Ensures db_get_message w)
        (λ u v s. record { after = (ap (λ x. read_row env cid (find m (x.rows cid))) s.1, s.1) })
        (λ e v s. s.1)

  -- What `create_message_direct` writes.
  abbrev pub direct : Uuid → Uuid → Sender → Text → MessageStatus → List Citation → World → World
  direct cid m sender content status citations =
      write cid (upsert m (insert_direct m sender content env.now status (cleaned env citations)))

  pub create_message_direct-Ensures :
      (cid m : Uuid) (sender : Sender) (content : Text) (status : MessageStatus)
      (citations : List Citation) (w : World)
      → Ensures
          (λ msg v.
            (v ≡ direct cid m sender content status citations w)
            × (msg.content ≡ content)
            × (msg.status ≡ status)
            × (msg.sender ≡ sender)
            × (msg.message_id ≡ m))
          (λ e v. (v ≡ w) × (env.down db_insert ≡ true))
          (create_message_direct env cid m sender content status citations w)
  unfolding create_message_direct
  create_message_direct-Ensures cid m sender content status citations w =
      Ensures-continue (calls-Ensures db_insert w)
        (λ u v s. record {
          after = (ap (direct cid m sender content status citations) s.1, refl, refl, refl, refl);
        })
        (λ e v s. (s.1, s.0))

  -- What the logged batch of `create_with_outbox` writes.
  abbrev pub batch :
      Uuid
      → Uuid
      → Sender
      → Text
      → MessageStatus
      → Uuid
      → Topic
      → ChatMessageCreated
      → List Uuid
      → World
      → World
  batch cid m sender content status event_id event_type payload file_ids w =
      write cid (upsert m (insert_sent m sender content env.now status file_ids))
        (record w { outbox = stage (new_event cid event_id event_type payload env.now) w.outbox })

  pub create_with_outbox-Ensures :
      (cid m : Uuid) (sender : Sender) (content : Text) (status : MessageStatus) (event_id : Uuid)
      (event_type : Topic) (payload : ChatMessageCreated) (file_ids : List Uuid) (w : World)
      → Ensures
          (λ msg v.
            (v ≡ batch cid m sender content status event_id event_type payload file_ids w)
            × (msg.message_id ≡ m))
          (λ e v. v ≡ w)
          (create_with_outbox env cid m sender content status event_id event_type payload file_ids
            w)
  unfolding create_with_outbox
  create_with_outbox-Ensures cid m sender content status event_id event_type payload file_ids w =
      Ensures-continue (calls-Ensures db_batch w)
        (λ u v s. record {
          after = (
            ap (batch cid m sender content status event_id event_type payload file_ids) s.1,
            refl,
          );
        })
        (λ e v s. s.1)
