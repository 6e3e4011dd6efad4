-- ===== src/MessageService/Returns.antt =====
-- The methods of the service with every outside call up.
use conversation_service.Prelude.{
  ◌-◌, ◌^◌, ◌<◌, ◌≡◌, Bool, true, false, not, Option, List, [], arith,
}
use conversation_service.Model.{
  Uuid, Text, Sender, user, assistant, pending, sent, MessageStatus, Citation,
}
use conversation_service.State.{
  World, Call, ChatMessageCreated, Topic, chat_message_created, db_insert, db_batch, marker_set,
  marker_zadd, Env,
}
use conversation_service.Errors.{ok}
use conversation_service.Errors.Ensures.{
  Ensures, Ensures-continue, Ensures-except, Ensures-if, Returns, Ensures-Returns,
}
use conversation_service.Messages.{calls, create_message_direct, create_with_outbox}
use conversation_service.Helpers.{uuidv7_after}
use conversation_service.MessageService.{Services, Resolved, cache_on, resolve_preferences}
use conversation_service.MessageService.Pending.{register_pending_response, open_pending_response}
use conversation_service.MessageService.Send.{Ids, stage_request, send}
use conversation_service.MessageService.Reads.{
  recent_history-SameTables, invalidate_cache-SameTables,
}
use conversation_service.MessageService.Staging.{Fresh}
use conversation_service.MessageService.Accept.{Accepted, send-Accepted}

module _ (env : Env) where
  calls-Returns : (c : Call) (w : World) → env.down c ≡ false → Returns (calls env c w)
  calls-Returns c w up =
      Ensures-if (env.down c) (λ d. absurd (clash d up)) (λ d. record { after = tt })
    where
      clash : {b : Bool} → b ≡ true → b ≡ false → ⊥
      clash p q = cc

  create_message_direct-Returns :
      (cid m : Uuid) (sender : Sender) (content : Text) (status : MessageStatus)
      (citations : List Citation) (w : World)
      → env.down db_insert ≡ false
      → Returns (create_message_direct env cid m sender content status citations w)
  unfolding create_message_direct
  create_message_direct-Returns cid m sender content status citations w up =
      Ensures-continue (calls-Returns db_insert w up) (λ u v s. record { after = tt }) (λ e v s. s)

  create_with_outbox-Returns :
      (cid m : Uuid) (sender : Sender) (content : Text) (status : MessageStatus) (event_id : Uuid)
      (event_type : Topic) (payload : ChatMessageCreated) (file_ids : List Uuid) (w : World)
      → env.down db_batch ≡ false
      → Returns (
          create_with_outbox env cid m sender content status event_id event_type payload file_ids w)
  unfolding create_with_outbox
  create_with_outbox-Returns cid m sender content status event_id event_type payload file_ids w up =
      Ensures-continue (calls-Returns db_batch w up) (λ u v s. record { after = tt }) (λ e v s. s)

module _ (env : Env) (svc : Services) where
  register-Returns :
      (cid m : Uuid) (w : World)
      → ((c : Call) → env.down c ≡ false)
      → cache_on env svc ≡ true
      → Returns (register_pending_response env svc cid m w)
  unfolding register_pending_response
  register-Returns cid m w up on =
      Ensures-if (not (cache_on env svc)) (λ off. absurd (ground (arith, off, on)))
        (λ y.
          Ensures-if (env.down marker_set) (λ d. absurd (clash d (up marker_set)))
            (λ s.
              Ensures-if (env.down marker_zadd) (λ d. absurd (clash d (up marker_zadd)))
                (λ z. record { after = tt })))
    where
      clash : {b : Bool} → b ≡ true → b ≡ false → ⊥
      clash p q = cc

  open_pending_response-Returns :
      (cid m : Uuid) (w : World)
      → ((c : Call) → env.down c ≡ false)
      → cache_on env svc ≡ true
      → Returns (open_pending_response env svc cid m w)
  unfolding open_pending_response
  open_pending_response-Returns cid m w up on =
      Ensures-continue
        (create_message_direct-Returns env cid m assistant [] pending [] w (up db_insert))
        (λ msg v s.
          Ensures-except (register-Returns cid m v up on) (λ u x t. tt) (λ e x t. absurd t))
        (λ e v s. s)

module _ (env : Env) (svc : Services) (ids : Ids) where
  send-Returns :
      (cid m : Uuid) (content : Text) (user_id : Option Uuid) (mode : Option Text)
      (tools : Option (List Text)) (file_ids : List Uuid) (diagrams : Bool) (w : World)
      (resolved : Resolved)
      → ((c : Call) → env.down c ≡ false)
      → cache_on env svc ≡ true
      → resolve_preferences svc user_id mode tools ≡ ok resolved
      → Returns (send env svc ids cid m user content user_id mode tools file_ids diagrams w)
  unfolding send stage_request
  send-Returns cid m content user_id mode tools file_ids diagrams w resolved up on prefs =
      Ensures-continue (recent_history-SameTables env svc cid w)
        (λ own w1 s1. rw prefs (
          Ensures-continue
            (open_pending_response-Returns env svc cid (uuidv7_after ids.candidate m) w1 up on)
            (λ u w2 s2.
              Ensures-continue
                (Ensures-except
                  (create_with_outbox-Returns env cid m user content sent ids.event_id
                    chat_message_created _ file_ids w2 (up db_batch))
                  (λ msg x t. tt) (λ e x t. absurd t))
                (λ msg w3 s3.
                  Ensures-continue (invalidate_cache-SameTables env svc cid w3)
                    (λ u w4 s4. record { after = tt }) (λ e w4 s4. s4))
                (λ e w3 s3. s3))
            (λ e w2 s2. s2)))
        (λ e w1 s1. s1)

  -- While no outside call raises, Redis is there and the preferences resolve, every message of a user
  -- under an id that is not the greatest is accepted, if the id of the reply is not in use: `send`
  -- returns, with the message stored, an open placeholder, and one request event staged.
  pub send_accepts :
      (cid m : Uuid) (content : Text) (user_id : Option Uuid) (mode : Option Text)
      (tools : Option (List Text)) (file_ids : List Uuid) (diagrams : Bool) (w : World)
      (resolved : Resolved)
      → m < 2 ^ 128 - 1
      → Fresh cid (uuidv7_after ids.candidate m) w
      → ((c : Call) → env.down c ≡ false)
      → cache_on env svc ≡ true
      → resolve_preferences svc user_id mode tools ≡ ok resolved
      → Ensures
          (λ msg v. Accepted env ids cid m content file_ids (uuidv7_after ids.candidate m) w msg v)
          (λ e v. ⊥)
          (send env svc ids cid m user content user_id mode tools file_ids diagrams w)
  send_accepts cid m content user_id mode tools file_ids diagrams w resolved small fresh up on
        prefs =
      Ensures-Returns
        (send-Accepted env svc ids cid m content user_id mode tools file_ids diagrams w small
          (record { deletes = up _; clears = up _ }) fresh)
        (send-Returns cid m content user_id mode tools file_ids diagrams w resolved up on prefs)
