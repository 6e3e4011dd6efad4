-- ===== src/MessageService/Accept.antt =====
-- What `send` of a user's message does as a whole.
use conversation_service.Prelude.{
  ◌-◌, ◌^◌, ◌<◌, ◌≡◌, refl, sym, subst, ap, ◌∙◌, Bool, false, ◌&&◌, ◌||◌, Option, some, List, arith,
  ◌==◌, ==_refl, ==_iff,
}
use conversation_service.Model.{Uuid, Text, Sender, MessageStatus, user, sent, Message}
use conversation_service.State.{World, ChatMessageCreated, chat_message_created, Env}
use conversation_service.Errors.Ensures.{Ensures, Ensures-continue, Ensures-except, Ensures-value}
use conversation_service.Messages.{insert_sent, stage, new_event}
use conversation_service.Messages.Effects.{create_with_outbox-Ensures, batch}
use conversation_service.Messages.Table.{find}
use conversation_service.Helpers.{uuidv7_after}
use conversation_service.Helpers.After.{lt-uuidv7_after}
use conversation_service.MessageService.{Services, resolve_preferences}
use conversation_service.MessageService.Pending.{discard_pending_response}
use conversation_service.MessageService.Send.{Ids, stage_request, send}
use conversation_service.MessageService.Reads.{
  row, row-write, row-write-OnlyRow, OnlyRow, IsOpen, SameTables, recent_history-SameTables,
  invalidate_cache-SameTables,
}
use conversation_service.MessageService.Staging.{
  Opened, Withdrawn, Withdrawn-same, Withdrawn-SameTables, Opened-SameTables, Fresh-SameTables,
  Fresh, Compensates, open_pending_response-Ensures, discard_pending_response-Withdrawn,
}

-- What is left after a message was accepted: its row, an open placeholder for the reply, and one
-- request event in the outbox that carries both ids.
pub record Accepted (env : Env) (ids : Ids) (cid m : Uuid) (content : Text) (file_ids : List Uuid)
    (response : Uuid) (w : World) (msg : Message) (v : World) : Type 0 where
  pub greater : m < response
  pub payload : ChatMessageCreated
  pub staged :
      v.outbox ≡ stage (new_event cid ids.event_id chat_message_created payload env.now) w.outbox
  pub asks :
      (payload.message_id ≡ m)
      × (payload.response_message_id ≡ some response)
      × (payload.conversation_id ≡ cid)
      × (payload.content ≡ content)
      × (payload.file_ids ≡ file_ids)
  pub stored : row v cid m ≡ some (insert_sent m user content env.now sent file_ids (row w cid m))
  pub placeholder : IsOpen (row v cid response)
  pub others :
      (c j : Uuid) → (c == cid) && ((m == j) || (response == j)) ≡ false → row v c j ≡ row w c j
  pub returned : (msg.message_id ≡ m) × (msg.response_message_id ≡ some response)

module _ (env : Env) (svc : Services) (ids : Ids) where
  pub stage_request-Ensures :
      (cid m : Uuid) (sender : Sender) (content : Text) (status : MessageStatus)
      (payload : ChatMessageCreated) (file_ids : List Uuid) (response : Uuid) (w v : World)
      → Compensates env
      → Opened env svc cid response w v
      → Ensures
          (λ msg x.
            (x
              ≡ batch env cid m sender content status ids.event_id chat_message_created payload
                  file_ids v)
            × (msg.message_id ≡ m))
          (λ e x. Withdrawn cid response w x)
          (stage_request env svc ids cid m sender content status payload file_ids (some response) v)
  unfolding stage_request
  stage_request-Ensures cid m sender content status payload file_ids response w v up opened =
      Ensures-except
        (create_with_outbox-Ensures env cid m sender content status ids.event_id
          chat_message_created payload file_ids v)
        (λ msg x s. s)
        (λ e x s. record {
          after =
              subst
                (λ y. Withdrawn cid response w (discard_pending_response env svc cid response y))
                (sym s) (discard_pending_response-Withdrawn env svc cid response w v up opened);
        })

  -- The state after the batch and the cache write, for a placeholder that was opened before.
  accepted :
      (cid m : Uuid) (content : Text) (payload : ChatMessageCreated) (file_ids : List Uuid)
      (response : Uuid) (w u x : World) (msg : Message)
      → m < response
      → Opened env svc cid response w u
      → SameTables
          (batch env cid m user content sent ids.event_id chat_message_created payload file_ids u)
          x
      → (payload.message_id ≡ m)
        × (payload.response_message_id ≡ some response)
        × (payload.conversation_id ≡ cid)
        × (payload.content ≡ content)
        × (payload.file_ids ≡ file_ids)
      → (msg.message_id ≡ m) × (msg.response_message_id ≡ some response)
      → Accepted env ids cid m content file_ids response w msg x
  accepted cid m content payload file_ids response w u x msg lt opened kept asks returned =
      let f = insert_sent m user content env.now sent file_ids in
      let put =
        batch env cid m user content sent ids.event_id chat_message_created payload file_ids u in
      let differ : (m == response) ≡ false = ground (arith, ==_iff m response) in
      let differ' : (response == m) ≡ false = ground (arith, ==_iff response m) in
      let at : row put cid m ≡ some (f (row u cid m)) = row-write cid m f u (λ o. refl) in
      let only : OnlyRow cid m u put = row-write-OnlyRow cid m f u (λ o. refl) in
      let same_row : (c j : Uuid) → row x c j ≡ row put c j =
        λ c j. ap (λ t. find j (t c)) kept.rows in
      record {
        greater = lt;
        payload = payload;
        staged =
            kept.outbox
            ∙ ap (stage (new_event cid ids.event_id chat_message_created payload env.now))
                opened.outbox;
        asks = asks;
        stored =
            same_row cid m
            ∙ at
            ∙ ap (λ o. some (f o)) (opened.others cid m (rw (==_refl cid, differ') refl));
        placeholder =
            subst IsOpen
              (sym (same_row cid response ∙ only cid response (rw (==_refl cid, differ) refl)))
              opened.open_row;
        others =
            λ c j ne. same_row c j ∙ only c j (ground arith) ∙ opened.others c j (ground arith);
        returned = returned;
      }

  -- `send` of a user's message either accepts it or raises. When it returns, the message is stored,
  -- the reply has an open placeholder under a greater id, and exactly one request event, which names
  -- both, was added to the outbox. When it raises, the outbox and every row but the placeholder's are
  -- as before, the message's own among them, the placeholder is hidden and its timeout marker is
  -- gone. The id of the message is not the greatest UUID, the calls that withdraw a placeholder do
  -- not raise, and the id of the reply is not in use.
  pub send-Accepted :
      (cid m : Uuid) (content : Text) (user_id : Option Uuid) (mode : Option Text)
      (tools : Option (List Text)) (file_ids : List Uuid) (diagrams : Bool) (w : World)
      → m < 2 ^ 128 - 1
      → Compensates env
      → Fresh cid (uuidv7_after ids.candidate m) w
      → Ensures
          (λ msg v. Accepted env ids cid m content file_ids (uuidv7_after ids.candidate m) w msg v)
          (λ e v. Withdrawn cid (uuidv7_after ids.candidate m) w v)
          (send env svc ids cid m user content user_id mode tools file_ids diagrams w)
  unfolding send
  send-Accepted cid m content user_id mode tools file_ids diagrams w small up fresh =
      let response = uuidv7_after ids.candidate m in
      Ensures-continue (recent_history-SameTables env svc cid w)
        (λ own w1 s1.
          Ensures-continue (Ensures-value (resolve_preferences svc user_id mode tools) w1)
            (λ resolved w2 s2.
              let kept : SameTables w w2 = subst (SameTables w) (sym s2) s1 in
              Ensures-continue
                (open_pending_response-Ensures env svc cid response w2 up
                  (Fresh-SameTables kept fresh))
                (λ u w3 opened.
                  Ensures-continue
                    (stage_request-Ensures cid m user content sent _ file_ids response w2 w3 up
                      opened)
                    (λ msg w4 s4.
                      Ensures-continue (invalidate_cache-SameTables env svc cid w4)
                        (λ u w5 s5. record {
                          after =
                              accepted cid m content _ file_ids response w w3 w5 _
                                (lt-uuidv7_after ids.candidate m small)
                                (Opened-SameTables kept opened)
                                (subst (λ y. SameTables y w5) s4.0 s5)
                                (refl, refl, refl, refl, refl) (s4.1, refl);
                        })
                        (λ e w5 s5. absurd s5))
                    (λ e w4 gone. Withdrawn-SameTables kept gone))
                (λ e w3 gone. Withdrawn-SameTables kept gone))
            (λ e w2 s2. Withdrawn-same (subst (SameTables w) (sym s2) s1) fresh))
        (λ e w1 s1. absurd s1)
