-- ===== src/MessageService/Regenerate.antt =====
-- What `regenerate` leaves, when it returns and when it raises.
use conversation_service.Prelude.{
  ◌≡◌, refl, sym, subst, ap, ◌∙◌, false, ◌&&◌, ◌||◌, Option, none, some, List, [], ◌∷◌, arith, ◌==◌,
  ==_iff, Bool-cases, Option-cases, inl, inr,
}
use conversation_service.Model.{Uuid, assistant, pending, Message, is_assistant}
use conversation_service.State.{
  Row, World, ChatMessageCreated, chat_message_created, db_delete, Env,
}
use conversation_service.Errors.Ensures.{Ensures, Ensures-continue, Ensures-value, Ensures-if}
use conversation_service.Messages
use conversation_service.Messages.{page, insert_sent, mark_deleted, write, stage, new_event}
use conversation_service.Messages.Effects.{history-Ensures, batch}
use conversation_service.Messages.Table.{find}
use conversation_service.Helpers.{uuidv7_after}
use conversation_service.MessageService.{Services, resolve_preferences, cache_history_limit}
use conversation_service.MessageService.Send.{
  Ids, locate, prompt_id, replace_answer, regenerate_found, regenerate,
}
use conversation_service.MessageService.Reads.{
  row, row-write-OnlyRow, OnlyRow, SameTables, same, invalidate_cache-SameTables,
}
use conversation_service.MessageService.Staging.{
  Opened, Withdrawn, Fresh, Compensates, open_pending_response-Ensures, Withdrawn-same,
  Withdrawn-SameTables, Opened-SameTables, Fresh-SameTables,
}
use conversation_service.MessageService.Accept.{stage_request-Ensures}

-- Every row of `w` is in `v` as it was, and nothing was added to the outbox.
pub record Keeps (w v : World) : Type 0 where
  pub outbox : v.outbox ≡ w.outbox
  pub rows : (c j : Uuid) (r : Row) → row w c j ≡ some r → row v c j ≡ some r

pub Keeps-Withdrawn : {cid m : Uuid} {w v : World} → Fresh cid m w → Withdrawn cid m w v → Keeps w v
Keeps-Withdrawn {cid} {m} {w} {v} fresh gone = record {
  outbox = gone.outbox;
  rows = λ c j r e. elim (Bool-cases ((c == cid) && (m == j))) [
    | inr n ↦ gone.others c j n ∙ e
    | inl y ↦
        let same_c : c ≡ cid = (==_iff c cid).0 (ground arith) in
        let same_m : m ≡ j = (==_iff m j).0 (ground arith) in
        absurd (clash (sym (ap (λ x. row w x m) same_c ∙ fresh.no_row) ∙ ap (row w c) same_m ∙ e))
  ];
}
  where
    clash : {r : Row} → none ≡ some r → ⊥
    clash e = cc

-- What a regeneration leaves: one request event more in the outbox, under the fresh id of the new
-- answer, and no change in any row but that of the new answer and that of the replaced one.
pub record Regenerated (env : Env) (ids : Ids) (cid m : Uuid) (w : World) (msg : Message)
    (v : World) : Type 0 where
  pub response : Uuid
  pub payload : ChatMessageCreated
  pub staged :
      v.outbox ≡ stage (new_event cid ids.event_id chat_message_created payload env.now) w.outbox
  pub asks :
      (payload.response_message_id ≡ some response)
      × (payload.conversation_id ≡ cid)
      × (payload.message_id ≡ ids.request_id)
  pub fresh : row w cid response ≡ none
  pub others :
      (c j : Uuid) → (c == cid) && ((response == j) || (m == j)) ≡ false → row v c j ≡ row w c j
  pub returned : (msg.message_id ≡ m) × (msg.response_message_id ≡ some response)

-- What `regenerate` returned, and the state that it left.
abbrev pub Outcome : Env → Ids → Uuid → Uuid → World → Option Message → World → Type 0
Outcome env ids cid m w none v = v ≡ w
Outcome env ids cid m w (some msg) v = Regenerated env ids cid m w msg v

-- The id that the call computes for the new answer, from the prompt that it finds, is not in use.
abbrev pub ReplyIsFresh : Env → Ids → Uuid → Uuid → World → Type 0
ReplyIsFresh env ids cid m w =
    (target : Message) (rest : List Message)
    → locate m (page env cid cache_history_limit none w) ≡ some (target, rest)
    → Fresh cid (uuidv7_after ids.candidate (prompt_id target rest)) w

pub locate-id :
    (m : Uuid) (ms : List Message) {x : Message} {rest : List Message}
    → locate m ms ≡ some (x, rest)
    → x.message_id ≡ m
unfolding locate
locate-id m [] e = cc
locate-id m (y ∷ ys) {x} {rest} e =
    ground (arith, locate-id m ys {x = x} {rest = rest}, ==_iff y.message_id m)

delete_rows :
    (env : Env) (cid m : Uuid) (w : World)
    → let v = (Messages.delete env cid m w).1 in (v.outbox ≡ w.outbox) × OnlyRow cid m w v
unfolding Messages.delete
delete_rows env cid m w = elim (Bool-cases (env.down db_delete)) [
  | inl d ↦ rw (d, Messages.delete) (refl, λ c j ne. refl)
  | inr d ↦ rw (d, Messages.delete) (refl, row-write-OnlyRow cid m (mark_deleted m) w (λ o. refl))
]

module _ (env : Env) (svc : Services) (ids : Ids) where
  replace_answer-Ensures :
      (cid : Uuid) (target : Message) (w : World)
      → Ensures
          (λ u v. (v.outbox ≡ w.outbox) × OnlyRow cid target.message_id w v)
          (λ e v. ⊥)
          (replace_answer env svc ids cid target w)
  replace_answer-Ensures cid target w =
      Ensures-if (is_assistant target.sender)
        (λ y. record { after = delete_rows env cid target.message_id w })
        (λ n. record { after = (refl, λ c j ne. refl) })

  -- The states along a regeneration that raises nowhere.
  regenerated :
      (cid m : Uuid) (target : Message) (response : Uuid) (payload : ChatMessageCreated)
      (w w2 w3 w4 w5 : World)
      → target.message_id ≡ m
      → Fresh cid response w
      → Opened env svc cid response w w2
      → w3
        ≡ batch env cid response assistant [] pending ids.event_id chat_message_created payload []
            w2
      → (w4.outbox ≡ w3.outbox) × OnlyRow cid target.message_id w3 w4
      → SameTables w4 w5
      → (payload.response_message_id ≡ some response)
        × (payload.conversation_id ≡ cid)
        × (payload.message_id ≡ ids.request_id)
      → Regenerated env ids cid m w (record target { response_message_id = some response }) w5
  regenerated cid m target response payload w w2 w3 w4 w5 is_m fresh opened put replaced kept asks =
      let f = insert_sent response assistant [] env.now pending [] in
      record {
        response = response;
        payload = payload;
        staged =
            kept.outbox
            ∙ replaced.0
            ∙ ap (λ x. x.outbox) put
            ∙ ap (stage (new_event cid ids.event_id chat_message_created payload env.now))
                opened.outbox;
        asks = asks;
        fresh = fresh.no_row;
        others = λ c j ne.
            ap (λ t. find j (t c)) kept.rows
            ∙ replaced.1 c j (rw is_m (ground arith))
            ∙ ap (λ x. row x c j) put
            ∙ row-write-OnlyRow cid response f w2 (λ o. refl) c j (ground arith)
            ∙ opened.others c j (ground arith);
        returned = (is_m, refl);
      }

  regenerate_found-Regenerated :
      (cid m : Uuid) (owner_id : Option Uuid) (target : Message) (rest : List Message) (w : World)
      → target.message_id ≡ m
      → Compensates env
      → Fresh cid (uuidv7_after ids.candidate (prompt_id target rest)) w
      → Ensures
          (Outcome env ids cid m w)
          (λ e v. Keeps w v)
          (regenerate_found env svc ids cid owner_id target rest w)
  unfolding regenerate_found
  regenerate_found-Regenerated cid m owner_id target rest w is_m up fresh =
      let response = uuidv7_after ids.candidate (prompt_id target rest) in
      let keeps : (v : World) → Withdrawn cid response w v → Keeps w v =
        λ v gone. Keeps-Withdrawn fresh gone in
      Ensures-continue (Ensures-value (resolve_preferences svc owner_id none none) w)
        (λ resolved w1 s1.
          let kept : SameTables w w1 = subst (SameTables w) (sym s1) (same w) in
          Ensures-continue
            (open_pending_response-Ensures env svc cid response w1 up (Fresh-SameTables kept fresh))
            (λ u w2 opened1.
              let opened = Opened-SameTables kept opened1 in
              Ensures-continue
                (stage_request-Ensures env svc ids cid response assistant [] pending _ [] response w
                  w2 up opened)
                (λ msg w3 s3.
                  Ensures-continue (replace_answer-Ensures cid target w3)
                    (λ u w4 s4.
                      Ensures-continue (invalidate_cache-SameTables env svc cid w4)
                        (λ u w5 s5. record {
                          after =
                              regenerated cid m target response _ w w2 w3 w4 w5 is_m fresh opened
                                s3.0 s4 s5 (refl, refl, refl);
                        })
                        (λ e w5 never. absurd never))
                    (λ e w4 never. absurd never))
                (λ e w3 gone. keeps w3 gone))
            (λ e w2 gone. keeps w2 (Withdrawn-SameTables kept gone)))
        (λ e w1 s1. keeps w1 (Withdrawn-same (subst (SameTables w) (sym s1) (same w)) fresh))

  -- `regenerate` never loses an answer. When it raises, every stored row, the answer that was to be
  -- replaced among them, and the outbox are as before. When the message is not in the last 50, the
  -- state is as before. When it returns a message, one request event for a new answer was added,
  -- under an id without a row, and no row but that of the new answer and that of the replaced one
  -- has changed. The calls that withdraw a placeholder do not raise, and the id that this call
  -- gives to the new answer is not in use.
  pub regenerate-Outcome :
      (cid m : Uuid) (user_id : Option Uuid) (w : World)
      → Compensates env
      → ReplyIsFresh env ids cid m w
      → Ensures
          (Outcome env ids cid m w)
          (λ e v. Keeps w v)
          (regenerate env svc ids cid m user_id w)
  unfolding regenerate
  regenerate-Outcome cid m user_id w up fresh =
      Ensures-continue (history-Ensures env cid cache_history_limit none w)
        (λ messages w1 s. elim (Option-cases (locate m messages)) [
          | inl e ↦ rw e (record { after = s.1 })
          | inr ((target, rest), e) ↦ rw e (
              subst
                (λ x.
                  Ensures (Outcome env ids cid m w) (λ e v. Keeps w v)
                    (regenerate_found env svc ids cid user_id target rest x))
                (sym s.1)
                (regenerate_found-Regenerated cid m user_id target rest w (locate-id m messages e)
                  up (fresh target rest (subst (λ ms. locate m ms ≡ some (target, rest)) s.0 e))))
        ])
        (λ e w1 s. subst (Keeps w) (sym s) (record { outbox = refl; rows = λ c j r e. e }))
