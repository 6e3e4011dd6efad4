-- ===== src/Consumers/Delivered.antt =====
-- The delivery of a final reply, and a second delivery of its event.
use conversation_service.Prelude.{
  ◌≡◌, refl, sym, subst, ap, ◌∙◌, Bool, true, false, Option, none, some, [], ◌∷◌, ◌++◌,
}
use conversation_service.Model.{Uuid, Text, Message, sent}
use conversation_service.State.{StreamEvent, World, publish, marker_delete, inbox_exists, Env}
use conversation_service.Citations.{Json, sanitize_citations}
use conversation_service.Errors.{ok}
use conversation_service.Errors.Ensures.{Ensures, Ensures-continue, Ensures-test, Ensures-map}
use conversation_service.Messages.Table.{find}
use conversation_service.MessageService.{Services, cache_on}
use conversation_service.MessageService.Reads.{row, OnlyRow}
use conversation_service.MessageService.Finish.Safety.{
  Finalized, finalize_assistant_message-Finalized,
}
use conversation_service.MessageService.Finish.Rows.{ForAssistant, Holds}
use conversation_service.Inbox
use conversation_service.Consumers.{
  uuid, EventKey, generated_key, GeneratedEvent, completed_token, end_turn, reply, generated_of,
  handle_chat_response_generated,
}
use conversation_service.Consumers.Delivery.{Published, end_turn-TurnEnded}
use conversation_service.Consumers.Safety.{exists-Ensures}

-- The event of a successful generation, for the reply `m` of the conversation `cid`.
abbrev pub success_event : Uuid → Uuid → Text → Text → Json → GeneratedEvent
success_event cid m full_content error_message citations = record {
  response_id = uuid m;
  conversation = uuid cid;
  success = true;
  full_content = full_content;
  error_message = error_message;
  citations = citations;
}

handled_again :
    (env : Env) (svc : Services) (derive : EventKey → Uuid) (m : Uuid) (e : GeneratedEvent)
    (cid : Uuid) (w : World)
    → e.response_id ≡ uuid m
    → e.conversation ≡ uuid cid
    → env.down inbox_exists ≡ false
    → w.inbox (derive (generated_key m)) ≡ true
    → handle_chat_response_generated env svc derive e w ≡ (ok tt, w)
unfolding handle_chat_response_generated generated_of Inbox.exists
handled_again env svc derive m e cid w response conversation up seen =
    rw (response, conversation, up, seen) refl

Published-from :
    (token : StreamEvent) (w x v : World)
    → x.streamed ≡ w.streamed
    → Published token x v
    → Published token w v
Published-from token w x v same (id, e) =
    (id, e ∙ ap (λ l. l ++ record token { event_id = id } ∷ []) same)

-- What the handling of `e` leaves, with `token` for the clients.
pub record Delivered (env : Env) (svc : Services) (derive : EventKey → Uuid) (e : GeneratedEvent)
    (token : StreamEvent) (cid m : Uuid) (w v : World) : Type 0 where
  pub holds : Holds e.full_content sent (row v cid m)
  pub others : OnlyRow cid m w v
  pub outbox : v.outbox ≡ w.outbox
  pub cleared : cache_on env svc ≡ true → env.down marker_delete ≡ false → v.marker m ≡ none
  pub told : env.redis ≡ true → env.down publish ≡ false → Published token w v
  pub again :
      (other : Env) (services : Services)
      → other.down inbox_exists ≡ false
      → handle_chat_response_generated other services derive e v ≡ (ok tt, v)

module _ (env : Env) (svc : Services) (derive : EventKey → Uuid) (cid m : Uuid)
    (full_content error_message : Text) (citations : Json) where
  abbrev event : GeneratedEvent
  event = success_event cid m full_content error_message citations

  abbrev token : StreamEvent
  token = completed_token cid m full_content (sanitize_citations env.json_size citations)

  turn-Delivered :
      (written : Option Message) (w x : World)
      → ForAssistant (row w cid m)
      → Finalized cid m full_content w written x
      → Ensures
          (λ u v. Delivered env svc derive event token cid m w v)
          (λ err v. v.inbox ≡ w.inbox)
          (end_turn env svc derive (derive (generated_key m)) cid m token written x)
  turn-Delivered none w x free f = absurd (f.1 free)
  turn-Delivered (some msg) w x free f =
      let key = derive (generated_key m) in
      let ended = f.0 in
      Ensures-map (end_turn-TurnEnded env svc key cid m token msg derive x)
        (λ u v t. record {
          holds =
              subst (Holds full_content sent) (sym (ap (λ y. find m (y cid)) t.stored.rows))
                ended.holds;
          others = λ c j ne. ap (λ y. find j (y c)) t.stored.rows ∙ ended.others c j ne;
          outbox = t.stored.outbox ∙ ended.outbox;
          cleared = t.cleared;
          told = λ on up. Published-from token w x v ended.streamed (t.told on up);
          again = λ other services up.
              handled_again other services derive m event cid v refl refl up t.handled;
        })
        (λ err v k. k.1 ∙ ended.inbox)

  reply-Delivered :
      (w : World)
      → ForAssistant (row w cid m)
      → Ensures
          (λ u v. Delivered env svc derive event token cid m w v)
          (λ err v. v.inbox ≡ w.inbox)
          (reply env svc derive (derive (generated_key m)) cid m event w)
  unfolding reply
  reply-Delivered w free =
      Ensures-continue
        (finalize_assistant_message-Finalized env svc cid m full_content
          (sanitize_citations env.json_size citations) w)
        (λ written x f. turn-Delivered written w x free f) (λ err x s. ap (λ z. z.inbox) s)

  -- The first event of a successful generation, for a reply whose row is free or the assistant's.
  -- When its handling returns, that row holds the whole text as sent and no other row changed, the
  -- timeout marker is gone and the terminal event was published last, where Redis does its part, and
  -- every later delivery of the event changes nothing. When it raises, the inbox is as before, so the
  -- next delivery is handled.
  pub handle_chat_response_generated-Delivered :
      (w : World)
      → w.inbox (derive (generated_key m)) ≡ false
      → ForAssistant (row w cid m)
      → Ensures
          (λ u v. Delivered env svc derive event token cid m w v)
          (λ err v. v.inbox ≡ w.inbox)
          (handle_chat_response_generated env svc derive event w)
  unfolding handle_chat_response_generated generated_of
  handle_chat_response_generated-Delivered w first free =
      Ensures-continue (exists-Ensures env svc derive (derive (generated_key m)) w)
        (λ seen v s.
          Ensures-test seen _ _ v (λ y. absurd (clash (sym s.0 ∙ y) first))
            (λ n.
              subst
                (λ x.
                  Ensures (λ u v. Delivered env svc derive event token cid m w v)
                    (λ err v. v.inbox ≡ w.inbox)
                    (reply env svc derive (derive (generated_key m)) cid m event x))
                (sym s.1) (reply-Delivered w free)))
        (λ err v s. ap (λ z. z.inbox) s)
    where
      clash : {b : Bool} → b ≡ true → b ≡ false → ⊥
      clash p q = cc
