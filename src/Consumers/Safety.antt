-- ===== src/Consumers/Safety.antt =====
-- What the handlers do to the messages, whatever arrives and in whatever order.
use conversation_service.Prelude.{
  ◌≡◌, refl, sym, subst, ap, ◌∙◌, Bool, true, false, ◌&&◌, Option, none, some, arith, ◌==◌, ==_iff,
  if◌then◌else◌, Bool-cases, inl, inr,
}
use conversation_service.Model.{Uuid, Text, Message, is_assistant}
use conversation_service.State.{Row, StreamEvent, World, inbox_exists, Env}
use conversation_service.Citations.{sanitize_citations}
use conversation_service.Errors.{Result, ◌>>=◌, return}
use conversation_service.Errors.Ensures.{Ensures, Ensures-continue, Ensures-test, Ensures-map}
use conversation_service.Messages.Effects.{calls-Ensures}
use conversation_service.Messages.Table.{find}
use conversation_service.MessageService.{Services}
use conversation_service.MessageService.Reads.{row}
use conversation_service.MessageService.Finish.Safety.{
  Finalized, FailedOrKept, finalize_assistant_message-Finalized,
  fail_assistant_message-FailedOrKept,
}
use conversation_service.MessageService.Finish.Rows.{ForAssistant, Ended}
use conversation_service.Inbox
use conversation_service.Consumers.{
  RawId, uuid, absent, malformed, EventKey, generated_key, response_message_id, GeneratedEvent,
  completed_token, failed_token, error_text, end_turn, reply, generated_of,
  handle_chat_response_generated,
}
use conversation_service.Consumers.Delivery.{SameStored, end_turn-TurnEnded}

-- No row of a user or of the system changed, and no request was added.
pub record Safe (w v : World) : Type 0 where
  pub outbox : v.outbox ≡ w.outbox
  pub rows :
      (c j : Uuid) (r : Row)
      → row w c j ≡ some r
      → is_assistant r.sender ≡ false
      → row v c j ≡ some r

safe : (w : World) → Safe w w
safe w = record { outbox = refl; rows = λ c j r e s. e }

Safe-≡ : {w v : World} → v ≡ w → Safe w v
Safe-≡ {w} e = subst (Safe w) (sym e) (safe w)

Safe-SameStored : {w v x : World} → Safe w v → SameStored v x → Safe w x
Safe-SameStored s k = record {
  outbox = k.outbox ∙ s.outbox;
  rows = λ c j r e h. ap (λ t. find j (t c)) k.rows ∙ s.rows c j r e h;
}

Safe-Ended :
    {cid m : Uuid} {content : Text} {status : _} {w v : World}
    → Ended cid m content status w v
    → Safe w v
Safe-Ended {cid} {m} {w = w} {v = v} ended = record {
  outbox = ended.outbox;
  rows = λ c j r e h. elim (Bool-cases ((c == cid) && (m == j))) [
    | inr n ↦ ended.others c j n ∙ e
    | inl y ↦
        let same_c : c ≡ cid = (==_iff c cid).0 (ground arith) in
        let same_m : m ≡ j = (==_iff m j).0 (ground arith) in
        let here : row w cid m ≡ some r =
          sym (ap (λ x. row w x m) same_c) ∙ ap (row w c) same_m ∙ e in
        let mine : is_assistant r.sender ≡ true = subst ForAssistant here ended.before in
        absurd (clash mine h)
  ];
}
  where
    clash : {b : Bool} → b ≡ true → b ≡ false → ⊥
    clash p q = cc

module _ (env : Env) (svc : Services) (derive : EventKey → Uuid) where
  end_turn-Safe :
      (key cid m : Uuid) (token : StreamEvent) (written : Option Message) (w x : World)
      → Safe w x
      → Ensures
          (λ u v. Safe w v)
          (λ e v. Safe w v)
          (end_turn env svc derive key cid m token written x)
  end_turn-Safe key cid m token none w x s = record { after = s }
  end_turn-Safe key cid m token (some msg) w x s =
      Ensures-map (end_turn-TurnEnded env svc key cid m token msg derive x)
        (λ u v t. Safe-SameStored s t.stored) (λ e v k. Safe-SameStored s k.0)

  reply-Safe :
      (key cid m : Uuid) (e : GeneratedEvent) (w : World)
      → Ensures (λ u v. Safe w v) (λ x v. Safe w v) (reply env svc derive key cid m e w)
  unfolding reply
  reply-Safe key cid m e w =
      Ensures-test e.success _ _ w
        (λ y.
          Ensures-continue
            (finalize_assistant_message-Finalized env svc cid m e.full_content
              (sanitize_citations env.json_size e.citations) w)
            (λ written x f.
              end_turn-Safe key cid m
                (completed_token cid m e.full_content
                  (sanitize_citations env.json_size e.citations))
                written w x (finalized written x f))
            (λ err x s. Safe-≡ s))
        (λ n.
          Ensures-continue
            (fail_assistant_message-FailedOrKept env svc cid m (error_text e.error_message) w)
            (λ written x f.
              end_turn-Safe key cid m (failed_token cid m (error_text e.error_message)) written w x
                (failed_or_kept written x f))
            (λ err x s. Safe-≡ s))
    where
      finalized :
          (written : Option Message) (x : World)
          → Finalized cid m e.full_content w written x
          → Safe w x
      finalized none x f = Safe-≡ f.0
      finalized (some msg) x f = Safe-Ended f.0

      failed_or_kept :
          (written : Option Message) (x : World)
          → FailedOrKept env cid m (error_text e.error_message) w written x
          → Safe w x
      failed_or_kept none x f = Safe-≡ f.0
      failed_or_kept (some msg) x f = elim f [ inl k ↦ Safe-≡ k.2 | inr k ↦ Safe-Ended k.1 ]

  pub exists-Ensures :
      (key : Uuid) (w : World)
      → Ensures (λ b v. (b ≡ w.inbox key) × (v ≡ w)) (λ e v. v ≡ w) (Inbox.exists env key w)
  unfolding Inbox.exists
  exists-Ensures key w =
      Ensures-continue (calls-Ensures env inbox_exists w)
        (λ u v s. record { after = (ap (λ x. x.inbox key) s.1, s.1) }) (λ e v s. s.1)

  -- What happens once the inbox was read, for a readable conversation id.
  deduplicated :
      (key : Uuid) (w : World) (n : World → Result (Unit {0}) × World)
      → Ensures (λ u v. Safe w v) (λ e v. Safe w v) (n w)
      → Ensures
          (λ u v. Safe w v)
          (λ e v. Safe w v)
          ((Inbox.exists env key >>= λ seen. if seen then return tt else n) w)
  deduplicated key w n safe_n =
      Ensures-continue (exists-Ensures key w)
        (λ seen v s.
          Ensures-test seen _ _ v (λ y. record { after = Safe-≡ s.1 })
            (λ no_entry.
              subst (λ x. Ensures (λ u v. Safe w v) (λ e v. Safe w v) (n x)) (sym s.1) safe_n))
        (λ e v s. Safe-≡ s)

  generated_of-Safe :
      (conversation : RawId) (m : Uuid) (e : GeneratedEvent) (w : World)
      → Ensures (λ u v. Safe w v) (λ x v. Safe w v) (generated_of env svc derive conversation m e w)
  unfolding generated_of
  generated_of-Safe absent m e w = record { after = safe w }
  generated_of-Safe malformed m e w =
      deduplicated (derive (generated_key m)) w _ (record { after = safe w })
  generated_of-Safe (uuid cid) m e w =
      deduplicated (derive (generated_key m)) w _ (reply-Safe (derive (generated_key m)) cid m e w)

  -- Whatever a `chat.response.generated` event carries, and however its handling ends: every row
  -- that is not the assistant's, the user's own message above all, is as before, and nothing was
  -- added to the outbox.
  pub handle_chat_response_generated-Safe :
      (e : GeneratedEvent) (w : World)
      → Ensures
          (λ u v. Safe w v)
          (λ x v. Safe w v)
          (handle_chat_response_generated env svc derive e w)
  unfolding handle_chat_response_generated
  handle_chat_response_generated-Safe e w = go e.response_id
    where
      go :
          (id : RawId)
          → Ensures
              (λ u v. Safe w v)
              (λ x v. Safe w v)
              ((elim (response_message_id id) as (λ o. World → Result (Unit {0}) × World) [
                | none ↦ return tt
                | some m ↦ generated_of env svc derive e.conversation m e
              ])
                w)
      go absent = record { after = safe w }
      go malformed = record { after = safe w }
      go (uuid m) = generated_of-Safe e.conversation m e w
