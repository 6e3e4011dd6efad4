-- ===== src/Consumers/Delivery.antt =====
-- What the end of a turn leaves once its row is written.
use conversation_service.Prelude.{
  ℕ, ◌≡◌, refl, ap, ◌∙◌, true, false, Option, none, some, [], ◌∷◌, ◌++◌, arith, ==_refl,
}
use conversation_service.Model.{Uuid, Message}
use conversation_service.State.{StreamEvent, World, publish, marker_delete, inbox_save, Env}
use conversation_service.Errors.Ensures.{Ensures, Ensures-continue}
use conversation_service.Messages.Effects.{calls-Ensures}
use conversation_service.MessageService.{Services, cache_on}
use conversation_service.MessageService.Pending.{clear_pending_response}
use conversation_service.Stream.{publish_token, live_id}
use conversation_service.Inbox
use conversation_service.Consumers.{EventKey, end_turn}

-- The tables are those of `w`, the inbox aside.
pub record SameStored (w v : World) : Type 0 where
  pub rows : v.rows ≡ w.rows
  pub outbox : v.outbox ≡ w.outbox

-- The subscribers got the event last, under some id of the log or none.
abbrev pub Published : StreamEvent → World → World → Type 0
Published token w v =
    (id : Option ℕ) × (v.streamed ≡ w.streamed ++ record token { event_id = id } ∷ [])

-- What a published terminal event stands on.
pub record TurnEnded (env : Env) (svc : Services) (key m : Uuid) (token : StreamEvent) (w v : World)
    : Type 0 where
  pub stored : SameStored w v
  pub handled : v.inbox key ≡ true
  pub cleared : cache_on env svc ≡ true → env.down marker_delete ≡ false → v.marker m ≡ none
  pub told : env.redis ≡ true → env.down publish ≡ false → Published token w v

module _ (env : Env) where
  pub publish_token_kept :
      (cid : Uuid) (token : StreamEvent) (w v : World)
      → v ≡ publish_token env cid token w
      → (v.rows ≡ w.rows) × (v.outbox ≡ w.outbox) × (v.inbox ≡ w.inbox) × (v.marker ≡ w.marker)
  unfolding publish_token
  publish_token_kept cid token w v e = ground arith

  publish_token-Published :
      (cid : Uuid) (token : StreamEvent) (w v : World)
      → v ≡ publish_token env cid token w
      → env.redis ≡ true
      → env.down publish ≡ false
      → Published token w v
  unfolding publish_token
  publish_token-Published cid token w v e on up = (live_id env cid w, ground arith)

module _ (env : Env) (svc : Services) where
  clear_pending_response_lem :
      (m : Uuid) (w v : World)
      → v ≡ clear_pending_response env svc m w
      → (v.rows ≡ w.rows)
        × (v.outbox ≡ w.outbox)
        × (v.inbox ≡ w.inbox)
        × (v.streamed ≡ w.streamed)
        × (cache_on env svc ≡ true → env.down marker_delete ≡ false → v.marker m ≡ none)
  unfolding clear_pending_response
  clear_pending_response_lem m w v e = ground (arith, ==_refl m)

  pub end_turn-TurnEnded :
      (key cid m : Uuid) (token : StreamEvent) (written : Message) (derive : EventKey → Uuid)
      (w : World)
      → Ensures
          (λ u v. TurnEnded env svc key m token w v)
          (λ e v. SameStored w v × (v.inbox ≡ w.inbox))
          (end_turn env svc derive key cid m token (some written) w)
  unfolding Inbox.save
  end_turn-TurnEnded key cid m token written derive w =
      let w1 = clear_pending_response env svc m w in
      let w2 = publish_token env cid token w1 in
      let (rows1, outbox1, inbox1, streamed1, cleared) = clear_pending_response_lem m w w1 refl in
      let (rows2, outbox2, inbox2, marker2) = publish_token_kept env cid token w1 w2 refl in
      let stored : SameStored w w2 = record { rows = rows2 ∙ rows1; outbox = outbox2 ∙ outbox1 } in
      Ensures-continue (calls-Ensures env inbox_save w2)
        (λ u v s. record {
          after = record {
            stored = record {
              rows = ap (λ x. x.rows) s.1 ∙ stored.rows;
              outbox = ap (λ x. x.outbox) s.1 ∙ stored.outbox;
            };
            handled = rw (==_refl key) refl;
            cleared = λ on up. ap (λ x. x.marker m) s.1 ∙ ap (λ t. t m) marker2 ∙ cleared on up;
            told = λ on up.
                let (id, e) = publish_token-Published env cid token w1 w2 refl on up in
                (
                  id,
                  ap (λ x. x.streamed) s.1
                      ∙ e
                      ∙ ap (λ l. l ++ record token { event_id = id } ∷ []) streamed1,
                );
          };
        })
        (λ e v s. (
          record {
            rows = ap (λ x. x.rows) s.1 ∙ stored.rows;
            outbox = ap (λ x. x.outbox) s.1 ∙ stored.outbox;
          },
          ap (λ x. x.inbox) s.1 ∙ inbox2 ∙ inbox1,
        ))
