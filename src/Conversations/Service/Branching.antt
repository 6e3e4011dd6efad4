-- ===== src/Conversations/Service/Branching.antt =====
-- What the creation of a conversation checks and writes.
use conversation_service.Prelude.{
  ◌≡◌, refl, sym, subst, ap, ◌∙◌, ◌==◌, ==_iff, ==_refl, true, Option, none, some, ◌∷◌, Bool-cases,
  inl, inr,
}
use conversation_service.Model.{Uuid, Text, Conversation}
use conversation_service.Errors.{continue, value_error, permission_error, Error, Result, ok, raised}
use conversation_service.Errors.Ensures.{Ensures, Ensures-continue, Ensures-map, Ensures-state}
use conversation_service.Conversations.{ConversationEvent, Tables, Env, created, milliseconds}
use conversation_service.Conversations.Repository.{create_with_outbox}
use conversation_service.Conversations.Service.{
  new_conversation, created_event, MessageReads, set_conversation, get, parent_branch,
  checked_parent, stage_conversation, create,
}
use conversation_service.Conversations.Service.Safety.{Same, get-Kept}
use conversation_service.State.{conversation_created}
use conversation_service.Model.{is_active}
use conversation_service.Conversations.Service.Safety.{calls-Ensures, set_conversation-Same}

-- The parent that the service read is active and belongs to the user.
pub record IsOwnActive (env : Env) (user_id parent : Uuid) (t : Tables) : Type 0 where
  pub conv : Conversation
  pub found : (get env parent t).0 ≡ ok (some conv)
  pub live : is_active conv.status ≡ true
  pub own : conv.user_id ≡ user_id

abbrev pub FromParent : Env → Uuid → Option Uuid → Tables → Type 0
FromParent env user_id none t = Unit
FromParent env user_id (some parent) t = IsOwnActive env user_id parent t

-- The times of a row are stored to the millisecond.
abbrev pub as_stored : Conversation → Conversation
as_stored c = record c {
  created_at = milliseconds c.created_at;
  updated_at = milliseconds c.updated_at;
}

-- The row of the new conversation and its event stand in the tables.
pub record Created (env : Env) (i user_id : Uuid) (title : Text) (parent : Option Uuid) (t : Tables)
    (conv : Conversation) (v : Tables) : Type 0 where
  pub checked : FromParent env user_id parent t
  pub owner : conv.user_id ≡ user_id
  pub named : conv.title ≡ title
  pub placed : conv.parent_conversation_id ≡ parent
  pub stored : v.conversations i ≡ some (as_stored conv)
  pub event : ConversationEvent
  pub staged : v.outbox ≡ event ∷ t.outbox
  pub topic : event.event_type ≡ conversation_created
  pub about : event.payload.conversation_id ≡ i

module _ (env : Env) where
  checked_parent-own :
      (user_id parent : Uuid) (message : Option Uuid) (reads : Option MessageReads)
      (conv : Option Conversation) (branch : Option Uuid)
      → checked_parent env user_id reads parent message conv ≡ ok branch
      → (c : Conversation) × (conv ≡ some c) × (is_active c.status ≡ true) × (c.user_id ≡ user_id)
  unfolding checked_parent
  checked_parent-own user_id parent message reads none branch e = cc
  checked_parent-own user_id parent message reads (some c) branch e =
      elim (Bool-cases (is_active c.status)) [
        | inr n ↦ absurd (rejected {f = value_error} (rw (n, checked_parent) refl) e)
        | inl y ↦ elim (Bool-cases (c.user_id == user_id)) [
          | inl own ↦ (c, refl, y, (==_iff c.user_id user_id).0 own)
          | inr n ↦ absurd (rejected {f = permission_error} (rw (y, n, checked_parent) refl) e)
        ]
      ]
    where
      rejected : {o : Result (Option Uuid)} {f : Error} → o ≡ raised f → o ≡ ok branch → ⊥
      rejected p q = cc

  checked_after :
      (user_id parent : Uuid) (message : Option Uuid) (reads : Option MessageReads) (t : Tables)
      (m : Result (Option Conversation) × Tables)
      → Same t m.1
      → Ensures
          (λ b v.
            Same t v
            × ((c : Conversation) × (m.0 ≡ ok (some c))
                × (is_active c.status ≡ true)
                × (c.user_id ≡ user_id)))
          (λ e v. Same t v)
          (continue m.0 (λ conv u. (checked_parent env user_id reads parent message conv, u)) m.1)
  checked_after user_id parent message reads t (raised e, v) s = record { after = s }
  checked_after user_id parent message reads t (ok conv, v) s =
      by_result (checked_parent env user_id reads parent message conv) refl
    where
      by_result :
          (r : Result (Option Uuid))
          → checked_parent env user_id reads parent message conv ≡ r
          → Ensures
              (λ b x.
                Same t x
                × ((c : Conversation) × (◌≡◌ {A = Result (Option Conversation)}
                      (ok conv)
                      (ok (some c)))
                    × (is_active c.status ≡ true)
                    × (c.user_id ≡ user_id)))
              (λ e x. Same t x)
              (r, v)
      by_result (raised f) e = record { after = s }
      by_result (ok branch) e =
          let (c, found, live, own) =
            checked_parent-own user_id parent message reads conv branch e in
          record { after = (s, (c, ap ok found, live, own)) }

  parent_branch-Checked :
      (user_id : Uuid) (parent message : Option Uuid) (reads : Option MessageReads) (t : Tables)
      → Ensures
          (λ b v. Same t v × FromParent env user_id parent t)
          (λ e v. Same t v)
          (parent_branch env user_id parent message reads t)
  unfolding parent_branch
  parent_branch-Checked user_id none message reads t = record { after = ((refl, refl, refl), tt) }
  parent_branch-Checked user_id (some parent) message reads t =
      Ensures-map
        (checked_after user_id parent message reads t (get env parent t)
          (Ensures-state (Same t) (get env parent t) (get-Kept env parent t)))
        (λ b v h. (h.0, record { conv = h.1.0; found = h.1.1; live = h.1.2; own = h.1.3 }))
        (λ e v h. h)

  stage_conversation-Ensures :
      (i event_id user_id : Uuid) (title : Text) (parent branch : Option Uuid) (v : Tables)
      → Ensures
          (λ conv x.
            (conv ≡ new_conversation env i user_id title parent branch)
            × Same
                (created
                  (new_conversation env i user_id title parent branch)
                  (created_event env i event_id user_id title parent branch)
                  v)
                x)
          (λ e x. x ≡ v)
          (stage_conversation env i event_id user_id title parent branch v)
  unfolding stage_conversation create_with_outbox
  stage_conversation-Ensures i event_id user_id title parent branch v =
      let new = new_conversation env i user_id title parent branch in
      let event = created_event env i event_id user_id title parent branch in
      Ensures-continue {P = λ conv x. (conv ≡ new) × (x ≡ created new event v)} {E = λ e x. x ≡ v}
        (Ensures-continue (calls-Ensures env _ v)
          (λ u x e. record { after = (refl, ap (created new event) e) }) (λ e x s. s))
        (λ conv x h. record {
          after = (
            h.0,
            subst (λ z. Same z (set_conversation env conv x).1) h.1
                (set_conversation-Same env conv x),
          );
        })
        (λ e x s. s)

  -- A creation that returns: a given parent, as the service reads it, is active and the user's, the
  -- new row stands in the table with its times to the millisecond, and one `conversation.created`
  -- event on it was added to the outbox by the same batch. One that raises leaves the rows, the lists
  -- of the users and the outbox as they were.
  pub create-Created :
      (i event_id user_id : Uuid) (title : Text) (parent message : Option Uuid)
      (reads : Option MessageReads) (t : Tables)
      → Ensures
          (λ conv v. Created env i user_id title parent t conv v)
          (λ e v. Same t v)
          (create env i event_id user_id title parent message reads t)
  unfolding create created
  create-Created i event_id user_id title parent message reads t =
      Ensures-continue (parent_branch-Checked user_id parent message reads t)
        (λ branch v s.
          let new = new_conversation env i user_id title parent branch in
          Ensures-map (stage_conversation-Ensures i event_id user_id title parent branch v)
            (λ conv x h.
              let stored_new : x.conversations i ≡ some (as_stored new) =
                ap (λ f. f i) h.1.0 ∙ rw (==_refl i) refl in
              record {
                checked = s.1;
                owner = ap (λ c. c.user_id) h.0;
                named = ap (λ c. c.title) h.0;
                placed = ap (λ c. c.parent_conversation_id) h.0;
                stored = stored_new ∙ ap (λ c. some (as_stored c)) (sym h.0);
                event = created_event env i event_id user_id title parent branch;
                staged =
                    h.1.2
                    ∙ ap (λ o. created_event env i event_id user_id title parent branch ∷ o) s.0.2;
                topic = refl;
                about = refl;
              })
            (λ e x h. subst (Same t) (sym h) s.0))
        (λ e v s. s)
