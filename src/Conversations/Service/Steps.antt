-- ===== src/Conversations/Service/Steps.antt =====
-- The operations of the service and of the workers, one at a time in any order, from empty tables.
use conversation_service.Prelude.{
  ◌≡◌, sym, subst, Bool, true, false, Option, none, some, if◌then◌else◌,
}
use conversation_service.Model.{Uuid, Text, Conversation, ConversationStatus, archived, deleted}
use conversation_service.Errors.{Method, ◌>>=◌, ◌>>◌, return}
use conversation_service.Errors.Ensures.{Ensures-continue, Ensures-option, Ensures-test}
use conversation_service.Conversations.{ConversationEvent, Tables, Env, changed, removed}
use conversation_service.Conversations.Repository.{
  delete_row, delete_with_outbox, title_row, update_title, remove_row, hard_delete,
}
use conversation_service.Conversations.Catalog.{
  IsCataloged, changed-IsCataloged, removed-IsCataloged,
}
use conversation_service.Conversations.Service.{
  delete_conversation, get, update_found, rename, archive, delete_found, delete, set_title,
}
use conversation_service.Conversations.Service.Safety.{
  Ready, Same-IsCataloged, Same-Ready, get_row-Ensures, remember-Kept, delete_conversation-Kept,
  get-Kept, Cataloged, written, update_with_outbox-Cataloged,
}

module _ (env : Env) where
  delete_row-Cataloged :
      (i : Uuid) (event : ConversationEvent) (conv : Option Conversation) (t : Tables)
      → Ready env i t
      → Cataloged env (delete_row env i event conv t)
  unfolding delete_row
  delete_row-Cataloged i event none t r = record { after = r.0 }
  delete_row-Cataloged i event (some conv) t r =
      Ensures-continue (update_with_outbox-Cataloged env i conv.title deleted event t r)
        (λ result v w. record { after = w }) (λ e v w. w)

  delete_with_outbox-Cataloged :
      (i : Uuid) (event : ConversationEvent) (t : Tables)
      → Ready env i t
      → Cataloged env (delete_with_outbox env i event t)
  unfolding delete_with_outbox
  delete_with_outbox-Cataloged i event t r =
      Ensures-continue (get_row-Ensures env i t)
        (λ conv v s.
          subst (λ x. Cataloged env (delete_row env i event conv x)) (sym s.0)
            (delete_row-Cataloged i event conv t r))
        (λ e v s. subst IsCataloged (sym s) r.0)

  title_row-Cataloged :
      (i : Uuid) (title : Text) (conv : Option Conversation) (t : Tables)
      → conv ≡ t.conversations i
      → Ready env i t
      → Cataloged env (title_row env i title conv t)
  unfolding title_row
  title_row-Cataloged i title none t e r = record { after = r.0 }
  title_row-Cataloged i title (some conv) t e r =
      written env _ _ (λ u. changed i conv title conv.status env.now u.outbox u) t r.0
        (changed-IsCataloged i conv title conv.status env.now t.outbox t r.0 (sym e)
          (r.1.later conv (sym e)))

  update_title-Cataloged :
      (i : Uuid) (title : Text) (t : Tables)
      → Ready env i t
      → Cataloged env (update_title env i title t)
  unfolding update_title
  update_title-Cataloged i title t r =
      Ensures-continue (get_row-Ensures env i t)
        (λ conv v s.
          subst (λ x. Cataloged env (title_row env i title conv x)) (sym s.0)
            (title_row-Cataloged i title conv t s.1 r))
        (λ e v s. subst IsCataloged (sym s) r.0)

  remove_row-Cataloged :
      (i : Uuid) (conv : Option Conversation) (t : Tables)
      → conv ≡ t.conversations i
      → IsCataloged t
      → Cataloged env (remove_row env i conv t)
  unfolding remove_row
  remove_row-Cataloged i none t e w = record { after = w }
  remove_row-Cataloged i (some conv) t e w =
      written env _ _ (λ u. removed i conv u) t w (removed-IsCataloged i conv t w (sym e))

  pub hard_delete-Cataloged :
      (i : Uuid) (t : Tables) → IsCataloged t → Cataloged env (hard_delete env i t)
  unfolding hard_delete
  hard_delete-Cataloged i t w =
      Ensures-continue (get_row-Ensures env i t)
        (λ conv v s.
          subst (λ x. Cataloged env (remove_row env i conv x)) (sym s.0)
            (remove_row-Cataloged i conv t s.1 w))
        (λ e v s. subst IsCataloged (sym s) w)

  update_found-Cataloged :
      (i event_id : Uuid) (title : Text) (status : ConversationStatus) (conv : Conversation)
      (t : Tables)
      → Ready env i t
      → Cataloged env (update_found env i event_id title status conv t)
  unfolding update_found
  update_found-Cataloged i event_id title status conv t r =
      Ensures-continue (update_with_outbox-Cataloged env i title status _ t r)
        (λ updated v w.
          Ensures-continue (remember-Kept env updated v)
            (λ u x kept. record { after = Same-IsCataloged v x kept w })
            (λ e x kept. Same-IsCataloged v x kept w))
        (λ e v w. w)

  -- `rename`, `archive` and `delete` go on with what the read gave.
  after_get :
      {A : Type 0} (i : Uuid) (t : Tables) (missing : Method Tables A)
      (found : Conversation → Method Tables A)
      → Ready env i t
      → ((v : Tables) → Ready env i v → Cataloged env (missing v))
      → ((c : Conversation) (v : Tables) → Ready env i v → Cataloged env (found c v))
      → Cataloged env (
          (get env i >>= λ conv. elim conv as (λ o. Method Tables A) [
            | none ↦ missing
            | some c ↦ found c
          ])
            t)
  after_get i t missing found r p q =
      Ensures-continue (get-Kept env i t)
        (λ conv v s.
          Ensures-option conv missing found v (λ e. p v (Same-Ready env i t v s r))
            (λ c e. q c v (Same-Ready env i t v s r)))
        (λ e v s. Same-IsCataloged t v s r.0)

  pub rename-Cataloged :
      (i event_id : Uuid) (title : Text) (t : Tables)
      → Ready env i t
      → Cataloged env (rename env i event_id title t)
  unfolding rename
  rename-Cataloged i event_id title t r =
      after_get i t (return none) (λ c. update_found env i event_id title c.status c) r
        (λ v s. record { after = s.0 })
        (λ c v s. update_found-Cataloged i event_id title c.status c v s)

  pub archive-Cataloged :
      (i event_id : Uuid) (t : Tables) → Ready env i t → Cataloged env (archive env i event_id t)
  unfolding archive
  archive-Cataloged i event_id t r =
      after_get i t (return none) (λ c. update_found env i event_id c.title archived c) r
        (λ v s. record { after = s.0 })
        (λ c v s. update_found-Cataloged i event_id c.title archived c v s)

  -- The eviction that follows a successful write.
  evicted :
      (i : Uuid) (success : Bool) (t : Tables)
      → IsCataloged t
      → Cataloged env
          ((if success then delete_conversation env i >> return true else return false) t)
  evicted i success t w =
      Ensures-test success _ _ t
        (λ y.
          Ensures-continue (delete_conversation-Kept env i t)
            (λ u x kept. record { after = Same-IsCataloged t x kept w })
            (λ e x kept. Same-IsCataloged t x kept w))
        (λ n. record { after = w })

  pub delete-Cataloged :
      (i event_id : Uuid) (t : Tables) → Ready env i t → Cataloged env (delete env i event_id t)
  unfolding delete delete_found
  delete-Cataloged i event_id t r =
      after_get i t (return false) (λ c. delete_found env i event_id c) r
        (λ v s. record { after = s.0 })
        (λ c v s.
          Ensures-continue (delete_with_outbox-Cataloged i _ v s)
            (λ success x w. evicted i success x w) (λ e x w. w))

  pub set_title-Cataloged :
      (i : Uuid) (title : Text) (t : Tables)
      → Ready env i t
      → Cataloged env (set_title env i title t)
  unfolding set_title
  set_title-Cataloged i title t r =
      Ensures-continue (update_title-Cataloged i title t r) (λ success x w. evicted i success x w)
        (λ e x w. w)
