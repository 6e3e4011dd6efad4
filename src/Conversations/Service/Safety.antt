-- ===== src/Conversations/Service/Safety.antt =====
-- The operations of the service and the invariant on the catalog.
use conversation_service.Prelude.{
  ◌<◌, ◌≡◌, refl, sym, subst, ap, ◌∙◌, Bool, true, false, Option, none, some, [], ◌∷◌, Bool-cases,
  inl, inr, if◌then◌else◌, keep,
}
use conversation_service.Model.{Uuid, Text, Conversation, ConversationStatus}
use conversation_service.Errors.{Result, ◌>>◌, return}
use conversation_service.Errors.Ensures.{Ensures, Ensures-continue}
use conversation_service.Conversations.{
  names, entry_of, ConversationEvent, Tables, Env, Call, changed, milliseconds,
}
use conversation_service.Conversations.Repository.{calls, get_row, update_row, update_with_outbox}
use conversation_service.Conversations.Catalog.{IsCataloged, changed-IsCataloged}
use conversation_service.Conversations.Service.{
  get_conversation, set_conversation, delete_conversation, remember, read_through, get,
}

-- The rows, the entries and the outbox are as they were.
abbrev pub Same : Tables → Tables → Type 0
Same t v = (v.conversations ≡ t.conversations) × (v.by_user ≡ t.by_user) × (v.outbox ≡ t.outbox)

abbrev pub Kept : {A : Type 0} → Tables → Result A × Tables → Type 0
Kept {A} t m = Ensures {S = Tables} {A = A} (λ a v. Same t v) (λ e v. Same t v) m

-- The clock is past the last change of the conversation, to the millisecond.
pub record IsLater (env : Env) (i : Uuid) (t : Tables) : Type 0 where
  pub later : (c : Conversation) → t.conversations i ≡ some c → c.updated_at < milliseconds env.now

abbrev pub Ready : Env → Uuid → Tables → Type 0
Ready env i t = IsCataloged t × IsLater env i t

pub Same-IsCataloged : (t v : Tables) → Same t v → IsCataloged t → IsCataloged v
Same-IsCataloged t v s w = record {
  row = λ i c e.
      subst (λ es. (c.conversation_id ≡ i) × (keep (names i) es ≡ entry_of c ∷ [])) (sym s.1)
        (w.row i c (ap (λ f. f i) (sym s.0) ∙ e));
  absent = λ i e.
      subst (λ es. keep (names i) es ≡ []) (sym s.1) (w.absent i (ap (λ f. f i) (sym s.0) ∙ e));
}

module _ (env : Env) where
  pub Same-Ready : (i : Uuid) (t v : Tables) → Same t v → Ready env i t → Ready env i v
  Same-Ready i t v s r = (
    Same-IsCataloged t v s r.0,
    record { later = λ c e. r.1.later c (ap (λ f. f i) (sym s.0) ∙ e) },
  )

  pub Same-trans : (t u v : Tables) → Same t u → Same u v → Same t v
  Same-trans t u v p q = (q.0 ∙ p.0, q.1 ∙ p.1, q.2 ∙ p.2)

  unchanged : (t v : Tables) → v ≡ t → Same t v
  unchanged t v e = (ap (λ x. x.conversations) e, ap (λ x. x.by_user) e, ap (λ x. x.outbox) e)

  pub calls-Ensures :
      (c : Call) (t : Tables) → Ensures (λ u v. v ≡ t) (λ e v. v ≡ t) (calls env c t)
  unfolding calls
  calls-Ensures c t = elim (Bool-cases (env.down c)) [
    | inl d ↦ rw (d, calls) (record { after = refl })
    | inr d ↦ rw (d, calls) (record { after = refl })
  ]

  pub get_row-Ensures :
      (i : Uuid) (t : Tables)
      → Ensures (λ o v. (v ≡ t) × (o ≡ t.conversations i)) (λ e v. v ≡ t) (get_row env i t)
  unfolding get_row
  get_row-Ensures i t =
      Ensures-continue (calls-Ensures _ t)
        (λ u v s. record { after = (s, ap (λ x. x.conversations i) s) }) (λ e v s. s)

  -- The cache is no table.
  cached-Same :
      (b : Bool) (f : Uuid → Option Conversation) (t : Tables)
      → Same t (if b then record t { cache = f } else t)
  cached-Same true f t = (refl, refl, refl)
  cached-Same false f t = (refl, refl, refl)

  pub set_conversation-Same :
      (conv : Conversation) (t : Tables) → Same t (set_conversation env conv t).1
  unfolding set_conversation
  set_conversation-Same conv t = cached-Same _ _ t

  pub remember-Kept : (conv : Option Conversation) (t : Tables) → Kept t (remember env conv t)
  unfolding set_conversation
  remember-Kept none t = record { after = (refl, refl, refl) }
  remember-Kept (some conv) t = record { after = cached-Same _ _ t }

  pub delete_conversation-Kept : (i : Uuid) (t : Tables) → Kept t (delete_conversation env i t)
  unfolding delete_conversation
  delete_conversation-Kept i t = record { after = cached-Same _ _ t }

  read_through-Kept :
      (i : Uuid) (o : Option Conversation) (t : Tables) → Kept t (read_through env i o t)
  unfolding read_through
  read_through-Kept i (some conv) t = record { after = (refl, refl, refl) }
  read_through-Kept i none t =
      Ensures-continue (get_row-Ensures i t)
        (λ conv v s.
          Ensures-continue (remember-Kept conv v)
            (λ u x kept. record { after = Same-trans t v x (unchanged t v s.0) kept })
            (λ e x kept. Same-trans t v x (unchanged t v s.0) kept))
        (λ e v s. unchanged t v s)

  pub get-Kept : (i : Uuid) (t : Tables) → Kept t (get env i t)
  unfolding get get_conversation
  get-Kept i t = read_through-Kept i _ t

  abbrev pub Cataloged : {A : Type 0} → Result A × Tables → Type 0
  Cataloged {A} m = Ensures {S = Tables} {A = A} (λ a v. IsCataloged v) (λ e v. IsCataloged v) m

  -- A write that may raise before it happens.
  pub written :
      {A : Type 0} (c : Call) (a : A) (f : Tables → Tables) (t : Tables)
      → IsCataloged t
      → IsCataloged (f t)
      → Cataloged ((calls env c >> λ u. return a (f u)) t)
  written c a f t w done =
      Ensures-continue (calls-Ensures c t)
        (λ u v s. record { after = subst (λ x. IsCataloged (f x)) (sym s) done })
        (λ e v s. subst IsCataloged (sym s) w)

  update_row-Cataloged :
      (i : Uuid) (title : Text) (status : ConversationStatus) (event : ConversationEvent)
      (conv : Option Conversation) (t : Tables)
      → conv ≡ t.conversations i
      → Ready env i t
      → Cataloged (update_row env i title status event conv t)
  unfolding update_row
  update_row-Cataloged i title status event none t e r = record { after = r.0 }
  update_row-Cataloged i title status event (some conv) t e r =
      written _ _ (λ u. changed i conv title status env.now (event ∷ u.outbox) u) t r.0
        (changed-IsCataloged i conv title status env.now (event ∷ t.outbox) t r.0 (sym e)
          (r.1.later conv (sym e)))

  pub update_with_outbox-Cataloged :
      (i : Uuid) (title : Text) (status : ConversationStatus) (event : ConversationEvent)
      (t : Tables)
      → Ready env i t
      → Cataloged (update_with_outbox env i title status event t)
  unfolding update_with_outbox
  update_with_outbox-Cataloged i title status event t r =
      Ensures-continue (get_row-Ensures i t)
        (λ conv v s.
          subst (λ x. Cataloged (update_row env i title status event conv x)) (sym s.0)
            (update_row-Cataloged i title status event conv t s.1 r))
        (λ e v s. subst IsCataloged (sym s) r.0)
