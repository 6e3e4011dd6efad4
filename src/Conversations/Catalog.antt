-- ===== src/Conversations/Catalog.antt =====
-- The invariant that ties the catalog of each user to the rows of the conversations.
use conversation_service.Prelude.{
  ◌<◌, ◌≡◌, refl, sym, subst, ap, ◌∙◌, Bool, true, false, Option, none, some, List, [], ◌∷◌, arith,
  ◌==◌, ==_iff, ==_refl, Bool-cases, Option-cases, inl, inr, keep,
}
use conversation_service.Model.{Uuid, Time, Text, Conversation, ConversationStatus}
use conversation_service.Conversations.{
  Entry, ConversationEvent, Tables, milliseconds, names, at_key, insert_entry, delete_entry,
  move_entry, entry_of, set_row, created, changed, removed,
}

keep_insert :
    (p : Entry → Bool) (e : Entry) (es : List Entry)
    → p e ≡ false
    → keep p (insert_entry e es) ≡ keep p es
unfolding insert_entry
keep_insert p e [] h = rw h refl
keep_insert p e (f ∷ fs) h = ground (arith, keep_insert p e fs h)

keep_insert_only :
    (p : Entry → Bool) (e : Entry) (es : List Entry)
    → p e ≡ true
    → keep p es ≡ []
    → keep p (insert_entry e es) ≡ e ∷ []
unfolding insert_entry
keep_insert_only p e [] h none_there = rw h refl
keep_insert_only p e (f ∷ fs) h none_there = ground (arith, keep_insert_only p e fs h)

keep_delete :
    (p key : Entry → Bool) (es : List Entry)
    → keep p (delete_entry key es) ≡ delete_entry key (keep p es)
keep_delete p key [] = refl
keep_delete p key (f ∷ fs) = ground (arith, keep_delete p key fs)

-- A key of another conversation deletes none of these entries.
delete_none :
    (j : Uuid) (key : Entry → Bool) (es : List Entry)
    → ((e : Entry) → names j e ≡ true → key e ≡ false)
    → delete_entry key (keep (names j) es) ≡ keep (names j) es
delete_none j key [] other = refl
delete_none j key (f ∷ fs) other = elim (Bool-cases (names j f)) [
  | inl y ↦ rw (y, other f y) (ap (◌∷◌ f) (delete_none j key fs other))
  | inr n ↦ rw n (delete_none j key fs other)
]

other_key :
    (i j user_id : Uuid) (time : Time)
    → (j == i) ≡ false
    → (e : Entry) → names j e ≡ true
    → at_key user_id time i e ≡ false
other_key i j user_id time differs e h =
    ground (arith, ==_iff j i, ==_iff e.conversation_id j, ==_iff e.conversation_id i)

-- A conversation has one entry, which its row gives; one that is not there has none.
pub record IsCataloged (t : Tables) : Type 0 where
  pub row :
      (i : Uuid) (c : Conversation)
      → t.conversations i ≡ some c
      → (c.conversation_id ≡ i) × (keep (names i) t.by_user ≡ entry_of c ∷ [])
  pub absent : (i : Uuid) → t.conversations i ≡ none → keep (names i) t.by_user ≡ []

-- The entries of a conversation, as its row tells.
abbrev Told : Uuid → Option Conversation → List Entry → Type 0
Told i none es = keep (names i) es ≡ []
Told i (some c) es = (c.conversation_id ≡ i) × (keep (names i) es ≡ entry_of c ∷ [])

told : (t : Tables) → IsCataloged t → (i : Uuid) → Told i (t.conversations i) t.by_user
told t w i = elim (Option-cases (t.conversations i)) [
  | inl e ↦ rw e (w.absent i e)
  | inr (c, e) ↦ rw e (w.row i c e)
]

cataloged : (t : Tables) → ((i : Uuid) → Told i (t.conversations i) t.by_user) → IsCataloged t
cataloged t f = record {
  row = λ i c e. subst (λ o. Told i o t.by_user) e (f i);
  absent = λ i e. subst (λ o. Told i o t.by_user) e (f i);
}

-- One conversation's row and entries change, the others' entries stay.
one_changed :
    (i : Uuid) (o : Option Conversation) (t : Tables) (es : List Entry)
    → IsCataloged t
    → Told i o es
    → ((j : Uuid) → (j == i) ≡ false → keep (names j) es ≡ keep (names j) t.by_user)
    → (u : Tables) → u.conversations ≡ set_row i o t.conversations
    → u.by_user ≡ es
    → IsCataloged u
one_changed i o t es w here others u rows entries = cataloged u (λ j.
    subst (λ f. Told j (f j) u.by_user) (sym rows)
      (subst (Told j (set_row i o t.conversations j)) (sym entries) (elim (Bool-cases (j == i)) [
        | inl y ↦ rw y (subst (λ k. Told k o es) (sym ((==_iff j i).0 y)) here)
        | inr n ↦ rw n (kept j (t.conversations j) (others j n) (told t w j))
      ])))
  where
    kept :
        (j : Uuid) (r : Option Conversation)
        → keep (names j) es ≡ keep (names j) t.by_user
        → Told j r t.by_user
        → Told j r es
    kept j none e h = e ∙ h
    kept j (some c) e h = (h.0, e ∙ h.1)

pub created-IsCataloged :
    (conv : Conversation) (event : ConversationEvent) (t : Tables)
    → IsCataloged t
    → t.conversations conv.conversation_id ≡ none
    → IsCataloged (created conv event t)
unfolding created
created-IsCataloged conv event t w fresh =
    let i = conv.conversation_id in
    let row : Conversation = record conv {
      created_at = milliseconds conv.created_at;
      updated_at = milliseconds conv.updated_at;
    } in
    one_changed i (some row) t (insert_entry (entry_of row) t.by_user) w
      (refl, keep_insert_only (names i) (entry_of row) t.by_user (==_refl i) (w.absent i fresh))
      (λ j n.
        keep_insert (names j) (entry_of row) t.by_user (ground (arith, n, ==_iff j i, ==_iff i j)))
      (created conv event t) refl refl

-- The write is later than the last one.
pub changed-IsCataloged :
    (i : Uuid) (conv : Conversation) (title : Text) (status : ConversationStatus) (now : Time)
    (events : List ConversationEvent) (t : Tables)
    → IsCataloged t
    → t.conversations i ≡ some conv
    → conv.updated_at < milliseconds now
    → IsCataloged (changed i conv title status now events t)
unfolding changed move_entry
changed-IsCataloged i conv title status now events t w e later =
    let (own, entries) = w.row i conv e in
    let row : Conversation = record conv {
      title = title;
      updated_at = milliseconds now;
      status = status;
    } in
    let key = at_key conv.user_id conv.updated_at i in
    let new : Entry = record (entry_of row) { conversation_id = i } in
    let matches : key (entry_of conv) ≡ true =
      rw (==_refl conv.user_id, ==_refl conv.updated_at, (==_iff conv.conversation_id i).1 own)
        refl in
    let spared : key new ≡ false = ground (arith, later) in
    let untouched : (j : Uuid)
        → (j == i) ≡ false
        → delete_entry key (keep (names j) t.by_user) ≡ keep (names j) t.by_user =
      λ j n. delete_none j key t.by_user (other_key i j conv.user_id conv.updated_at n) in
    let emptied : keep (names i) (delete_entry key t.by_user) ≡ [] =
      keep_delete (names i) key t.by_user ∙ (ap (delete_entry key) entries ∙ rw (matches) refl) in
    one_changed i (some row) t (move_entry key new t.by_user) w
      (
        own,
        keep_delete (names i) key (insert_entry new (delete_entry key t.by_user))
            ∙ (ap (delete_entry key)
                  (keep_insert_only (names i) new (delete_entry key t.by_user) (==_refl i) emptied)
                ∙ rw spared (ap (λ k. record new { conversation_id = k } ∷ []) (sym own))),
      )
      (λ j n.
        keep_delete (names j) key (insert_entry new (delete_entry key t.by_user))
        ∙ (ap (delete_entry key) (
              keep_insert (names j) new (delete_entry key t.by_user)
                (ground (arith, n, ==_iff j i, ==_iff i j))
              ∙ keep_delete (names j) key t.by_user)
            ∙ (ap (delete_entry key) (untouched j n) ∙ untouched j n)))
      (changed i conv title status now events t) refl refl

pub removed-IsCataloged :
    (i : Uuid) (conv : Conversation) (t : Tables)
    → IsCataloged t
    → t.conversations i ≡ some conv
    → IsCataloged (removed i conv t)
unfolding removed
removed-IsCataloged i conv t w e =
    let (own, entries) = w.row i conv e in
    let key = at_key conv.user_id conv.updated_at i in
    let matches : key (entry_of conv) ≡ true =
      rw (==_refl conv.user_id, ==_refl conv.updated_at, (==_iff conv.conversation_id i).1 own)
        refl in
    one_changed i none t (delete_entry key t.by_user) w
      (keep_delete (names i) key t.by_user ∙ (ap (delete_entry key) entries ∙ rw matches refl))
      (λ j n.
        keep_delete (names j) key t.by_user
        ∙ delete_none j key t.by_user (other_key i j conv.user_id conv.updated_at n))
      (removed i conv t) refl refl
