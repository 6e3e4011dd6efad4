-- ===== src/MessageService/Finish/Rows.antt =====
-- The row of a reply, and the write that ends its turn.
use conversation_service.Prelude.{
  ◌≡◌, ◌↔◌, refl, sym, subst, ap, ◌∙◌, true, ◌⊎◌, Option, none, some, List, [], ◌∷◌, inl, inr,
}
use conversation_service.Model.{
  Uuid, Time, Text, Sender, assistant, MessageStatus, Citation, is_assistant,
}
use conversation_service.State.{Row, RowStatus, live, deleted, World, Env}
use conversation_service.Messages.{insert_direct, cleaned, read_row}
use conversation_service.Messages.Effects.{direct}
use conversation_service.Messages.Table.{find}
use conversation_service.MessageService.Finish.{writable}
use conversation_service.MessageService.Reads.{
  row, row-write, row-write-OnlyRow, OnlyRow, SameTables,
}

-- The reply's row: free, or an assistant's.
abbrev pub ForAssistant : Option Row → Type 0
ForAssistant none = Unit
ForAssistant (some r) = is_assistant r.sender ≡ true

-- A row of the assistant with this text and status.
abbrev pub Holds : Text → MessageStatus → Option Row → Type 0
Holds content status none = ⊥
Holds content status (some r) =
    (r.sender ≡ assistant) × (r.content ≡ content) × (r.status ≡ live status)

-- A turn ended in the row `m`, which was free or the assistant's, with this text and status.
pub record Ended (cid m : Uuid) (content : Text) (status : MessageStatus) (w v : World)
    : Type 0 where
  pub before : ForAssistant (row w cid m)
  pub others : OnlyRow cid m w v
  pub holds : Holds content status (row v cid m)
  pub outbox : v.outbox ≡ w.outbox
  pub streamed : v.streamed ≡ w.streamed
  pub inbox : v.inbox ≡ w.inbox

Status-cases : (s : RowStatus) → ((m : MessageStatus) × (s ≡ live m)) ⊎ (s ≡ deleted)
Status-cases (live m) = inl (m, refl)
Status-cases deleted = inr refl

-- The guard tells whether the row is free or the assistant's.
pub writable-ForAssistant :
    (env : Env) (cid : Uuid) (o : Option Row)
    → (writable (read_row env cid o) ≡ true) ↔ ForAssistant o
writable-ForAssistant env cid none = (λ h. tt, λ h. refl)
writable-ForAssistant env cid (some r) = elim (Status-cases r.status) [
  | inl (s, e) ↦ rw e (λ h. h, λ h. h)
  | inr e ↦ rw e (λ h. h, λ h. h)
]

insert_direct-Holds :
    (m : Uuid) (content : Text) (now : Time) (status : MessageStatus) (cs : List Citation)
    (o : Option Row)
    → Holds content status (some (insert_direct m assistant content now status cs o))
insert_direct-Holds m content now status [] o = (refl, refl, refl)
insert_direct-Holds m content now status (c ∷ cs) o = (refl, refl, refl)

insert_direct-id :
    (m : Uuid) (sender : Sender) (content : Text) (now : Time) (status : MessageStatus)
    (cs : List Citation) (o : Option Row)
    → (insert_direct m sender content now status cs o).message_id ≡ m
insert_direct-id m sender content now status [] o = refl
insert_direct-id m sender content now status (c ∷ cs) o = refl

pub direct-Ended :
    (env : Env) (cid m : Uuid) (content : Text) (status : MessageStatus) (cs : List Citation)
    (w v : World)
    → ForAssistant (row w cid m)
    → SameTables (direct env cid m assistant content status cs w) v
    → Ended cid m content status w v
direct-Ended env cid m content status cs w v free kept =
    let f = insert_direct m assistant content env.now status (cleaned env cs) in
    let ids = insert_direct-id m assistant content env.now status (cleaned env cs) in
    record {
      before = free;
      others = λ c j ne. ap (λ t. find j (t c)) kept.rows ∙ row-write-OnlyRow cid m f w ids c j ne;
      holds =
          subst (Holds content status)
            (sym (ap (λ t. find m (t cid)) kept.rows ∙ row-write cid m f w ids))
            (insert_direct-Holds m content env.now status (cleaned env cs) (row w cid m));
      outbox = kept.outbox;
      streamed = kept.streamed;
      inbox = kept.inbox;
    }
