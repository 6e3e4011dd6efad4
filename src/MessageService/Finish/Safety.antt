-- ===== src/MessageService/Finish/Safety.antt =====
-- The rows that the end of a turn writes.
use conversation_service.Prelude.{
  ◌≡◌, ◌↔◌, refl, sym, subst, ap, ◌∙◌, Bool, true, false, ◌⊎◌, Option, none, some, List, [],
  if◌then◌else◌, inl, inr,
}
use conversation_service.Model.{Uuid, Text, assistant, sent, failed, Message, Citation}
use conversation_service.State.{World, Env}
use conversation_service.Errors.{return}
use conversation_service.Errors.Ensures.{Ensures, Ensures-continue, Ensures-map, Ensures-test}
use conversation_service.Messages.{read_row}
use conversation_service.Messages.Effects.{get_message-Ensures, create_message_direct-Ensures}
use conversation_service.MessageService.{Services}
use conversation_service.MessageService.Finish.{
  completed, is_writable_assistant_row, finalize_write, finalize_assistant_message, fail_write,
  fail_checked, fail_assistant_message,
}
use conversation_service.MessageService.Reads.{row, SameTables, invalidate_cache-SameTables}
use conversation_service.MessageService.Finish.Rows.{
  ForAssistant, Ended, writable-ForAssistant, direct-Ended,
}

-- What `finalize_assistant_message` returned, and the state that it left.
abbrev pub Finalized : Uuid → Uuid → Text → World → Option Message → World → Type 0
Finalized cid m content w none v = (v ≡ w) × (ForAssistant (row w cid m) → ⊥)
Finalized cid m content w (some msg) v =
    Ended cid m content sent w v × (msg.content ≡ content) × (msg.status ≡ sent)

-- What `fail_assistant_message` returned, and the state that it left.
abbrev pub FailedOrKept : Env → Uuid → Uuid → Text → World → Option Message → World → Type 0
FailedOrKept env cid m error_message w none v = (v ≡ w) × (ForAssistant (row w cid m) → ⊥)
FailedOrKept env cid m error_message w (some msg) v =
    ((completed (some msg) ≡ true) × (read_row env cid (row w cid m) ≡ some msg) × (v ≡ w))
    ⊎ ((completed (read_row env cid (row w cid m)) ≡ false) × Ended cid m error_message failed w v)

refuse : {b : Bool} → b ≡ false → b ≡ true → ⊥
refuse p q = cc

module _ (env : Env) (svc : Services) where
  writable_row-Ensures :
      (cid m : Uuid) (w : World)
      → Ensures
          (λ b v. (v ≡ w) × ((b ≡ true) ↔ ForAssistant (row w cid m)))
          (λ e v. v ≡ w)
          (is_writable_assistant_row env svc cid m w)
  unfolding is_writable_assistant_row
  writable_row-Ensures cid m w =
      Ensures-continue (get_message-Ensures env cid m w)
        (λ found v s. record {
          after = (s.1, rw s.0 (writable-ForAssistant env cid (row w cid m)));
        })
        (λ e v s. s)

  finalize_write-Ended :
      (cid m : Uuid) (content : Text) (citations : List Citation) (w : World)
      → ForAssistant (row w cid m)
      → Ensures
          (Finalized cid m content w)
          (λ e v. v ≡ w)
          (finalize_write env svc cid m content citations w)
  unfolding finalize_write
  finalize_write-Ended cid m content citations w free =
      Ensures-continue (create_message_direct-Ensures env cid m assistant content sent citations w)
        (λ msg v s.
          Ensures-continue (invalidate_cache-SameTables env svc cid v)
            (λ u x kept. record {
              after = (
                direct-Ended env cid m content sent citations w x free
                    (subst (λ y. SameTables y x) s.0 kept),
                s.1,
                s.2,
              );
            })
            (λ e x never. absurd never))
        (λ e v s. s.0)

  fail_write-Ended :
      (cid m : Uuid) (content : Text) (w : World)
      → ForAssistant (row w cid m)
      → Ensures
          (λ r v. (msg : Message) × (r ≡ some msg) × Ended cid m content failed w v)
          (λ e v. v ≡ w)
          (fail_write env svc cid m content w)
  unfolding fail_write
  fail_write-Ended cid m content w free =
      Ensures-continue (create_message_direct-Ensures env cid m assistant content failed [] w)
        (λ msg v s.
          Ensures-continue (invalidate_cache-SameTables env svc cid v)
            (λ u x kept. record {
              after = (
                msg,
                refl,
                direct-Ended env cid m content failed [] w x free
                    (subst (λ y. SameTables y x) s.0 kept),
              );
            })
            (λ e x never. absurd never))
        (λ e v s. s.0)

  -- A final reply goes to the assistant's row or to none: when the row with its id is the user's or
  -- the system's, nothing changes and nothing is returned. Otherwise that row alone is written,
  -- with the whole reply, as sent, whatever it held before, a timeout's failure too. A raise
  -- leaves the state as it was.
  pub finalize_assistant_message-Finalized :
      (cid m : Uuid) (content : Text) (citations : List Citation) (w : World)
      → Ensures
          (Finalized cid m content w)
          (λ e v. v ≡ w)
          (finalize_assistant_message env svc cid m content citations w)
  unfolding finalize_assistant_message
  finalize_assistant_message-Finalized cid m content citations w =
      Ensures-continue (writable_row-Ensures cid m w)
        (λ fine v s.
          Ensures-test fine _ _ v
            (λ y.
              subst
                (λ x.
                  Ensures (Finalized cid m content w) (λ e v. v ≡ w)
                    (finalize_write env svc cid m content citations x))
                (sym s.0) (finalize_write-Ended cid m content citations w (s.1.0 y)))
            (λ n. record { after = (s.0, λ free. refuse n (s.1.1 free)) }))
        (λ e v s. s)

  fail_write-FailedOrKept :
      (cid m : Uuid) (error_message : Text) (w : World)
      → ForAssistant (row w cid m)
      → completed (read_row env cid (row w cid m)) ≡ false
      → Ensures
          (FailedOrKept env cid m error_message w)
          (λ e v. v ≡ w)
          (fail_write env svc cid m error_message w)
  fail_write-FailedOrKept cid m error_message w free open_yet =
      Ensures-map (fail_write-Ended cid m error_message w free)
        (λ r v (msg, e, ended).
          subst (λ x. FailedOrKept env cid m error_message w x v) (sym e) (inr (open_yet, ended)))
        (λ e v s. s)

  fail_found :
      (cid m : Uuid) (error_message : Text) (existing : Option Message) (w : World)
      → ForAssistant (row w cid m)
      → existing ≡ read_row env cid (row w cid m)
      → Ensures
          (FailedOrKept env cid m error_message w)
          (λ e v. v ≡ w)
          ((if completed existing then return existing else fail_write env svc cid m error_message)
            w)
  fail_found cid m error_message none w free e =
      fail_write-FailedOrKept cid m error_message w free (sym (ap completed e))
  fail_found cid m error_message (some msg) w free e =
      Ensures-test (completed (some msg)) _ _ w (λ y. record { after = inl (y, sym e, refl) })
        (λ n. fail_write-FailedOrKept cid m error_message w free (sym (ap completed e) ∙ n))

  fail_checked-FailedOrKept :
      (cid m : Uuid) (error_message : Text) (w : World)
      → ForAssistant (row w cid m)
      → Ensures
          (FailedOrKept env cid m error_message w)
          (λ e v. v ≡ w)
          (fail_checked env svc cid m error_message w)
  unfolding fail_checked
  fail_checked-FailedOrKept cid m error_message w free =
      Ensures-continue (get_message-Ensures env cid m w)
        (λ existing v s.
          subst
            (λ x.
              Ensures (FailedOrKept env cid m error_message w) (λ e v. v ≡ w)
                ((if completed existing
                    then return existing
                    else fail_write env svc cid m error_message)
                  x))
            (sym s.1) (fail_found cid m error_message existing w free s.0))
        (λ e v s. s)

  -- A failure is written to the assistant's row or to none, and it does not replace a stored reply:
  -- when nothing was returned the row was the user's or the system's; when a message was returned,
  -- either it is the completed reply that was read, and nothing changed, or the row alone was
  -- written, with the error text, as failed. A raise leaves the state as it was.
  pub fail_assistant_message-FailedOrKept :
      (cid m : Uuid) (error_message : Text) (w : World)
      → Ensures
          (FailedOrKept env cid m error_message w)
          (λ e v. v ≡ w)
          (fail_assistant_message env svc cid m error_message w)
  unfolding fail_assistant_message
  fail_assistant_message-FailedOrKept cid m error_message w =
      Ensures-continue (writable_row-Ensures cid m w)
        (λ fine v s.
          Ensures-test fine _ _ v
            (λ y.
              subst
                (λ x.
                  Ensures (FailedOrKept env cid m error_message w) (λ e v. v ≡ w)
                    (fail_checked env svc cid m error_message x))
                (sym s.0) (fail_checked-FailedOrKept cid m error_message w (s.1.0 y)))
            (λ n. record { after = (s.0, λ free. refuse n (s.1.1 free)) }))
        (λ e v s. s)
