-- ===== src/Tests/Turns.antt =====
-- A turn from the question to its answer, and the workers beside it.
use conversation_service.Prelude.{
  zero, suc, Option-cases, inl, inr, ℕ, ◌+◌, ◌≤◌, ◌≡◌, refl, true, false, none, some, [], arith,
  contains,
}
use conversation_service.MessageService.Send.{prompt_id}
use conversation_service.Model.{sent, pending, Uuid, user}
use conversation_service.Strings.{codes}
use conversation_service.State.{RowStatus, live}
use conversation_service.Helpers.{uuidv7_after, after_loop}
use conversation_service.Citations.{arr, cons, nil, sanitize_citations}
use conversation_service.Errors.Ensures.{Ensures}
use conversation_service.Messages.Table.{find}
use conversation_service.MessageService.{format_history, none_applied}
use conversation_service.MessageService.Returns.{send_accepts}
use conversation_service.MessageService.Format.{Fits, format_history-Fits}
use conversation_service.MessageService.Finish.{finalize_assistant_message, fail_assistant_message}
use conversation_service.MessageService.Finish.Safety.{
  Finalized, FailedOrKept, finalize_assistant_message-Finalized,
  fail_assistant_message-FailedOrKept,
}
use conversation_service.MessageService.Finish.Rows.{ForAssistant}
use conversation_service.MessageService.Reads.{row}
use conversation_service.MessageService.Regenerate.{Outcome, Keeps, regenerate-Outcome}
use conversation_service.Consumers.{
  EventKey, GeneratedEvent, completed_token, handle_chat_response_generated,
}
use conversation_service.Consumers.Safety.{Safe, handle_chat_response_generated-Safe}
use conversation_service.Consumers.Delivered.{
  Delivered, success_event, handle_chat_response_generated-Delivered,
}
use conversation_service.Timeout.{process_expired_pending}
use conversation_service.Timeout.Safety.{KeepsAnswers, process_expired_pending-KeepsAnswers}
use conversation_service.Outbox.{fetch_unpublished, process_bucket}
use conversation_service.Outbox.Order.{Pass, process_bucket-Pass}
use conversation_service.Stream.{replay}
use conversation_service.Stream.Replay.{readable, Replayed, replay-Replayed}
use conversation_service.Leases.{WorkerId, Leases, acquire_lock}
use conversation_service.Leases.Exclusion.{initial, next, acquire, start, exclusive}
use conversation_service.Ownership.{Redis, is_owner, register_ownership, release_ownership}
use conversation_service.Ownership.Release.{release_ownership-register_ownership}
use conversation_service.Idempotency.{Client}
use conversation_service.MessageService.Send.{Ids, send, regenerate}
use conversation_service.MessageService.Staging.{Fresh, Compensates, Withdrawn}
use conversation_service.MessageService.Accept.{Accepted, send-Accepted}
use conversation_service.Tests.Fixtures.{source, size, calm, plain, ids, nothing, busy, talk}

calm-Compensates : Compensates calm
calm-Compensates = record { deletes = refl; clears = refl }

nothing-Fresh : (m : Uuid) → Fresh 1 m nothing
unfolding find
nothing-Fresh m = record { no_row = refl; no_marker = refl }

send-Accepted_example :
    Ensures
      (λ msg v.
        Accepted calm ids 1 41 (codes "Why?") [] (uuidv7_after ids.candidate 41) nothing msg v)
      (λ e v. Withdrawn 1 (uuidv7_after ids.candidate 41) nothing v)
      (send calm plain ids 1 41 user (codes "Why?") (some 7) none none [] false nothing)
send-Accepted_example =
    send-Accepted calm plain ids 1 41 (codes "Why?") (some 7) none none [] false nothing
      (omega arith) calm-Compensates (nothing-Fresh (uuidv7_after ids.candidate 41))

send_accepts_example :
    Ensures
      (λ msg v.
        Accepted calm ids 1 41 (codes "Why?") [] (uuidv7_after ids.candidate 41) nothing msg v)
      (λ e v. ⊥)
      (send calm plain ids 1 41 user (codes "Why?") (some 7) none none [] false nothing)
send_accepts_example =
    send_accepts calm plain ids 1 41 (codes "Why?") (some 7) none none [] false nothing
      (record {
        mode = none;
        selected_tools = none;
        defaults_applied = none_applied;
        generation = none;
        custom_mode = none;
      })
      (omega arith) (nothing-Fresh (uuidv7_after ids.candidate 41)) (λ c. refl) refl refl

abbrev finished : GeneratedEvent
finished = success_event 1 50 (codes "Because.") [] (arr (cons source nil))

abbrev key_of : EventKey → Uuid
key_of k = 77

finalize_assistant_message-Finalized_example :
    Ensures
      (Finalized 1 50 (codes "Because.") (busy (live pending)))
      (λ e v. v ≡ (busy (live pending)))
      (finalize_assistant_message calm plain 1 50 (codes "Because.") [] (busy (live pending)))
finalize_assistant_message-Finalized_example =
    finalize_assistant_message-Finalized calm plain 1 50 (codes "Because.") [] (busy (live pending))

fail_assistant_message-FailedOrKept_example :
    Ensures
      (FailedOrKept calm 1 50 (codes "No.") (busy (live pending)))
      (λ e v. v ≡ (busy (live pending)))
      (fail_assistant_message calm plain 1 50 (codes "No.") (busy (live pending)))
fail_assistant_message-FailedOrKept_example =
    fail_assistant_message-FailedOrKept calm plain 1 50 (codes "No.") (busy (live pending))

-- Ids from 100 on, which no row of `busy` has.
abbrev later : Ids
later = record { candidate = λ i. 100 + i; event_id = 92; request_id = 93 }

after_loop-large :
    (rounds i floor : ℕ) {id : Uuid}
    → after_loop rounds later.candidate i floor ≡ some id
    → 100 ≤ id
unfolding after_loop
after_loop-large zero i floor e = cc
after_loop-large (suc rounds) i floor {id} e =
    ground (arith, after_loop-large rounds (i + 1) floor {id = id})

after_loop-none : (floor : Uuid) → after_loop 64 later.candidate 0 floor ≡ none → 100 ≤ floor
unfolding after_loop
after_loop-none floor e = ground arith

later-large : (prompt : Uuid) → 100 ≤ uuidv7_after later.candidate prompt
unfolding uuidv7_after
later-large prompt = elim (Option-cases (after_loop 64 later.candidate 0 prompt)) [
  | inl e ↦ let large = after_loop-none prompt e in rw (e, uuidv7_after) (omega arith)
  | inr (id, e) ↦ rw (e, uuidv7_after) (after_loop-large 64 0 prompt e)
]

busy-Fresh : (status : RowStatus) (m : Uuid) → 100 ≤ m → Fresh 1 m (busy status)
unfolding find
busy-Fresh status m large = record {
  no_row = ground (arith, large);
  no_marker = ground (arith, large);
}

regenerate-Outcome_example :
    Ensures
      (Outcome calm later 1 50 (busy (live sent)))
      (λ e v. Keeps (busy (live sent)) v)
      (regenerate calm plain later 1 50 (some 7) (busy (live sent)))
regenerate-Outcome_example =
    regenerate-Outcome calm plain later 1 50 (some 7) (busy (live sent)) calm-Compensates
      (λ target rest found.
        busy-Fresh (live sent) (uuidv7_after later.candidate (prompt_id target rest))
          (later-large (prompt_id target rest)))

handle_chat_response_generated-Safe_example :
    Ensures
      (λ u v. Safe (busy (live pending)) v)
      (λ x v. Safe (busy (live pending)) v)
      (handle_chat_response_generated calm plain key_of finished (busy (live pending)))
handle_chat_response_generated-Safe_example =
    handle_chat_response_generated-Safe calm plain key_of finished (busy (live pending))

busy-ForAssistant : ForAssistant (row (busy (live pending)) 1 50)
unfolding find
busy-ForAssistant = refl

handle_chat_response_generated-Delivered_example :
    Ensures
      (λ u v.
        Delivered calm plain key_of finished
          (completed_token 1 50
            (codes "Because.")
            (sanitize_citations size (arr (cons source nil))))
          1
          50
          (busy (live pending))
          v)
      (λ err v. v.inbox ≡ (busy (live pending)).inbox)
      (handle_chat_response_generated calm plain key_of finished (busy (live pending)))
handle_chat_response_generated-Delivered_example =
    handle_chat_response_generated-Delivered calm plain key_of 1 50 (codes "Because.") []
      (arr (cons source nil)) (busy (live pending)) refl busy-ForAssistant

process_expired_pending-KeepsAnswers_example :
    KeepsAnswers
      (busy (live sent))
      (process_expired_pending calm (λ m. calm) plain 2000 (busy (live sent))).1
process_expired_pending-KeepsAnswers_example =
    process_expired_pending-KeepsAnswers calm (λ m. calm) plain 2000 (busy (live sent))

process_bucket-Pass_example :
    Pass
      (λ i. true)
      (λ i. false)
      (fetch_unpublished 1 200 (busy (live pending)))
      (busy (live pending))
      (process_bucket (λ i. true) (λ i. false) true 1 (busy (live pending)))
    × (process_bucket (λ i. true) (λ i. false) false 1 (busy (live pending)) ≡ busy (live pending))
process_bucket-Pass_example = process_bucket-Pass (λ i. true) (λ i. false) 1 (busy (live pending))

replay-Replayed_example :
    Replayed 50 0
      ((busy (live pending)).event_log 1)
      (readable calm)
      (replay calm 1 50 0 (busy (live pending)))
replay-Replayed_example = replay-Replayed calm 1 50 0 (busy (live pending))

format_history-Fits_example : Fits (format_history talk)
format_history-Fits_example = format_history-Fits talk

abbrev client : Client
client = record { connected = true; set_fails = false; get_fails = false; delete_fails = false }

abbrev leased : Leases
leased = (acquire_lock false 3 5 start).1

holds_lease : contains 5 (leased.locked_buckets 3) ≡ true
unfolding acquire_lock
holds_lease = refl

exclusive_example : ◌≡◌ {A = WorkerId} 3 3
exclusive_example =
    exclusive leased 3 3 5 (next initial (acquire false 3 5)) holds_lease holds_lease

abbrev reachable : Redis
reachable = record {
  connected = true;
  set_fails = false;
  expire_fails = false;
  get_fails = false;
  delete_fails = false;
  now = 10;
  ttl = 30;
}

release_ownership-register_ownership_example :
    (is_owner 8 (release_ownership reachable 4 1 (register_ownership reachable 8 1 (λ c. none)) 1)
      ≡ true)
    × (reachable.get_fails ≡ false
        → reachable.delete_fails ≡ false
        → release_ownership reachable 8 1 (register_ownership reachable 8 1 (λ c. none)) 1 ≡ none)
release_ownership-register_ownership_example =
    release_ownership-register_ownership reachable 4 8 1 (λ c. none) refl refl (omega arith) refl
