-- ===== src/Timeout/Safety.antt =====
-- What a scan of the timeouts leaves alone.
use conversation_service.Prelude.{
  ◌≡◌, refl, sym, subst, ap, ◌∙◌, Bool, true, false, ◌&&◌, Option, none, some, List, [], ◌∷◌, arith,
  ◌==◌, ==_iff, Bool-cases, inl, inr,
}
use conversation_service.Model.{sent, is_assistant, Uuid, Time, assistant, failed}
use conversation_service.State.{
  live, Row, World, Marker, marker_get, marker_delete, marker_zrem, zset_scan, Env,
}
use conversation_service.Errors.{Result, return, ◌>>◌}
use conversation_service.Errors.Ensures.{Ensures, Ensures-continue, Ensures-test, Ensures-state}
use conversation_service.Messages.{read_row, insert_direct}
use conversation_service.Messages.Effects.{
  calls-Ensures, get_message-Ensures, create_message_direct-Ensures, direct,
}
use conversation_service.Messages.Table.{find}
use conversation_service.MessageService.{Services}
use conversation_service.MessageService.Reads.{
  row, OnlyRow, row-write-OnlyRow, invalidate_cache-SameTables,
}
use conversation_service.Consumers.{failed_token}
use conversation_service.Consumers.Delivery.{publish_token_kept}
use conversation_service.Timeout.{
  timeout_message, expired, answered, unexpired, delete_key, remove_entry, time_out, expire_marked,
  process_entry, process_entries, process_expired_pending,
}

-- Every answer that `w` stores is in `v` as it was, and the outbox is the same.
pub record KeepsAnswers (w v : World) : Type 0 where
  pub outbox : v.outbox ≡ w.outbox
  pub answers :
      (c j : Uuid) (r : Row)
      → row w c j ≡ some r
      → is_assistant r.sender ≡ true
      → r.status ≡ live sent
      → row v c j ≡ some r

-- Such a row is what the worker takes for an answer.
answered-read_row :
    (env : Env) (c : Uuid) (r : Row)
    → is_assistant r.sender ≡ true
    → r.status ≡ live sent
    → answered (read_row env c (some r)) ≡ true
answered-read_row env c r mine stored = rw (stored, mine) refl

module _ (env : Env) where
  keeps : (w v : World) → v.rows ≡ w.rows → v.outbox ≡ w.outbox → KeepsAnswers w v
  keeps w v rows outbox = record {
    outbox = outbox;
    answers = λ c j r e a s. ap (λ t. find j (t c)) rows ∙ e;
  }

  KeepsAnswers-trans : {w v x : World} → KeepsAnswers w v → KeepsAnswers v x → KeepsAnswers w x
  KeepsAnswers-trans p q = record {
    outbox = q.outbox ∙ p.outbox;
    answers = λ c j r e a s. q.answers c j r (p.answers c j r e a s) a s;
  }

  -- A write of one row that holds no answer.
  KeepsAnswers-write :
      (cid m : Uuid) (w v : World)
      → answered (read_row env cid (row w cid m)) ≡ false
      → v.outbox ≡ w.outbox
      → OnlyRow cid m w v
      → KeepsAnswers w v
  KeepsAnswers-write cid m w v open_yet outbox only = record {
    outbox = outbox;
    answers = λ c j r e a s. elim (Bool-cases ((c == cid) && (m == j))) [
      | inr n ↦ only c j n ∙ e
      | inl y ↦
          let same_c : c ≡ cid = (==_iff c cid).0 (ground arith) in
          let same_m : m ≡ j = (==_iff m j).0 (ground arith) in
          let here : row w c m ≡ some r = ap (row w c) same_m ∙ e in
          let open_here : answered (read_row env c (row w c m)) ≡ false =
            subst (λ x. answered (read_row env x (row w x m)) ≡ false) (sym same_c) open_yet in
          absurd (
            clash (ap (λ o. answered (read_row env c o)) here ∙ answered-read_row env c r a s)
              open_here)
    ];
  }
    where
      clash : {b : Bool} → b ≡ true → b ≡ false → ⊥
      clash p q = cc

module _ (env : Env) (svc : Services) where
  abbrev Kept : World → Result Bool × World → Type 0
  Kept w m = Ensures (λ b v. KeepsAnswers w v) (λ e v. KeepsAnswers w v) m

  -- The two calls that remove a marker write no table.
  delete_key-Ensures :
      (m : Uuid) (w : World)
      → Ensures
          (λ u v. (v.rows ≡ w.rows) × (v.outbox ≡ w.outbox))
          (λ e v. (v.rows ≡ w.rows) × (v.outbox ≡ w.outbox))
          (delete_key env svc m w)
  delete_key-Ensures m w =
      Ensures-continue (calls-Ensures env marker_delete w)
        (λ u v s. record { after = (ap (λ x. x.rows) s.1, ap (λ x. x.outbox) s.1) })
        (λ e v s. (ap (λ x. x.rows) s.1, ap (λ x. x.outbox) s.1))

  remove_entry-Ensures :
      (m : Uuid) (w : World)
      → Ensures
          (λ u v. (v.rows ≡ w.rows) × (v.outbox ≡ w.outbox))
          (λ e v. (v.rows ≡ w.rows) × (v.outbox ≡ w.outbox))
          (remove_entry env svc m w)
  remove_entry-Ensures m w =
      Ensures-continue (calls-Ensures env marker_zrem w)
        (λ u v s. record { after = (ap (λ x. x.rows) s.1, ap (λ x. x.outbox) s.1) })
        (λ e v s. (ap (λ x. x.rows) s.1, ap (λ x. x.outbox) s.1))

  removed-Kept :
      (m : Uuid) (b : Bool) (w x : World)
      → KeepsAnswers w x
      → Kept w ((remove_entry env svc m >> return b) x)
  removed-Kept m b w x k =
      Ensures-continue (remove_entry-Ensures m x)
        (λ u v s. record { after = KeepsAnswers-trans env k (keeps env x v s.0 s.1) })
        (λ e v s. KeepsAnswers-trans env k (keeps env x v s.0 s.1))

  cleaned-Kept :
      (m : Uuid) (b : Bool) (w x : World)
      → KeepsAnswers w x
      → Kept w ((delete_key env svc m >> (remove_entry env svc m >> return b)) x)
  cleaned-Kept m b w x k =
      Ensures-continue (delete_key-Ensures m x)
        (λ u v s. removed-Kept m b w v (KeepsAnswers-trans env k (keeps env x v s.0 s.1)))
        (λ e v s. KeepsAnswers-trans env k (keeps env x v s.0 s.1))

  time_out-Kept :
      (cid m : Uuid) (w : World)
      → answered (read_row env cid (row w cid m)) ≡ false
      → Kept w (time_out env svc cid m w)
  unfolding time_out
  time_out-Kept cid m w open_yet =
      let f = insert_direct m assistant timeout_message env.now failed [] in
      let put = direct env cid m assistant timeout_message failed [] w in
      let start : KeepsAnswers w put =
        KeepsAnswers-write env cid m w put open_yet refl
          (row-write-OnlyRow cid m f w (λ o. refl)) in
      Ensures-continue
        (create_message_direct-Ensures env cid m assistant timeout_message failed [] w)
        (λ msg v s.
          Ensures-continue (invalidate_cache-SameTables env svc cid v)
            (λ u x kept.
              let told = publish_token_kept env cid (failed_token cid m timeout_message) x _ refl in
              cleaned-Kept m true w _ (
                KeepsAnswers-trans env (subst (KeepsAnswers w) (sym s.0) start) (
                  KeepsAnswers-trans env (keeps env v x kept.rows kept.outbox)
                    (keeps env x _ told.0 told.1))))
            (λ e x never. absurd never))
        (λ e v s. keeps env w v (ap (λ x. x.rows) s.0) (ap (λ x. x.outbox) s.0))

  expire_marked-Kept :
      (o : Option Marker) (m : Uuid) (w : World) → Kept w (expire_marked env svc o m w)
  unfolding expire_marked
  expire_marked-Kept none m w = removed-Kept m false w w (keeps env w w refl refl)
  expire_marked-Kept (some marker) m w =
      Ensures-continue (get_message-Ensures env marker.conversation_id m w)
        (λ existing v s.
          Ensures-test (answered existing) _ _ v
            (λ y.
              cleaned-Kept m false w v
                (keeps env w v (ap (λ x. x.rows) s.1) (ap (λ x. x.outbox) s.1)))
            (λ n.
              subst (λ x. Kept w (time_out env svc marker.conversation_id m x)) (sym s.1)
                (time_out-Kept marker.conversation_id m w (sym (ap answered s.0) ∙ n))))
        (λ e v s. keeps env w v (ap (λ x. x.rows) s) (ap (λ x. x.outbox) s))

  process_entry-Kept : (m : Uuid) (w : World) → Kept w (process_entry env svc m w)
  unfolding process_entry
  process_entry-Kept m w =
      Ensures-continue (calls-Ensures env marker_get w)
        (λ u v s.
          subst (λ x. Kept w (expire_marked env svc (unexpired env.now (x.marker m)) m x)) (sym s.1)
            (expire_marked-Kept (unexpired env.now (w.marker m)) m w))
        (λ e v s. keeps env w v (ap (λ x. x.rows) s.1) (ap (λ x. x.outbox) s.1))

module _ (env : Env) (each : Uuid → Env) (svc : Services) where
  process_entries-KeepsAnswers :
      (ms : List Uuid) (w : World) → KeepsAnswers w (process_entries env each svc ms w).1
  unfolding process_entries
  process_entries-KeepsAnswers [] w = keeps env w w refl refl
  process_entries-KeepsAnswers (m ∷ ms) w =
      KeepsAnswers-trans env
        (Ensures-state (KeepsAnswers w) (process_entry (each m) svc m w)
          (process_entry-Kept (each m) svc m w))
        (process_entries-KeepsAnswers ms (process_entry (each m) svc m w).1)

  -- One scan of the timeouts, with any markers and whichever calls raise, for each entry on its own:
  -- each stored answer, an assistant's row that was sent, is as before, and no request was added.
  pub process_expired_pending-KeepsAnswers :
      (now : Time) (w : World) → KeepsAnswers w (process_expired_pending env each svc now w).1
  unfolding process_expired_pending
  process_expired_pending-KeepsAnswers now w = elim (Bool-cases (env.down zset_scan)) [
    | inl d ↦ rw (d, process_expired_pending) (keeps env w w refl refl)
    | inr d ↦
        rw (d, process_expired_pending) (process_entries-KeepsAnswers (expired now w.deadlines) w)
  ]
