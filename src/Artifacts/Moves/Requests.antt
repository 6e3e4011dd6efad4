-- ===== src/Artifacts/Moves/Requests.antt =====
-- The moves of `retry` and `mark_object_missing`.
use conversation_service.Prelude.{
  and_right, ◌+◌, ◌≡◌, refl, inl, inr, true, false, not, ◌&&◌, ◌||◌, none, some, List, [], ◌∷◌,
  arith, leb,
}
use conversation_service.Model.{Uuid, Time}
use conversation_service.Errors.{return, fail, ◌>>=◌, artifact_not_found, retry_limit_reached}
use conversation_service.Errors.Ensures.{Ensures-test, Ensures-option}
use conversation_service.Artifacts.{
  Artifact, ArtifactStatus, pending, ready, failed, terminal, one_of, same_status, is_manim,
  Registry, Host, artifact_max_manual_retries,
}
use conversation_service.Artifacts.Table.{get, cas, has_id}
use conversation_service.Artifacts.Registration.{retry_failed, retry, mark_object_missing}
use conversation_service.Artifacts.Moves.{Move, restart, Restarted, Respects}
use conversation_service.Artifacts.Moves.Steps.{
  Kept, call-Kept, Kept-continue, return-Kept, transaction-Kept,
}
use conversation_service.Artifacts.Moves.Store.{fail-Kept}

failed_final : (s : ArtifactStatus) → one_of (failed ∷ []) s ≡ true → one_of terminal s ≡ true
failed_final failed h = refl
failed_final pending h = cc
failed_final ArtifactStatus.queued h = cc
failed_final ArtifactStatus.rendering h = cc
failed_final ArtifactStatus.uploading h = cc
failed_final ready h = cc

ready_final : (s : ArtifactStatus) → one_of (ready ∷ []) s ≡ true → one_of terminal s ≡ true
ready_final ready h = refl
ready_final pending h = cc
ready_final ArtifactStatus.queued h = cc
ready_final ArtifactStatus.rendering h = cc
ready_final ArtifactStatus.uploading h = cc
ready_final failed h = cc

module _ (host : Host) (T : List Artifact → List Artifact → Type 0)
    (r : Respects host (Move host) T) where
  restart-Kept :
      (i : Uuid) (allowed : List ArtifactStatus) (values : Artifact → Artifact) (s : Registry)
      → ((now : Time) (x : Artifact)
          → one_of allowed x.status ≡ true
          → Restarted x (record (values x) { updated_at = now }))
      → Kept host (Move host) T r s (cas host i allowed values s)
  unfolding cas
  restart-Kept i allowed values s moves =
      transaction-Kept host (Move host) T r (λ now a. has_id i a && one_of allowed a.status)
        (λ now a. record (values a) { updated_at = now }) s
        (λ now x h. restart (moves now x (and_right (has_id i x) (one_of allowed x.status) h)))

  get-Kept : (owner i : Uuid) (s : Registry) → Kept host (Move host) T r s (get host owner i s)
  unfolding get
  get-Kept owner i s =
      Kept-continue host (Move host) T r s (call-Kept host (Move host) T r s)
        (λ n v. return-Kept host (Move host) T r _ v)

  retry_failed-Kept :
      (owner i : Uuid) (row : Artifact) (s : Registry)
      → Kept host (Move host) T r s (retry_failed host owner i row s)
  unfolding retry_failed
  retry_failed-Kept owner i row s =
      Ensures-test (not (same_status row.status failed) || not (is_manim row.artifact_type)) _ _ s
        (λ y. return-Kept host (Move host) T r (some row, false) s)
        (λ n.
          Ensures-test (leb artifact_max_manual_retries row.retry_count) _ _ s
            (λ y. fail-Kept host (Move host) T r retry_limit_reached s)
            (λ few.
              Kept-continue host (Move host) T r s
                (restart-Kept i (failed ∷ [])
                  (λ a. record a {
                    status = pending;
                    failure_code = none;
                    attempt_count = 0;
                    retry_count = row.retry_count + 1;
                    render_job_id = none;
                    lease_until = none;
                  })
                  s
                  (λ now x h. record {
                    identity = refl;
                    from = failed_final x.status h;
                    to = refl;
                    attempts = refl;
                    retries = inr (ground arith);
                  }))
                (λ updated v.
                  Ensures-option updated (get host owner i >>= λ found. return (found, false))
                    (λ moved. return (some moved, true)) v
                    (λ e.
                      Kept-continue host (Move host) T r v (get-Kept owner i v)
                        (λ found w. return-Kept host (Move host) T r (found, false) w))
                    (λ moved e. return-Kept host (Move host) T r (some moved, true) v))))

  pub retry-Kept :
      (owner i : Uuid) (s : Registry) → Kept host (Move host) T r s (retry host owner i s)
  unfolding retry
  retry-Kept owner i s = Kept-continue host (Move host) T r s (get-Kept owner i s) (λ found v.
      Ensures-option found (fail artifact_not_found) (λ row. retry_failed host owner i row) v
        (λ e. fail-Kept host (Move host) T r artifact_not_found v)
        (λ row e. retry_failed-Kept owner i row v))

  pub mark_object_missing-Kept :
      (i : Uuid) (s : Registry) → Kept host (Move host) T r s (mark_object_missing host i s)
  unfolding mark_object_missing
  mark_object_missing-Kept i s =
      Kept-continue host (Move host) T r s
        (restart-Kept i (ready ∷ [])
          (λ a. record a {
            status = pending;
            object_key = none;
            checksum_sha256 = none;
            size_bytes = none;
            mime_type = none;
            render_job_id = none;
            attempt_count = 0;
            failure_code = none;
            lease_until = none;
          })
          s
          (λ now x h. record {
            identity = refl;
            from = ready_final x.status h;
            to = refl;
            attempts = refl;
            retries = inl refl;
          }))
        (λ a v. return-Kept host (Move host) T r tt v)
