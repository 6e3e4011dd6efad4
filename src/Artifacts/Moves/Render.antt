-- ===== src/Artifacts/Moves/Render.antt =====
-- The moves of `_dispatch` and `_poll`.
use conversation_service.Prelude.{
  ℕ, ◌+◌, ◌≤◌, ◌≡◌, refl, inl, inr, true, none, some, List, [], ◌∷◌, is_some, ltb, arith,
}
use conversation_service.Strings.{codes}
use conversation_service.Errors.{Result, ok, raised, render_rejected}
use conversation_service.Errors.Ensures.{Ensures-test}
use conversation_service.Artifacts.{
  Artifact, ArtifactStatus, pending, queued, rendering, uploading, one_of, same_status, Registry,
  Host, JobState, RenderJob, artifact_max_auto_attempts, seconds, artifact_max_active_seconds,
}
use conversation_service.Artifacts.Backend
use conversation_service.Artifacts.Lifecycle.{
  render_again, submitted_job, submit_render, dispatch, follow_running, follow, failure_text,
  exhausted, wanted,
}
use conversation_service.Artifacts.Moves.{Edge, Respects}
use conversation_service.Artifacts.Moves.Steps.{
  Kept, Kept-continue, return-Kept, cas-Kept, fail_artifact-Kept, moved,
}
use conversation_service.Artifacts.Moves.Store.{fail-Kept, adopt_existing_object-Kept}
use conversation_service.Artifacts.Moves.Statuses.{
  begun, begun-active, running_begun, submits, follows, unready,
}

module _ (host : Host) (M : Artifact → Artifact → Type 0)
    (T : List Artifact → List Artifact → Type 0) (r : Respects host M T) where
  pub again-Kept :
      (allowed : List ArtifactStatus) (row : Artifact) (s : Registry)
      → ((t : ArtifactStatus) → one_of allowed t ≡ true → one_of begun t ≡ true)
      → Kept host M T r s (render_again host allowed row s)
  unfolding render_again
  again-Kept allowed row s sub =
      Ensures-test (exhausted host row) _ _ s
        (λ y. fail_artifact-Kept host M T r row.artifact_id (codes "render_job_lost") s)
        (λ n.
          cas-Kept host M T r row.artifact_id allowed
            (λ a. record a { status = pending; render_job_id = none }) s
            (λ now x own h.
              let was = sub x.status h in
              moved host M T r x _ refl (begun-active x.status was) (inr (Edge.lost was))
                (λ k e. absurd (unready refl e)) (inl refl) refl))

  submitted_job-Kept :
      (row : Artifact) (job : Result RenderJob) (s : Registry)
      → row.attempt_count + 1 ≤ artifact_max_auto_attempts
      → Kept host M T r s (submitted_job host row job s)
  unfolding submitted_job
  submitted_job-Kept row (raised (render_rejected code)) s le =
      fail_artifact-Kept host M T r row.artifact_id code s
  submitted_job-Kept row (raised e) s le = fail-Kept host M T r e s
  submitted_job-Kept row (ok job) s le =
      cas-Kept host M T r row.artifact_id (pending ∷ [])
        (λ a. record a {
          status = queued;
          render_job_id = some job.job_id;
          attempt_count = row.attempt_count + 1;
          failure_code = none;
        })
        s
        (λ now x own h.
          let was = submits x.status h in
          moved host M T r x _ refl was.0 (inr was.1) (λ k e. absurd (unready refl e)) (inr le)
            refl)

  pub dispatch-Kept : (row : Artifact) (s : Registry) → Kept host M T r s (dispatch host row s)
  unfolding dispatch submit_render Backend.request
  dispatch-Kept row s =
      Kept-continue host M T r s (adopt_existing_object-Kept host M T r row s) (λ adopted v.
        Ensures-test (is_some adopted) _ _ v (λ y. return-Kept host M T r adopted v)
          (λ n.
            Ensures-test (exhausted host row) _ _ v
              (λ y. fail_artifact-Kept host M T r row.artifact_id (codes "attempts_exhausted") v)
              (λ few.
                submitted_job-Kept row (Backend.submitted (host.http v.tick)) _ (ground arith))))

  follow_running-Kept :
      (row : Artifact) (now : ℕ) (job : RenderJob) (s : Registry)
      → Kept host M T r s (follow_running host row now job s)
  unfolding follow_running
  follow_running-Kept row now job s =
      Ensures-test (ltb (row.updated_at + seconds artifact_max_active_seconds) now) _ _ s
        (λ y. fail_artifact-Kept host M T r row.artifact_id (codes "timed_out") s)
        (λ n.
          Ensures-test (same_status row.status (wanted job.state)) _ _ s
            (λ y. return-Kept host M T r (some row) s)
            (λ m.
              cas-Kept host M T r row.artifact_id (queued ∷ rendering ∷ [])
                (λ a. record a { status = wanted job.state }) s
                (λ n x own h.
                  let (edge, open_yet) = follows job.state x.status h in
                  moved host M T r x _ refl (begun-active x.status (running_begun x.status h)) edge
                    (λ k e. absurd (unready open_yet e)) (inl refl) refl)))

  pub follow_state-Kept :
      (state : JobState) (row : Artifact) (now : ℕ) (job : RenderJob) (s : Registry)
      → job.state ≡ state
      → Kept host M T r s (follow host row now (some job) s)
  unfolding follow
  follow_state-Kept JobState.ready row now job s e = rw e (
      cas-Kept host M T r row.artifact_id (queued ∷ rendering ∷ [])
        (λ a. record a { status = uploading }) s
        (λ n x own h.
          moved host M T r x _ refl (begun-active x.status (running_begun x.status h))
            (inr (Edge.rendered h)) (λ k e. absurd (unready refl e)) (inl refl) refl))
  follow_state-Kept JobState.failed row now job s e =
      rw e (fail_artifact-Kept host M T r row.artifact_id (failure_text job) s)
  follow_state-Kept JobState.cancelled row now job s e =
      rw e (fail_artifact-Kept host M T r row.artifact_id (failure_text job) s)
  follow_state-Kept JobState.expired row now job s e =
      rw e (fail_artifact-Kept host M T r row.artifact_id (failure_text job) s)
  follow_state-Kept state row now job s e = rw e (follow_running-Kept row now job s)
