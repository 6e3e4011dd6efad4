-- ===== src/Artifacts/Moves/Upload.antt =====
-- The moves of `_poll` and `_upload`.
use conversation_service.Prelude.{
  ℕ, ◌≡◌, refl, ◌⊎◌, inl, inr, not, ◌||◌, Option, none, some, List, [], ◌∷◌, Option-cases, is_some,
  length, ltb,
}
use conversation_service.Strings.{codes}
use conversation_service.Errors.{
  Error, Result, ok, raised, os_error, render_rejected, file_not_found,
}
use conversation_service.Errors.Ensures.{Ensures-test, Ensures-except}
use conversation_service.Artifacts.{
  Artifact, pending, queued, rendering, uploading, Bytes, video_object_key, thumbnail_object_key,
  Registry, Host, Answer, RenderJob, artifact_max_video_bytes,
}
use conversation_service.Artifacts.Backend
use conversation_service.Artifacts.Backend.{max_thumbnail_bytes}
use conversation_service.Artifacts.Media.{MediaInfo, validate_mp4}
use conversation_service.Artifacts.Lifecycle.{
  follow, poll, store_thumbnail, store_video, downloaded_video, fetch_video, upload, starts,
  png_magic, unconfirmed, store_png,
}
use conversation_service.Artifacts.Moves.{Respects}
use conversation_service.Artifacts.Moves.Steps.{
  Kept, Kept-continue, return-Kept, made_ready-Kept, fail_artifact-Kept,
}
use conversation_service.Artifacts.Moves.Store.{
  fail-Kept, read_object-Kept, put_file-Kept, adopt_existing_object-Kept,
}
use conversation_service.Artifacts.Moves.Statuses.{running_begun, uploading_begun, storing_active}
use conversation_service.Artifacts.Moves.Render.{again-Kept, follow_state-Kept}

module _ (host : Host) (M : Artifact → Artifact → Type 0)
    (T : List Artifact → List Artifact → Type 0) (r : Respects host M T) where
  follow-Kept :
      (row : Artifact) (now : ℕ) (job : Option RenderJob) (s : Registry)
      → Kept host M T r s (follow host row now job s)
  unfolding follow
  follow-Kept row now none s = again-Kept host M T r (queued ∷ rendering ∷ []) row s running_begun
  follow-Kept row now (some job) s = follow_state-Kept host M T r job.state row now job s refl

  request-Kept :
      {A : Type 0} (read : Answer → Result A) (s : Registry)
      → Kept host M T r s (Backend.request host read s)
  unfolding Backend.request
  request-Kept read s = elim (read-cases (read (host.http s.tick))) [
    | inl (a, e) ↦ rw (e, Backend.request) (record { after = r.same s.artifacts })
    | inr (f, e) ↦ rw (e, Backend.request) (record { after = r.same s.artifacts })
  ]
    where
      read-cases :
          {A : Type 0} (o : Result A) → ((a : A) × (o ≡ ok a)) ⊎ ((f : Error) × (o ≡ raised f))
      read-cases (ok a) = inl (a, refl)
      read-cases (raised f) = inr (f, refl)

  pub poll-Kept : (row : Artifact) (s : Registry) → Kept host M T r s (poll host row s)
  unfolding poll
  poll-Kept row s =
      Kept-continue host M T r s (request-Kept Backend.reported s)
        (λ job v. follow-Kept row (host.now s.tick) job v)

  store_png-Kept :
      (row : Artifact) (content : Option Bytes) (s : Registry)
      → Kept host M T r s (store_png host row content s)
  unfolding store_png
  store_png-Kept row none s = return-Kept host M T r none s
  store_png-Kept row (some content) s =
      Ensures-test (not (starts png_magic content) || ltb max_thumbnail_bytes (length content)) _ _
        s (λ y. return-Kept host M T r none s)
        (λ n.
          Kept-continue host M T r s
            (put_file-Kept host M T r (thumbnail_object_key row.artifact_id) content s)
            (λ u v. return-Kept host M T r (some (thumbnail_object_key row.artifact_id)) v))

  store_thumbnail-Kept :
      (row : Artifact) (s : Registry) → Kept host M T r s (store_thumbnail host row s)
  unfolding store_thumbnail
  store_thumbnail-Kept row s =
      Ensures-except
        (Kept-continue host M T r s (request-Kept (λ a. ok (Backend.thumbnail_of a)) s)
          (λ content v. store_png-Kept row content v))
        (λ a v h. h) (λ e v h. record { after = h })

  store_video-Kept :
      (row : Artifact) (content : Bytes) (info : MediaInfo) (s : Registry)
      → validate_mp4 host.sha256 content artifact_max_video_bytes ≡ some info
      → Kept host M T r s (store_video host row content info s)
  unfolding store_video
  store_video-Kept row content info s valid =
      Kept-continue host M T r s
        (put_file-Kept host M T r (video_object_key row.artifact_id) content s)
        (λ u v.
          Kept-continue host M T r v
            (read_object-Kept host M T r (video_object_key row.artifact_id) v)
            (λ stored w.
              Ensures-test (unconfirmed host info stored) _ _ w
                (λ y. fail-Kept host M T r os_error w)
                (λ n. Kept-continue host M T r w (store_thumbnail-Kept row w) (λ thumb x.
                  made_ready-Kept host M T r row.artifact_id
                    (uploading ∷ pending ∷ queued ∷ rendering ∷ []) thumb content info x
                    storing_active valid))))

  downloaded_video-Kept :
      (row : Artifact) (content : Result Bytes) (s : Registry)
      → Kept host M T r s (downloaded_video host row content s)
  unfolding downloaded_video
  downloaded_video-Kept row (raised file_not_found) s =
      again-Kept host M T r (uploading ∷ []) row s uploading_begun
  downloaded_video-Kept row (raised (render_rejected code)) s =
      fail_artifact-Kept host M T r row.artifact_id code s
  downloaded_video-Kept row (raised e) s = fail-Kept host M T r e s
  downloaded_video-Kept row (ok content) s =
      elim (Option-cases (validate_mp4 host.sha256 content artifact_max_video_bytes)) [
        | inl e ↦
            rw (e, downloaded_video)
              (fail_artifact-Kept host M T r row.artifact_id (codes "invalid_output") s)
        | inr (info, e) ↦ rw (e, downloaded_video) (store_video-Kept row content info s e)
      ]

  pub upload-Kept : (row : Artifact) (s : Registry) → Kept host M T r s (upload host row s)
  unfolding upload fetch_video Backend.request
  upload-Kept row s =
      Kept-continue host M T r s (adopt_existing_object-Kept host M T r row s) (λ adopted v.
        Ensures-test (is_some adopted) _ _ v (λ y. return-Kept host M T r adopted v)
          (λ n. downloaded_video-Kept row (Backend.downloaded (host.http v.tick)) _))
