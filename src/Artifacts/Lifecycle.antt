-- ===== src/Artifacts/Lifecycle.antt =====
-- The render lifecycle of app/artifacts/service.py: `_step` with `_dispatch`, `_poll`, `_upload`.
use conversation_service.Prelude.{
  ℕ, ◌+◌, Bool, true, not, ◌||◌, Option, none, some, List, [], ◌∷◌, ltb, leb, ◌==◌, if◌then◌else◌,
  is_some, length, take,
}
use conversation_service.Model.{Text}
use conversation_service.Strings.{codes}
use conversation_service.Text.{text_eq}
use conversation_service.Errors.{
  Result, ok, raised, Method, ◌>>=◌, ◌>>◌, return, fail, except, os_error, file_not_found,
  render_rejected,
}
use conversation_service.Artifacts.{
  Artifact, ArtifactStatus, pending, queued, rendering, uploading, same_status, Bytes, ObjectKey,
  video_object_key, thumbnail_object_key, Registry, Host, JobState, RenderJob, seconds,
  artifact_max_auto_attempts, artifact_max_active_seconds, artifact_max_video_bytes,
}
use conversation_service.Artifacts.Backend
use conversation_service.Artifacts.Backend.{max_thumbnail_bytes}
use conversation_service.Artifacts.Media.{MediaInfo, validate_mp4}
use conversation_service.Artifacts.Adoption.{
  made_ready, read_object, put_file, adopt_existing_object,
}
use conversation_service.Artifacts.Table.{cas, fail_artifact}

abbrev pub starts : List ℕ → Bytes → Bool
starts magic content = text_eq magic (take (length magic) content)

abbrev pub png_magic : List ℕ
png_magic = 137 ∷ 80 ∷ 78 ∷ 71 ∷ 13 ∷ 10 ∷ 26 ∷ 10 ∷ []

abbrev pub job_text : JobState → Text
job_text JobState.failed = codes "failed"
job_text JobState.cancelled = codes "cancelled"
job_text JobState.expired = codes "expired"
job_text JobState.ready = codes "ready"
job_text JobState.pending = codes "pending"
job_text JobState.validating = codes "validating"
job_text JobState.rendering = codes "rendering"
job_text JobState.repairing = codes "repairing"

-- The status of a job that waits or runs.
abbrev pub wanted : JobState → ArtifactStatus
wanted JobState.pending = queued
wanted _ = rendering

-- `job.failure or job.state`
abbrev pub failure_text : RenderJob → Text
failure_text job = elim job.failure [
  | none ↦ job_text job.state
  | some [] ↦ job_text job.state
  | some (c ∷ cs) ↦ c ∷ cs
]

module _ (host : Host) where
  abbrev pub exhausted : Artifact → Bool
  exhausted row = leb artifact_max_auto_attempts row.attempt_count

  -- Back to `pending` for another render, unless there were enough.
  unfoldable pub render_again : List ArtifactStatus → Artifact → Method Registry (Option Artifact)
  unfolding cas fail_artifact
  render_again allowed_from row =
      if exhausted row
      then fail_artifact host row.artifact_id (codes "render_job_lost")
      else cas host row.artifact_id allowed_from
          (λ a. record a { status = pending; render_job_id = none })

  unfoldable pub submitted_job : Artifact → Result RenderJob → Method Registry (Option Artifact)
  unfolding cas fail_artifact
  submitted_job row (raised (render_rejected code)) = fail_artifact host row.artifact_id code
  submitted_job row (raised e) = fail e
  submitted_job row (ok job) = cas host row.artifact_id (pending ∷ []) (λ a. record a {
    status = queued;
    render_job_id = some job.job_id;
    attempt_count = row.attempt_count + 1;
    failure_code = none;
  })

  unfoldable pub submit_render : Artifact → Method Registry (Option Artifact)
  unfolding submitted_job
  submit_render row s = let (job, s') = Backend.submit host s in submitted_job row job s'

  unfoldable pub dispatch : Artifact → Method Registry (Option Artifact)
  unfolding adopt_existing_object submit_render
  dispatch row = do
    adopted ← adopt_existing_object host row
    if is_some adopted
        then return adopted
        else if exhausted row
        then fail_artifact host row.artifact_id (codes "attempts_exhausted")
        else submit_render row

  unfoldable pub follow_running : Artifact → ℕ → RenderJob → Method Registry (Option Artifact)
  unfolding cas fail_artifact
  follow_running row now job =
      if ltb (row.updated_at + seconds artifact_max_active_seconds) now
      then fail_artifact host row.artifact_id (codes "timed_out")
      else if same_status row.status (wanted job.state)
      then return (some row)
      else cas host row.artifact_id (queued ∷ rendering ∷ [])
          (λ a. record a { status = wanted job.state })

  unfoldable pub follow : Artifact → ℕ → Option RenderJob → Method Registry (Option Artifact)
  unfolding follow_running render_again
  follow row now none = render_again (queued ∷ rendering ∷ []) row
  follow row now (some job) = elim job.state [
    | JobState.ready ↦
        cas host row.artifact_id (queued ∷ rendering ∷ []) (λ a. record a { status = uploading })
    | JobState.failed ↦ fail_artifact host row.artifact_id (failure_text job)
    | JobState.cancelled ↦ fail_artifact host row.artifact_id (failure_text job)
    | JobState.expired ↦ fail_artifact host row.artifact_id (failure_text job)
    | _ ↦ follow_running row now job
  ]

  unfoldable pub poll : Artifact → Method Registry (Option Artifact)
  unfolding follow
  poll row s = (Backend.status host >>= follow row (host.now s.tick)) s

  unfoldable pub store_png : Artifact → Option Bytes → Method Registry (Option ObjectKey)
  unfolding put_file
  store_png row none = return none
  store_png row (some content) =
      if not (starts png_magic content) || ltb max_thumbnail_bytes (length content)
      then return none
      else put_file host (thumbnail_object_key row.artifact_id) content
        >> return (some (thumbnail_object_key row.artifact_id))

  -- Best effort: an exception means that there is no thumbnail.
  unfoldable pub store_thumbnail : Artifact → Method Registry (Option ObjectKey)
  unfolding store_png
  store_thumbnail row s =
      except ((Backend.download_thumbnail host >>= store_png row) s) (λ e. return none)

  abbrev pub unconfirmed : MediaInfo → Option Bytes → Bool
  unconfirmed info none = true
  unconfirmed info (some content) = not (length content == info.size)

  unfoldable pub store_video : Artifact → Bytes → MediaInfo → Method Registry (Option Artifact)
  unfolding put_file read_object store_thumbnail cas
  store_video row content info = do
    put_file host (video_object_key row.artifact_id) content
    stored ← read_object host (video_object_key row.artifact_id)
    if unconfirmed info stored then fail os_error else (do
      thumb ← store_thumbnail row
      cas host row.artifact_id (uploading ∷ pending ∷ queued ∷ rendering ∷ [])
          (made_ready (video_object_key row.artifact_id) thumb info))

  unfoldable pub downloaded_video : Artifact → Result Bytes → Method Registry (Option Artifact)
  unfolding render_again store_video
  downloaded_video row (raised file_not_found) = render_again (uploading ∷ []) row
  downloaded_video row (raised (render_rejected code)) = fail_artifact host row.artifact_id code
  downloaded_video row (raised e) = fail e
  downloaded_video row (ok content) =
      elim (validate_mp4 host.sha256 content artifact_max_video_bytes) [
        | none ↦ fail_artifact host row.artifact_id (codes "invalid_output")
        | some info ↦ store_video row content info
      ]

  unfoldable pub fetch_video : Artifact → Method Registry (Option Artifact)
  unfolding downloaded_video
  fetch_video row s = let (content, s') = Backend.download host s in downloaded_video row content s'

  unfoldable pub upload : Artifact → Method Registry (Option Artifact)
  unfolding adopt_existing_object fetch_video
  upload row = do
    adopted ← adopt_existing_object host row
    if is_some adopted then return adopted else fetch_video row

  unfoldable pub step : Artifact → Method Registry (Option Artifact)
  unfolding dispatch poll upload
  step row = elim row.status [
    | pending ↦ dispatch row
    | queued ↦ poll row
    | rendering ↦ poll row
    | uploading ↦ upload row
    | _ ↦ return none
  ]
