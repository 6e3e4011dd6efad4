-- ===== src/Artifacts/Backend.antt =====
-- `LlmRenderBackend` of app/artifacts/render_backend.py over the answers of llm-service. A request
-- takes one call number. The cached renderer version is a parameter of the registration.
use conversation_service.Prelude.{
  ℕ, suc, ◌*◌, ◌||◌, Option, none, some, get_or, ltb, leb, ◌==◌, if◌then◌else◌, length, take,
}
use conversation_service.Strings.{codes}
use conversation_service.Errors.{
  Result, Method, ok, raised, file_not_found, render_unavailable, render_rejected,
}
use conversation_service.Artifacts.{
  Host, Registry, Bytes, Answer, http_error, response, RenderJob, artifact_max_video_bytes,
}

abbrev pub max_thumbnail_bytes : ℕ
max_thumbnail_bytes = 2 * 1024 * 1024

abbrev pub submitted : Answer → Result RenderJob
submitted http_error = raised render_unavailable
submitted (response r) =
    if (r.status_code == 200) || (r.status_code == 202)
    then ok r.job
    else if (r.status_code == 429) || leb 500 r.status_code
    then raised render_unavailable
    else raised (render_rejected (take 48 (get_or r.detail (codes "rejected"))))

abbrev pub reported : Answer → Result (Option RenderJob)
reported http_error = raised render_unavailable
reported (response r) =
    if r.status_code == 404
    then ok none
    else if leb 400 r.status_code
    then raised render_unavailable
    else ok (some r.job)

abbrev pub downloaded : Answer → Result Bytes
downloaded http_error = raised render_unavailable
downloaded (response r) =
    if r.status_code == 404
    then raised file_not_found
    else if leb 400 r.status_code
    then raised render_unavailable
    else if ltb artifact_max_video_bytes (length r.content)
    then raised (render_rejected (codes "resource_limit"))
    else ok r.content

-- `none`: there is no thumbnail.
abbrev pub thumbnail_of : Answer → Option Bytes
thumbnail_of http_error = none
thumbnail_of (response r) =
    if r.status_code == 200
    then if ltb max_thumbnail_bytes (length r.content) then none else some r.content
    else none

module _ (host : Host) where
  unfoldable pub request : {A : Type 0} → (Answer → Result A) → Method Registry A
  request read s = (read (host.http s.tick), record s { tick = suc s.tick })

  abbrev pub submit : Method Registry RenderJob
  submit = request submitted

  abbrev pub status : Method Registry (Option RenderJob)
  status = request reported

  abbrev pub download : Method Registry Bytes
  download = request downloaded

  abbrev pub download_thumbnail : Method Registry (Option Bytes)
  download_thumbnail = request (λ a. ok (thumbnail_of a))
