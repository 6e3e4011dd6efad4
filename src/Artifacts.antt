-- ===== src/Artifacts.antt =====
-- The artifact registry: app/artifacts/service.py over the tables of app/models/artifact_models.py
-- and the object store of app/artifacts/storage.py. Other workers and requests commit between the
-- calls of a method: `Host.others` tells what. The columns that no method reads, `description` and
-- the two origins, are left out.
pub mod Backend
pub mod Media
pub mod Table
pub mod Adoption
pub mod Lifecycle
pub mod Worker
pub mod Registration
pub mod Moves
pub mod Operations
pub mod Safety
pub mod Evolution
pub mod Refinement
pub mod Claims
use conversation_service.Prelude.{
  ℕ, ◌+◌, ◌*◌, suc, Bool, true, false, ◌&&◌, Option, none, some, List, [], ◌∷◌, ◌==◌, any,
  if◌then◌else◌,
}
use conversation_service.Model.{Uuid, Time, Text}
use conversation_service.Text.{text_eq}
use conversation_service.Errors.{Method, Result, raised, ok, storage}

pub data ArtifactStatus : Type 0 where
  pending queued rendering uploading ready failed : ArtifactStatus

pub data ArtifactType : Type 0 where
  mermaid manim : ArtifactType

abbrev pub is_manim : ArtifactType → Bool
is_manim manim = true
is_manim mermaid = false

abbrev rank : ArtifactStatus → ℕ
rank pending = 0
rank queued = 1
rank rendering = 2
rank uploading = 3
rank ready = 4
rank failed = 5

abbrev pub same_status : ArtifactStatus → ArtifactStatus → Bool
same_status s t = rank s == rank t

-- `status in (...)`
abbrev pub one_of : List ArtifactStatus → ArtifactStatus → Bool
one_of statuses s = any (same_status s) statuses

abbrev pub terminal : List ArtifactStatus
terminal = ready ∷ failed ∷ []

abbrev pub active : List ArtifactStatus
active = pending ∷ queued ∷ rendering ∷ uploading ∷ []

abbrev pub Bytes : Type 0
Bytes = List ℕ

-- `artifacts/<id>/<name>`, and any other key of the bucket.
pub data FileName : Type 0 where
  video_mp4 thumb_png : FileName
  named : Text → FileName

pub data ObjectKey : Type 0 where
  file : Uuid → FileName → ObjectKey
  unrelated : Text → ObjectKey

abbrev same_name : FileName → FileName → Bool
same_name video_mp4 video_mp4 = true
same_name thumb_png thumb_png = true
same_name (named a) (named b) = text_eq a b
same_name _ _ = false

abbrev pub same_key : ObjectKey → ObjectKey → Bool
same_key (file a n) (file b m) = (a == b) && same_name n m
same_key (unrelated a) (unrelated b) = text_eq a b
same_key _ _ = false

abbrev pub video_object_key : Uuid → ObjectKey
video_object_key artifact_id = file artifact_id video_mp4

abbrev pub thumbnail_object_key : Uuid → ObjectKey
thumbnail_object_key artifact_id = file artifact_id thumb_png

pub record Artifact : Type 0 where
  pub artifact_id : Uuid
  pub owner_user_id : Uuid
  pub artifact_type : ArtifactType
  pub title : Text
  pub fingerprint : Text
  pub spec_text : Text
  pub status : ArtifactStatus
  pub render_job_id : Option Text
  pub object_key : Option ObjectKey
  pub thumbnail_key : Option ObjectKey
  pub mime_type : Option Text
  pub size_bytes : Option ℕ
  pub checksum_sha256 : Option Text
  pub renderer_version : Text
  pub failure_code : Option Text
  pub attempt_count : ℕ
  pub retry_count : ℕ
  pub lease_until : Option Time
  pub created_at : Time
  pub updated_at : Time

pub record ArtifactRef : Type 0 where
  pub artifact_id : Uuid
  pub conversation_id : Uuid
  pub source_message_id : Uuid
  pub block_id : Text
  pub owner_user_id : Uuid

pub record Object : Type 0 where
  pub key : ObjectKey
  pub content : Bytes
  pub last_modified : Time

-- `tick` counts the calls that were made.
pub record Registry : Type 0 where
  pub artifacts : List Artifact
  pub refs : List ArtifactRef
  pub objects : List Object
  pub tick : ℕ

pub data JobState : Type 0 where
  pending validating rendering repairing ready failed cancelled expired : JobState

pub record RenderJob : Type 0 where
  pub job_id : Text
  pub state : JobState
  pub failure : Option Text

-- What httpx gives for a request: an `HTTPError`, or a response. `detail` is the `failure` of the
-- body's `detail`, and `content` the streamed bytes.
pub record Response : Type 0 where
  pub status_code : ℕ
  pub job : RenderJob
  pub detail : Option Text
  pub content : Bytes

pub data Answer : Type 0 where
  http_error : Answer
  response : Response → Answer

-- What the calls meet, by their number: the clock, whether the call raises and has no effect, what
-- others have committed before it, and the answer of llm-service. `sha256` is hashlib's.
pub record Host : Type 0 where
  pub now : ℕ → Time
  pub down : ℕ → Bool
  pub others : ℕ → Registry → Registry
  pub http : ℕ → Answer
  pub sha256 : Bytes → Text

abbrev pub seconds : ℕ → Time
seconds n = n * 1000000

abbrev pub artifact_lease_seconds : ℕ
artifact_lease_seconds = 60

abbrev pub artifact_max_auto_attempts : ℕ
artifact_max_auto_attempts = 3

abbrev pub artifact_max_manual_retries : ℕ
artifact_max_manual_retries = 5

abbrev pub artifact_max_active_seconds : ℕ
artifact_max_active_seconds = 900

abbrev pub artifact_max_video_bytes : ℕ
artifact_max_video_bytes = 50 * 1024 * 1024

abbrev pub backoff_seconds : ℕ
backoff_seconds = 10

-- One call of the database or of the store: the number of the call, and what it meets.
unfoldable pub call : Host → Method Registry ℕ
call host s =
    if host.down s.tick
    then (raised storage, record s { tick = suc s.tick })
    else (ok s.tick, record (host.others s.tick s) { tick = suc s.tick })
