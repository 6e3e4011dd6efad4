-- ===== src/Artifacts/Moves.antt =====
-- How the row of an artifact may change: the moves of a worker, a retry, and a lost video; and what a
-- transaction does to the table when it makes such moves.
pub mod Steps
pub mod Store
pub mod Statuses
pub mod Render
pub mod Upload
pub mod Pass
pub mod Requests
use conversation_service.Prelude.{
  ℕ, ◌+◌, ◌≤◌, ◌≡◌, refl, ◌⊎◌, inl, inr, Bool, true, false, ◌&&◌, Option, none, some, List, [], ◌∷◌,
  Bool-cases, ◌==◌, length, is_some,
}
use conversation_service.Model.{Uuid, Text}
use conversation_service.Artifacts.{
  Artifact, ArtifactStatus, ArtifactType, pending, queued, rendering, uploading, ready, failed,
  manim, terminal, one_of, Bytes, ObjectKey, video_object_key, Registry, Host,
  artifact_max_video_bytes, artifact_max_auto_attempts, artifact_max_manual_retries,
}
use conversation_service.Artifacts.Media.{MediaInfo, validate_mp4}
use conversation_service.Artifacts.Table.{update_where, set_where}

-- The columns that name the artifact.
abbrev pub identity_of : Artifact → Uuid × Uuid × ArtifactType × Text × Text
identity_of a = (a.artifact_id, a.owner_user_id, a.artifact_type, a.fingerprint, a.spec_text)

-- The row tells the key, the size and the checksum of bytes that passed the validation.
pub record Verified (host : Host) (a : Artifact) : Type 0 where
  pub content : Bytes
  pub info : MediaInfo
  pub valid : validate_mp4 host.sha256 content artifact_max_video_bytes ≡ some info
  pub object_key : a.object_key ≡ some (video_object_key a.artifact_id)
  pub size_bytes : a.size_bytes ≡ some info.size
  pub checksum_sha256 : a.checksum_sha256 ≡ some info.sha256

-- The changes of status that a worker makes.
pub data Edge : ArtifactStatus → ArtifactStatus → Type 0 where
  submitted : Edge pending queued
  started : Edge queued rendering
  waiting : Edge rendering queued
  rendered : {s : ArtifactStatus} → one_of (queued ∷ rendering ∷ []) s ≡ true → Edge s uploading
  lost :
      {s : ArtifactStatus} → one_of (queued ∷ rendering ∷ uploading ∷ []) s ≡ true → Edge s pending
  completed : {s : ArtifactStatus} → one_of terminal s ≡ false → Edge s ready
  given_up : {s : ArtifactStatus} → one_of terminal s ≡ false → Edge s failed

-- What the readers of a finished artifact see.
abbrev pub outcome_of :
    Artifact
    → ArtifactStatus
      × Option ObjectKey
      × Option ObjectKey
      × Option Text
      × Option ℕ
      × Option Text
      × Option Text
outcome_of a = (
  a.status, a.object_key, a.thumbnail_key, a.mime_type, a.size_bytes, a.checksum_sha256,
  a.failure_code,
)

pub record WorkerMove (host : Host) (x y : Artifact) : Type 0 where
  pub identity : identity_of y ≡ identity_of x
  pub edge : (y.status ≡ x.status) ⊎ Edge x.status y.status
  pub final : one_of terminal x.status ≡ true → outcome_of y ≡ outcome_of x
  pub verified : one_of terminal x.status ≡ false → y.status ≡ ready → Verified host y
  pub attempts :
      (y.attempt_count ≡ x.attempt_count) ⊎ (y.attempt_count ≤ artifact_max_auto_attempts)
  pub retries : y.retry_count ≡ x.retry_count

-- A retry of a failed animation, or the end of a stored video.
pub record Restarted (x y : Artifact) : Type 0 where
  pub identity : identity_of y ≡ identity_of x
  pub from : one_of terminal x.status ≡ true
  pub to : y.status ≡ pending
  pub attempts : y.attempt_count ≡ 0
  pub retries : (y.retry_count ≡ x.retry_count) ⊎ (y.retry_count ≤ artifact_max_manual_retries)

pub data Move (host : Host) : Artifact → Artifact → Type 0 where
  worker : {x y : Artifact} → WorkerMove host x y → Move host x y
  restart : {x y : Artifact} → Restarted x y → Move host x y

-- A relation of the tables at two times that the moves `M` of single rows respect, and whatever
-- others commit in between.
pub record Respects (host : Host) (M : Artifact → Artifact → Type 0)
    (T : List Artifact → List Artifact → Type 0) : Type 0 where
  pub same : (xs : List Artifact) → T xs xs
  pub then : (xs ys zs : List Artifact) → T xs ys → T ys zs → T xs zs
  pub worker_move : (x y : Artifact) → WorkerMove host x y → M x y
  pub write :
      (cond : Artifact → Bool) (values : Artifact → Artifact) (xs : List Artifact)
      → ((x : Artifact) → cond x ≡ true → M x (values x))
      → T xs (update_where cond values xs)
  pub rely : (n : ℕ) (s : Registry) → T s.artifacts (host.others n s).artifacts

-- Repeated moves of one row.
pub data Moves (M : Artifact → Artifact → Type 0) : Artifact → Artifact → Type 0 where
  stay : {x : Artifact} → Moves M x x
  move : {x y z : Artifact} → M x y → Moves M y z → Moves M x z

pub Moves-trans :
    {M : Artifact → Artifact → Type 0} {x y z : Artifact} → Moves M x y → Moves M y z → Moves M x z
Moves-trans stay q = q
Moves-trans (move m p) q = move m (Moves-trans p q)
