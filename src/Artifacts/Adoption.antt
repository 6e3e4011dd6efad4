-- ===== src/Artifacts/Adoption.antt =====
-- The object store, and `_adopt_existing_object` of app/artifacts/service.py. `stat` gives the size
-- of the bytes, `get_to_file` the bytes.
use conversation_service.Prelude.{
  not, Option, none, some, List, [], ◌∷◌, if◌then◌else◌, is_some, keep,
}
use conversation_service.Model.{Text}
use conversation_service.Strings.{codes}
use conversation_service.Errors.{Method, ◌>>=◌, ◌>>◌, return, fail, file_not_found}
use conversation_service.Artifacts.{
  Artifact, ready, active, Bytes, ObjectKey, same_key, video_object_key, thumbnail_object_key,
  Object, Registry, Host, call, artifact_max_video_bytes,
}
use conversation_service.Artifacts.Media.{MediaInfo, validate_mp4}
use conversation_service.Artifacts.Table.{cas}

abbrev pub mp4 : Text
mp4 = codes "video/mp4"

abbrev pub find_object : ObjectKey → List Object → Option Bytes
find_object key [] = none
find_object key (o ∷ os) = if same_key o.key key then some o.content else find_object key os

abbrev pub without : ObjectKey → List Object → List Object
without key objects = keep (λ o. not (same_key o.key key)) objects

-- The columns that a verified video sets.
abbrev pub made_ready : ObjectKey → Option ObjectKey → MediaInfo → Artifact → Artifact
made_ready key thumb info a = record a {
  status = ready;
  object_key = some key;
  thumbnail_key = thumb;
  mime_type = some mp4;
  size_bytes = some info.size;
  checksum_sha256 = some info.sha256;
  failure_code = none;
  lease_until = none;
}

module _ (host : Host) where
  unfoldable pub read_object : ObjectKey → Method Registry (Option Bytes)
  read_object key = do n ← call host; λ s. return (find_object key s.objects) s

  unfoldable pub get_to_file : ObjectKey → Method Registry Bytes
  unfolding read_object
  get_to_file key = do
    content ← read_object key
    elim content [ none ↦ fail file_not_found | some bytes ↦ return bytes ]

  unfoldable pub put_file : ObjectKey → Bytes → Method Registry (Unit {0})
  put_file key content = do
    n ← call host
    λ s. return tt (record s {
      objects =
          record { key = key; content = content; last_modified = host.now n }
          ∷ without key s.objects;
    })

  unfoldable pub delete_object : ObjectKey → Method Registry (Unit {0})
  delete_object key = do
    n ← call host
    λ s. return tt (record s { objects = without key s.objects })

  unfoldable pub adopt_valid : Artifact → MediaInfo → Method Registry (Option Artifact)
  unfolding read_object cas
  adopt_valid row info = do
    thumb ← read_object (thumbnail_object_key row.artifact_id)
    cas host row.artifact_id active (
        made_ready (video_object_key row.artifact_id)
          (if is_some thumb then some (thumbnail_object_key row.artifact_id) else none) info)

  unfoldable pub adopt_content : Artifact → Bytes → Method Registry (Option Artifact)
  unfolding adopt_valid delete_object
  adopt_content row content = elim (validate_mp4 host.sha256 content artifact_max_video_bytes) [
    | none ↦ delete_object (video_object_key row.artifact_id) >> return none
    | some info ↦ adopt_valid row info
  ]

  unfoldable pub adopt_existing_object : Artifact → Method Registry (Option Artifact)
  unfolding adopt_content get_to_file
  adopt_existing_object row = do
    found ← read_object (video_object_key row.artifact_id)
    if is_some found
        then get_to_file (video_object_key row.artifact_id) >>= adopt_content row
        else return none
