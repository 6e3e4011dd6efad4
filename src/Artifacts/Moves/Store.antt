-- ===== src/Artifacts/Moves/Store.antt =====
-- The calls of the object store, and the move of an adopted video.
use conversation_service.Prelude.{
  ◌≡◌, none, some, List, Option-cases, inl, inr, is_some, if◌then◌else◌,
}
use conversation_service.Errors.{Error, file_not_found, raised, return, fail}
use conversation_service.Errors.Ensures.{Ensures-test, Ensures-option}
use conversation_service.Artifacts.{
  Artifact, active, Bytes, ObjectKey, video_object_key, thumbnail_object_key, Registry, Host,
  artifact_max_video_bytes,
}
use conversation_service.Artifacts.Media.{MediaInfo, validate_mp4}
use conversation_service.Artifacts.Adoption.{
  find_object, read_object, get_to_file, put_file, delete_object, adopt_valid, adopt_content,
  adopt_existing_object,
}
use conversation_service.Artifacts.Moves.{Respects}
use conversation_service.Artifacts.Moves.Steps.{
  Kept, call-Kept, Kept-continue, return-Kept, made_ready-Kept,
}

module _ (host : Host) (M : Artifact → Artifact → Type 0)
    (T : List Artifact → List Artifact → Type 0) (r : Respects host M T) where
  pub fail-Kept : {A : Type 0} (e : Error) (s : Registry) → Kept host M T r {A = A} s (raised e, s)
  fail-Kept e s = record { after = r.same s.artifacts }

  pub read_object-Kept :
      (key : ObjectKey) (s : Registry) → Kept host M T r s (read_object host key s)
  unfolding read_object
  read_object-Kept key s =
      Kept-continue host M T r s (call-Kept host M T r s)
        (λ n v. return-Kept host M T r (find_object key v.objects) v)

  pub put_file-Kept :
      (key : ObjectKey) (content : Bytes) (s : Registry)
      → Kept host M T r s (put_file host key content s)
  unfolding put_file
  put_file-Kept key content s =
      Kept-continue host M T r s (call-Kept host M T r s)
        (λ n v. record { after = r.same v.artifacts })

  pub delete_object-Kept :
      (key : ObjectKey) (s : Registry) → Kept host M T r s (delete_object host key s)
  unfolding delete_object
  delete_object-Kept key s =
      Kept-continue host M T r s (call-Kept host M T r s)
        (λ n v. record { after = r.same v.artifacts })

  get_to_file-Kept : (key : ObjectKey) (s : Registry) → Kept host M T r s (get_to_file host key s)
  unfolding get_to_file
  get_to_file-Kept key s = Kept-continue host M T r s (read_object-Kept key s) (λ o v.
      Ensures-option o (fail file_not_found) (λ bytes. return bytes) v
        (λ e. fail-Kept file_not_found v) (λ bytes e. return-Kept host M T r bytes v))

  adopt_valid-Kept :
      (row : Artifact) (content : Bytes) (info : MediaInfo) (s : Registry)
      → validate_mp4 host.sha256 content artifact_max_video_bytes ≡ some info
      → Kept host M T r s (adopt_valid host row info s)
  unfolding adopt_valid
  adopt_valid-Kept row content info s valid =
      Kept-continue host M T r s (read_object-Kept (thumbnail_object_key row.artifact_id) s)
        (λ thumb v.
          made_ready-Kept host M T r row.artifact_id active
            (if is_some thumb then some (thumbnail_object_key row.artifact_id) else none) content
            info v (λ t h. h) valid)

  adopt_content-Kept :
      (row : Artifact) (content : Bytes) (s : Registry)
      → Kept host M T r s (adopt_content host row content s)
  unfolding adopt_content
  adopt_content-Kept row content s =
      elim (Option-cases (validate_mp4 host.sha256 content artifact_max_video_bytes)) [
        | inl e ↦
            rw (e, adopt_content)
              (Kept-continue host M T r s (delete_object-Kept (video_object_key row.artifact_id) s)
                (λ u v. return-Kept host M T r none v))
        | inr (info, e) ↦ rw (e, adopt_content) (adopt_valid-Kept row content info s e)
      ]

  pub adopt_existing_object-Kept :
      (row : Artifact) (s : Registry) → Kept host M T r s (adopt_existing_object host row s)
  unfolding adopt_existing_object
  adopt_existing_object-Kept row s =
      Kept-continue host M T r s (read_object-Kept (video_object_key row.artifact_id) s) (λ found v.
        Ensures-test (is_some found) _ _ v
          (λ y.
            Kept-continue host M T r v (get_to_file-Kept (video_object_key row.artifact_id) v)
              (λ content w. adopt_content-Kept row content w))
          (λ n. return-Kept host M T r none v))
