-- ===== src/Artifacts/Registration.antt =====
-- The requests of app/artifacts/service.py: `register`, `retry`, `mark_object_missing` and `lookup`,
-- with the identifiers of app/artifacts/fingerprint.py. `sha256` and `uuid5` are the hashes of the
-- standard library, on the text that is hashed; the canonical form of the content and its title are
-- arguments.
use conversation_service.Prelude.{
  ◌+◌, Bool, true, false, not, ◌&&◌, ◌||◌, Option, none, some, List, [], ◌∷◌, ◌++◌, ◌==◌, leb,
  if◌then◌else◌, head?, keep, any, take,
}
use conversation_service.Model.{Uuid, Time, Text}
use conversation_service.Strings.{codes}
use conversation_service.Text.{text_eq, is_empty}
use conversation_service.Errors.{
  Method, ◌>>=◌, ◌>>◌, return, fail, lookup_error, artifact_not_found, retry_limit_reached,
}
use conversation_service.Artifacts.{
  Artifact, ArtifactRef, ArtifactType, mermaid, manim, is_manim, pending, ready, failed,
  same_status, Registry, Host, call, artifact_max_manual_retries,
}
use conversation_service.Artifacts.Table.{has_id, get, cas}

abbrev pub artifact_render_quality : Text
artifact_render_quality = codes "l"

abbrev pub same_type : ArtifactType → ArtifactType → Bool
same_type mermaid mermaid = true
same_type manim manim = true
same_type _ _ = false

abbrev pub type_text : ArtifactType → Text
type_text mermaid = codes "mermaid"
type_text manim = codes "manim"

-- The parts, joined by a NUL.
abbrev pub joined : Text → Text → Text → Text → Text
joined a b c d = codes "fp1" ++ 0 ∷ a ++ 0 ∷ b ++ 0 ∷ c ++ 0 ∷ d

pub record Request : Type 0 where
  pub owner : Uuid
  pub conversation_id : Uuid
  pub source_message_id : Uuid
  pub artifact_type : ArtifactType
  pub canonical : Text
  pub renderer_version : Text
  pub title : Text
  pub block_id : Text

module _ (host : Host) (sha256 : Text → Text) (uuid5 : Text → Uuid) (str : Uuid → Text) where
  unfoldable pub compute_fingerprint : ArtifactType → Text → Text → Text → Text
  compute_fingerprint mermaid canonical renderer_version quality =
      sha256 (joined (type_text mermaid) [] [] canonical)
  compute_fingerprint manim canonical renderer_version quality =
      sha256 (joined (type_text manim) renderer_version quality canonical)

  unfoldable pub artifact_id_for : Uuid → ArtifactType → Text → Uuid
  artifact_id_for owner artifact_type fingerprint =
      uuid5 (str owner ++ codes ":" ++ type_text artifact_type ++ codes ":" ++ fingerprint)

  unfoldable pub fingerprint_of : Request → Text
  unfolding compute_fingerprint
  fingerprint_of r =
      compute_fingerprint r.artifact_type r.canonical r.renderer_version artifact_render_quality

  unfoldable pub id_of : Request → Uuid
  unfolding artifact_id_for fingerprint_of
  id_of r = artifact_id_for r.owner r.artifact_type (fingerprint_of r)

  abbrev pub initial : Time → Request → Artifact
  initial now r = record {
    artifact_id = id_of r;
    owner_user_id = r.owner;
    artifact_type = r.artifact_type;
    title = r.title;
    fingerprint = fingerprint_of r;
    spec_text = r.canonical;
    status = if is_manim r.artifact_type then pending else ready;
    render_job_id = none;
    object_key = none;
    thumbnail_key = none;
    mime_type = none;
    size_bytes = none;
    checksum_sha256 = none;
    renderer_version =
        if is_empty r.renderer_version
        then []
        else r.renderer_version ++ codes ":" ++ artifact_render_quality;
    failure_code = none;
    attempt_count = 0;
    retry_count = 0;
    lease_until = none;
    created_at = now;
    updated_at = now;
  }

  -- The primary key, and the unique (owner, type, fingerprint).
  abbrev pub conflicts : Artifact → Artifact → Bool
  conflicts a b =
      (a.artifact_id == b.artifact_id)
      || ((a.owner_user_id == b.owner_user_id)
          && same_type a.artifact_type b.artifact_type
          && text_eq a.fingerprint b.fingerprint)

  abbrev same_ref : ArtifactRef → ArtifactRef → Bool
  same_ref a b =
      (a.artifact_id == b.artifact_id)
      && (a.conversation_id == b.conversation_id)
      && (a.source_message_id == b.source_message_id)
      && text_eq a.block_id b.block_id

  abbrev ref_of : Request → ArtifactRef
  ref_of r = record {
    artifact_id = id_of r;
    conversation_id = r.conversation_id;
    source_message_id = r.source_message_id;
    block_id = take 64 r.block_id;
    owner_user_id = r.owner;
  }

  abbrev pub with_artifact : Artifact → List Artifact → List Artifact
  with_artifact a artifacts = if any (conflicts a) artifacts then artifacts else artifacts ++ a ∷ []

  abbrev with_ref : ArtifactRef → List ArtifactRef → List ArtifactRef
  with_ref f refs = if any (same_ref f) refs then refs else refs ++ f ∷ []

  -- The two inserts and the read of one transaction, which is rolled back when `scalar_one` finds no
  -- row. The result is the artifact, and whether its row is new.
  unfoldable pub insert_artifact : Time → Request → Method Registry (Artifact × Bool)
  unfolding id_of
  insert_artifact now r s =
      let artifacts = with_artifact (initial now r) s.artifacts in
      elim (head? (keep (has_id (id_of r)) artifacts)) [
        | none ↦ fail lookup_error s
        | some row ↦
            return (row, not (any (conflicts (initial now r)) s.artifacts))
              (record s { artifacts = artifacts; refs = with_ref (ref_of r) s.refs })
      ]

  unfoldable pub register : Request → Method Registry (Artifact × Bool)
  unfolding insert_artifact
  register r = do n ← call host; insert_artifact (host.now n) r

  unfoldable pub lookup :
      Uuid → ArtifactType → Text → Text → Text → Method Registry (Option Artifact)
  unfolding compute_fingerprint
  lookup owner artifact_type canonical renderer_version quality = do
    n ← call host
    λ s.
        return
          (head? (
            keep
              (λ a.
                (a.owner_user_id == owner)
                && same_type a.artifact_type artifact_type
                && text_eq a.fingerprint
                    (compute_fingerprint artifact_type canonical renderer_version quality))
              s.artifacts))
          s

module _ (host : Host) where
  unfoldable pub retry_failed : Uuid → Uuid → Artifact → Method Registry (Option Artifact × Bool)
  unfolding get cas
  retry_failed owner artifact_id row =
      if not (same_status row.status failed) || not (is_manim row.artifact_type)
      then return (some row, false)
      else if leb artifact_max_manual_retries row.retry_count
      then fail retry_limit_reached
      else (do
        updated ← cas host artifact_id (failed ∷ []) (λ a. record a {
          status = pending;
          failure_code = none;
          attempt_count = 0;
          retry_count = row.retry_count + 1;
          render_job_id = none;
          lease_until = none;
        })
        elim updated [
          | some moved ↦ return (some moved, true)
          | none ↦ get host owner artifact_id >>= λ found. return (found, false)
        ])

  unfoldable pub retry : Uuid → Uuid → Method Registry (Option Artifact × Bool)
  unfolding retry_failed
  retry owner artifact_id = do
    found ← get host owner artifact_id
    elim found [ none ↦ fail artifact_not_found | some row ↦ retry_failed owner artifact_id row ]

  unfoldable pub mark_object_missing : Uuid → Method Registry (Unit {0})
  unfolding cas
  mark_object_missing artifact_id = do
    cas host artifact_id (ready ∷ []) (λ a. record a {
      status = pending;
      object_key = none;
      checksum_sha256 = none;
      size_bytes = none;
      mime_type = none;
      render_job_id = none;
      attempt_count = 0;
      failure_code = none;
      lease_until = none;
    })
    return tt
