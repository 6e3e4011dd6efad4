-- ===== src/Artifacts/Table.antt =====
-- The statements of app/artifacts/service.py that change one row of `artifacts`, each a transaction:
-- `_cas`, `_release`, `_backoff`, `_fail`, `_claim`; and the reads.
use conversation_service.Prelude.{
  ℕ, ◌+◌, Bool, true, ◌&&◌, Option, none, some, List, [], ◌∷◌, ◌==◌, ltb, if◌then◌else◌, take, keep,
  head?,
}
use mathlib.Core.List.{map}
use conversation_service.Model.{Uuid, Time, Text}
use conversation_service.Errors.{Method, ◌>>=◌, ◌>>◌, return}
use conversation_service.Artifacts.{
  Artifact, ArtifactStatus, one_of, active, failed, seconds, Registry, Host, call,
  artifact_lease_seconds, backoff_seconds,
}

-- `UPDATE ... SET ... WHERE`
abbrev pub set_where : (Artifact → Bool) → (Artifact → Artifact) → Artifact → Artifact
set_where cond values a = if cond a then values a else a

unfoldable pub update_where :
    (Artifact → Bool) → (Artifact → Artifact) → List Artifact → List Artifact
update_where cond values rows = map (set_where cond values) rows

-- `RETURNING`, of a condition on the primary key: at most one row.
unfoldable pub returned :
    (Artifact → Bool) → (Artifact → Artifact) → List Artifact → Option Artifact
returned cond values [] = none
returned cond values (a ∷ rows) = if cond a then some (values a) else returned cond values rows

abbrev pub has_id : Uuid → Artifact → Bool
has_id artifact_id a = a.artifact_id == artifact_id

abbrev pub unleased : Time → Option Time → Bool
unleased now none = true
unleased now (some until) = ltb until now

abbrev pub claimable : Time → Artifact → Bool
claimable now a = one_of active a.status && unleased now a.lease_until

module _ (host : Host) where
  unfoldable pub update :
      (Artifact → Bool) → (Artifact → Artifact) → ℕ → Method Registry (Option Artifact)
  update cond values n s =
      return (returned cond values s.artifacts)
        (record s { artifacts = update_where cond values s.artifacts })

  -- `UPDATE` in a transaction; the condition and the values may read the clock.
  unfoldable pub transaction :
      (Time → Artifact → Bool) → (Time → Artifact → Artifact) → Method Registry (Option Artifact)
  unfolding update
  transaction cond values = do n ← call host; update (cond (host.now n)) (values (host.now n)) n

  unfoldable pub cas :
      Uuid → List ArtifactStatus → (Artifact → Artifact) → Method Registry (Option Artifact)
  unfolding transaction
  cas artifact_id allowed_from values =
      transaction (λ now a. has_id artifact_id a && one_of allowed_from a.status)
        (λ now a. record (values a) { updated_at = now })

  unfoldable pub release : Uuid → Method Registry (Option Artifact)
  unfolding transaction
  release artifact_id =
      transaction (λ now a. has_id artifact_id a) (λ now a. record a { lease_until = none })

  unfoldable pub backoff : Uuid → Method Registry (Option Artifact)
  unfolding transaction
  backoff artifact_id =
      transaction (λ now a. has_id artifact_id a)
        (λ now a. record a { lease_until = some (now + seconds backoff_seconds) })

  -- `_fail`; its callers return `None` after it.
  unfoldable pub fail_artifact : Uuid → Text → Method Registry (Option Artifact)
  unfolding cas
  fail_artifact artifact_id code = do
    cas artifact_id active
        (λ a. record a { status = failed; failure_code = some (take 48 code); lease_until = none })
    return none

  unfoldable pub claim : Uuid → Method Registry (Option Artifact)
  unfolding transaction
  claim artifact_id =
      transaction (λ now a. has_id artifact_id a && claimable now a)
        (λ now a. record a { lease_until = some (now + seconds artifact_lease_seconds) })

  unfoldable pub get : Uuid → Uuid → Method Registry (Option Artifact)
  get owner artifact_id = do
    n ← call host
    λ s.
        return (head? (keep (λ a. has_id artifact_id a && (a.owner_user_id == owner)) s.artifacts))
          s

  -- `active_ids`, of the rows in the order that `updated_at` gives them.
  unfoldable pub insert_oldest : Artifact → List Artifact → List Artifact
  insert_oldest a [] = a ∷ []
  insert_oldest a (b ∷ bs) =
      let rest = insert_oldest a bs in
      if ltb b.updated_at a.updated_at then b ∷ rest else a ∷ b ∷ bs

  unfoldable pub oldest_first : List Artifact → List Artifact
  unfolding insert_oldest
  oldest_first [] = []
  oldest_first (a ∷ rows) = insert_oldest a (oldest_first rows)

  unfoldable pub active_ids : ℕ → Method Registry (List Uuid)
  unfolding oldest_first
  active_ids limit = do
    n ← call host
    λ s.
        return
          (take limit
            (map (λ a. a.artifact_id) (oldest_first (keep (claimable (host.now n)) s.artifacts))))
          s
