-- ===== src/Artifacts/Worker.antt =====
-- `advance`, `run_once` and `delete_orphan_objects` of app/artifacts/service.py.
use conversation_service.Prelude.{
  ℕ, zero, suc, ◌+◌, ◌-◌, Bool, true, ◌||◌, Option, none, some, List, [], ◌∷◌, ltb, if◌then◌else◌,
  length, any,
}
use conversation_service.Model.{Uuid, Time}
use conversation_service.Errors.{Result, ok, raised, Method, ◌>>=◌, ◌>>◌, return, fail, except}
use conversation_service.Artifacts.{
  Artifact, terminal, one_of, same_status, file, unrelated, Object, Registry, Host, call,
}
use conversation_service.Artifacts.Table.{claim, release, backoff, active_ids, has_id}
use conversation_service.Artifacts.Adoption.{delete_object}
use conversation_service.Artifacts.Lifecycle.{step}

module _ (host : Host) where
  abbrev pub stopped : Artifact → Option Artifact → Bool
  stopped before none = true
  stopped before (some row) = one_of terminal row.status || same_status row.status before.status

  -- `for _ in range(n)`
  unfoldable pub passes : ℕ → Artifact → Method Registry (Unit {0})
  unfolding step
  passes zero row = return tt
  passes (suc n) row = do
    next ← step host row
    elim next [
      | none ↦ return tt
      | some moved ↦ if stopped row (some moved) then return tt else passes n moved
    ]

  -- An exception leaves the lease for a pause; when that write raises too, the lease is released.
  unfoldable pub finish : Uuid → Result (Unit {0}) → Method Registry (Unit {0})
  unfolding release backoff
  finish artifact_id (ok u) s = (release host artifact_id >> return tt) s
  finish artifact_id (raised e) s =
      except ((backoff host artifact_id >> return tt) s) (λ f. do release host artifact_id; fail f)

  unfoldable pub advance_claimed : Uuid → Option Artifact → Method Registry (Unit {0})
  unfolding passes finish
  advance_claimed artifact_id none s = return tt s
  advance_claimed artifact_id (some row) s = let (r, s') = passes 5 row s in finish artifact_id r s'

  unfoldable pub advance : Uuid → Method Registry (Unit {0})
  unfolding advance_claimed claim
  advance artifact_id = claim host artifact_id >>= advance_claimed artifact_id

  -- An exception is logged.
  unfoldable pub advance_all : List Uuid → Registry → Registry
  unfolding advance
  advance_all [] s = s
  advance_all (i ∷ ids) s = advance_all ids (advance i s).1

  unfoldable pub run_once : Method Registry ℕ
  unfolding advance_all active_ids
  run_once = do ids ← active_ids host 25; λ s. return (length ids) (advance_all ids s)

  unfoldable pub delete_orphan : Time → Object → Method Registry ℕ
  unfolding delete_object
  delete_orphan cutoff o = elim o.key [
    | unrelated k ↦ return 0
    | file artifact_id name ↦ if ltb cutoff o.last_modified then return 0 else (do
      n ← call host
      λ s.
          if any (has_id artifact_id) s.artifacts
          then return 0 s
          else (delete_object host o.key >> return 1) s)
  ]

  unfoldable pub delete_orphans : Time → List Object → Method Registry ℕ
  unfolding delete_orphan
  delete_orphans cutoff [] = return 0
  delete_orphans cutoff (o ∷ os) = do
    removed ← delete_orphan cutoff o
    more ← delete_orphans cutoff os
    return (removed + more)

  -- `list` gives the objects under `artifacts/`.
  unfoldable pub delete_orphan_objects : Time → Method Registry ℕ
  unfolding delete_orphans
  delete_orphan_objects grace = do
    n ← call host
    λ s. delete_orphans (host.now n - grace) s.objects s
