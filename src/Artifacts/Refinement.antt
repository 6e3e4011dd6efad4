-- ===== src/Artifacts/Refinement.antt =====
-- The registry and the lifecycle of one artifact: the moves of each row, whatever is called.
use conversation_service.Prelude.{
  ℕ, ◌≡◌, some, List, [], ◌∷◌, ◌++◌, Bool-cases, Option-cases, inl, inr, any, head?, keep, arith,
}
use conversation_service.Model.{Uuid, Time, Text}
use conversation_service.Errors.Ensures.{Ensures-continue, Ensures-state, Ensures-any}
use conversation_service.Artifacts.{Artifact, Registry, Host}
use conversation_service.Artifacts.Table.{has_id}
use conversation_service.Artifacts.Registration.{
  Request, register, insert_artifact, initial, with_artifact, conflicts, id_of,
}
use conversation_service.Artifacts.Operations.{
  Operation, registration, worker_pass, wake_up, retry_request, missing_object, execute,
  execute_all,
}
use conversation_service.Artifacts.Evolution.{find_artifact, Evolves, lifecycle-Respects}
use conversation_service.Artifacts.Moves.{Move, Moves, stay, Respects}
use conversation_service.Artifacts.Moves.Pass.{advance-Kept, run_once-Kept}
use conversation_service.Artifacts.Moves.Steps.{call-Kept}
use conversation_service.Artifacts.Moves.Requests.{retry-Kept, mark_object_missing-Kept}

find_artifact-append :
    (i : Uuid) (x : Artifact) (rows more : List Artifact)
    → find_artifact i rows ≡ some x
    → find_artifact i (rows ++ more) ≡ some x
unfolding find_artifact
find_artifact-append i x [] more e = cc
find_artifact-append i x (a ∷ rows) more e = ground (arith, find_artifact-append i x rows more)

module _ (host : Host)
    (rely : (n : ℕ) (s : Registry)
      → Evolves (Moves (Move host)) s.artifacts (host.others n s).artifacts)
    (sha256 : Text → Text) (uuid5 : Text → Uuid) (str : Uuid → Text) where
  abbrev Walks : List Artifact → List Artifact → Type 0
  Walks = Evolves (Moves (Move host))

  abbrev respects : Respects host (Move host) (Evolves (Moves (Move host)))
  respects = lifecycle-Respects host rely

  with_artifact-Walks :
      (a : Artifact) (rows : List Artifact)
      → Evolves (Moves (Move host)) rows (with_artifact host sha256 uuid5 str a rows)
  with_artifact-Walks a rows = elim (Bool-cases (any (conflicts host sha256 uuid5 str a) rows)) [
    | inl y ↦ rw y (respects.same rows)
    | inr n ↦ rw n (record { row = λ i x e. (x, find_artifact-append i x rows (a ∷ []) e, stay) })
  ]

  insert_artifact-Walks :
      (now : Time) (r : Request) (s : Registry)
      → Evolves
          (Moves (Move host))
          s.artifacts
          (insert_artifact host sha256 uuid5 str now r s).1.artifacts
  unfolding insert_artifact
  insert_artifact-Walks now r s =
      let rows =
        with_artifact host sha256 uuid5 str (initial host sha256 uuid5 str now r) s.artifacts in
      elim (Option-cases (head? (keep (has_id (id_of host sha256 uuid5 str r)) rows))) [
        | inl e ↦ rw (e, insert_artifact) (respects.same s.artifacts)
        | inr (row, e) ↦
            rw (e, insert_artifact)
              (with_artifact-Walks (initial host sha256 uuid5 str now r) s.artifacts)
      ]

  register-Walks :
      (r : Request) (s : Registry)
      → Evolves (Moves (Move host)) s.artifacts (register host sha256 uuid5 str r s).1.artifacts
  unfolding register
  register-Walks r s =
      Ensures-state (λ v. Evolves (Moves (Move host)) s.artifacts v.artifacts)
        (register host sha256 uuid5 str r s)
        (Ensures-continue (call-Kept host (Move host) (Evolves (Moves (Move host))) respects s)
          (λ n v walked. Ensures-any (
            respects.then s.artifacts v.artifacts _ walked
              (insert_artifact-Walks (host.now n) r v)))
          (λ e v walked. walked))

  execute-Walks :
      (o : Operation) (s : Registry)
      → Evolves (Moves (Move host)) s.artifacts (execute host sha256 uuid5 str o s).artifacts
  unfolding execute
  execute-Walks (registration r) s = register-Walks r s
  execute-Walks worker_pass s = run_once-Kept host (Move host) Walks respects s
  execute-Walks (wake_up i) s =
      Ensures-state (λ v. Walks s.artifacts v.artifacts) _
        (advance-Kept host (Move host) Walks respects i s)
  execute-Walks (retry_request owner i) s =
      Ensures-state (λ v. Walks s.artifacts v.artifacts) _
        (retry-Kept host Walks respects owner i s)
  execute-Walks (missing_object i) s =
      Ensures-state (λ v. Walks s.artifacts v.artifacts) _
        (mark_object_missing-Kept host Walks respects i s)

  -- Registrations, passes of the worker, wake-ups, retries and lost videos, in any order and
  -- whichever of their calls raise: each artifact of the start is there at the end, and its row got
  -- there by moves of the lifecycle, when the rows that others write in between do. A worker's move
  -- keeps the identity and the retries, takes an edge such as pending to queued or leaves the status,
  -- leaves the outcome of a finished artifact, makes it `ready` only with a validated video, and
  -- keeps or bounds the number of renders; the other move restarts a finished artifact.
  pub execute_all-Evolves :
      (ops : List Operation) (s : Registry)
      → Evolves (Moves (Move host)) s.artifacts (execute_all host sha256 uuid5 str ops s).artifacts
  unfolding execute_all
  execute_all-Evolves [] s = respects.same s.artifacts
  execute_all-Evolves (o ∷ ops) s =
      let s' = execute host sha256 uuid5 str o s in
      respects.then s.artifacts s'.artifacts _ (execute-Walks o s) (execute_all-Evolves ops s')
