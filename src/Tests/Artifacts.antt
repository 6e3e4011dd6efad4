-- ===== src/Tests/Artifacts.antt =====
-- An animation that waits for its render, an animation that failed, and a diagram.
use conversation_service.Prelude.{
  ℕ, zero, suc, Option, ◌+◌, ◌≡◌, refl, false, none, some, List, [], ◌∷◌, ◌++◌, arith, length,
}
use conversation_service.Model.{Text, Uuid}
use conversation_service.Strings.{codes}
use conversation_service.Errors.{ok}
use conversation_service.Artifacts.{
  Artifact, ArtifactStatus, ArtifactType, mermaid, manim, pending, ready, failed, Registry, Host,
  call, response, JobState, Bytes,
}
use conversation_service.Artifacts.Backend
use conversation_service.Artifacts.Media.{boxes_from, validate_mp4}
use conversation_service.Artifacts.Media.Boxes.{Ended, boxes_from_enough}
use conversation_service.Artifacts.Table.{claim, returned, update_where}
use conversation_service.Artifacts.Worker.{run_once}
use conversation_service.Artifacts.Moves.{Move, Moves, stay}
use conversation_service.Artifacts.Evolution.{Evolves, KeepsOutcome, run_once-KeepsOutcome}
use conversation_service.Artifacts.Operations.{
  Operation, registration, worker_pass, wake_up, retry_request, missing_object, execute_all,
}
use conversation_service.Artifacts.Registration.{Request}
use conversation_service.Artifacts.Refinement.{execute_all-Evolves}
use conversation_service.Artifacts.Safety.{IsSafe, AllSafe, execute_all-AllSafe}
use conversation_service.Artifacts.Claims.{claim_exclusive}

abbrev artifact : Uuid → ArtifactType → ArtifactStatus → Artifact
artifact i kind state = record {
  artifact_id = i;
  owner_user_id = 7;
  artifact_type = kind;
  title = codes "Circle";
  fingerprint = codes "f" ++ i ∷ [];
  spec_text = codes "{}";
  status = state;
  render_job_id = none;
  object_key = none;
  thumbnail_key = none;
  mime_type = none;
  size_bytes = none;
  checksum_sha256 = none;
  renderer_version = codes "manim-templates-1:l";
  failure_code = none;
  attempt_count = 0;
  retry_count = 0;
  lease_until = none;
  created_at = 5;
  updated_at = 5;
}

abbrev registry : Registry
registry = record {
  artifacts = artifact 1 manim pending ∷ artifact 2 manim failed ∷ artifact 3 mermaid ready ∷ [];
  refs = [];
  objects = [];
  tick = 0;
}

-- llm-service takes every job, and nobody else writes.
abbrev host : Host
host = record {
  now = λ n. 1000 + n;
  down = λ n. false;
  others = λ n s. s;
  http = λ n. response (record {
    status_code = 200;
    job = record { job_id = codes "j"; state = JobState.pending; failure = none };
    detail = none;
    content = [];
  });
  sha256 = λ b. codes "0";
}

abbrev request : Request
request = record {
  owner = 7;
  conversation_id = 1;
  source_message_id = 41;
  artifact_type = manim;
  canonical = codes "{}";
  renderer_version = codes "manim-templates-1";
  title = codes "Square";
  block_id = [];
}

abbrev operations : List Operation
operations =
    registration request ∷ worker_pass ∷ retry_request 7 2 ∷ wake_up 2 ∷ missing_object 3 ∷ []

abbrev digest : Text → Text
digest t = t

fresh :
    (i : Uuid) (kind : ArtifactType) (state : ArtifactStatus)
    → (kind ≡ manim → state ≡ ready → ⊥)
    → IsSafe host (artifact i kind state)
fresh i kind state h = record {
  attempts = omega arith;
  retries = omega arith;
  verified = λ k e. absurd (h k e);
}

registry-AllSafe : AllSafe host registry.artifacts
registry-AllSafe = (
  fresh 1 manim pending (λ k e. not_pending e),
  (fresh 2 manim failed (λ k e. not_failed e), (fresh 3 mermaid ready (λ k e. not_mermaid k), tt)),
)
  where
    not_pending : ArtifactStatus.pending ≡ ArtifactStatus.ready → ⊥
    not_pending e = cc

    not_failed : ArtifactStatus.failed ≡ ArtifactStatus.ready → ⊥
    not_failed e = cc

    not_mermaid : mermaid ≡ manim → ⊥
    not_mermaid e = cc

execute_all-AllSafe_example :
    AllSafe host (execute_all host digest length (λ i. i ∷ []) operations registry).artifacts
execute_all-AllSafe_example =
    execute_all-AllSafe host (λ n s h. h) digest length (λ i. i ∷ []) operations registry
      registry-AllSafe

execute_all-Evolves_example :
    Evolves
      (Moves (Move host))
      registry.artifacts
      (execute_all host digest length (λ i. i ∷ []) operations registry).artifacts
execute_all-Evolves_example =
    execute_all-Evolves host (λ n s. record { row = λ i x e. (x, e, stay) }) digest length
      (λ i. i ∷ []) operations registry

run_once-KeepsOutcome_example :
    Evolves KeepsOutcome registry.artifacts (run_once host registry).1.artifacts
run_once-KeepsOutcome_example =
    run_once-KeepsOutcome host (λ n s. record { row = λ i x e. (x, e, λ h. refl) }) registry

abbrev leased : Artifact
leased = record (artifact 1 manim pending) { lease_until = some 60001000 }

claimed_first : (claim host 1 registry).0 ≡ ok (some leased)
unfolding claim call returned
claimed_first = refl

claim_exclusive_example : (claim host 1 (claim host 1 registry).1).0 ≡ ok none
unfolding claim call
claim_exclusive_example =
    claim_exclusive host 1 registry (claim host 1 registry).1 leased (refl, (refl, (refl, tt)))
      claimed_first refl (omega arith) refl

abbrev video : Bytes
video = 0 ∷ 0 ∷ 0 ∷ 8 ∷ codes "ftyp" ++ 0 ∷ 0 ∷ 0 ∷ 8 ∷ codes "moov" ++ 0 ∷ 0 ∷ 0 ∷ 0 ∷ codes "mdat"

walked : boxes_from 25 video 0 ≡ some (some (codes "ftyp" ∷ codes "moov" ∷ codes "mdat" ∷ []))
unfolding boxes_from
walked = refl

boxes_from_enough_example : Ended 25 video 0
boxes_from_enough_example = boxes_from_enough 25 video 0 (omega arith) (omega arith)

abbrev zeros : ℕ → Bytes
zeros zero = []
zeros (suc n) = 0 ∷ zeros n

-- llm-service has rendered the job, and gives its video.
abbrev rendered : Host
rendered = record host {
  http = λ n. response (record {
    status_code = 200;
    job = record { job_id = codes "j"; state = JobState.ready; failure = none };
    detail = none;
    content = video ++ zeros 1024;
  });
}

abbrev outcomes : List Artifact → List (ArtifactStatus × Option ℕ)
outcomes [] = []
outcomes (a ∷ rows) = (a.status, a.size_bytes) ∷ outcomes rows

rendered_pass :
    outcomes (run_once rendered registry).1.artifacts
    ≡ (ready, some 1048) ∷ (failed, none) ∷ (ready, none) ∷ []
unfolding run_once call returned Backend.request update_where validate_mp4
rendered_pass = refl
