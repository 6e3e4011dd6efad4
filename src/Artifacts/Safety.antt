-- ===== src/Artifacts/Safety.antt =====
-- The bounds of the counters, and what a `ready` animation rests on, in every table that the calls
-- reach.
use conversation_service.Prelude.{
  ℕ, ◌≤◌, ◌≡◌, sym, subst, ap, ◌∙◌, ◌⊎◌, inl, inr, Bool, true, some, List, [], ◌∷◌, arith,
  Bool-cases, Option-cases, All, All-append, any, if◌then◌else◌, head?, keep,
}
use conversation_service.Model.{Uuid, Time, Text}
use conversation_service.Errors.Ensures.{Ensures-continue, Ensures-state, Ensures-any}
use conversation_service.Artifacts.{
  Artifact, ArtifactStatus, manim, ready, terminal, one_of, is_manim, video_object_key, Registry,
  Host, artifact_max_auto_attempts, artifact_max_manual_retries,
}
use conversation_service.Artifacts.Table.{update_where, has_id}
use conversation_service.Artifacts.Registration.{
  Request, register, insert_artifact, initial, with_artifact, conflicts, id_of,
}
use conversation_service.Artifacts.Operations.{
  Operation, registration, worker_pass, wake_up, retry_request, missing_object, execute,
  execute_all,
}
use conversation_service.Artifacts.Moves.{Verified, WorkerMove, Move, worker, restart, Respects}
use conversation_service.Artifacts.Moves.Pass.{advance-Kept, run_once-Kept}
use conversation_service.Artifacts.Moves.Steps.{call-Kept}
use conversation_service.Artifacts.Moves.Requests.{retry-Kept, mark_object_missing-Kept}

-- A row of the table: bounded counters, and a `ready` animation tells the key, the size and the
-- checksum of a video that passed the validation.
pub record IsSafe (host : Host) (a : Artifact) : Type 0 where
  pub attempts : a.attempt_count ≤ artifact_max_auto_attempts
  pub retries : a.retry_count ≤ artifact_max_manual_retries
  pub verified : a.artifact_type ≡ manim → a.status ≡ ready → Verified host a

module _ (host : Host) where
  abbrev pub AllSafe : List Artifact → Type 0
  AllSafe rows = All (IsSafe host) rows

  le_either : (a b n : ℕ) → ((b ≡ a) ⊎ (b ≤ n)) → a ≤ n → b ≤ n
  le_either a b n (inl e) h = omega arith
  le_either a b n (inr l) h = l

  worker_move-IsSafe : (x y : Artifact) → WorkerMove host x y → IsSafe host x → IsSafe host y
  worker_move-IsSafe x y m ok = record {
    attempts =
        le_either x.attempt_count y.attempt_count artifact_max_auto_attempts m.attempts ok.attempts;
    retries = subst (λ n. n ≤ artifact_max_manual_retries) (sym m.retries) ok.retries;
    verified = λ t e. elim (Bool-cases (one_of terminal x.status)) [
      | inr n ↦ m.verified n e
      | inl y_final ↦
          let same = m.final y_final in
          let id : y.artifact_id ≡ x.artifact_id = ap (λ p. p.0) m.identity in
          let kind : y.artifact_type ≡ x.artifact_type = ap (λ p. p.2) m.identity in
          let was = ok.verified (sym kind ∙ t) (sym (ap (λ p. p.0) same) ∙ e) in
          record {
            content = was.content;
            info = was.info;
            valid = was.valid;
            object_key =
                ap (λ p. p.1) same ∙ was.object_key ∙ ap (λ i. some (video_object_key i)) (sym id);
            size_bytes = ap (λ p. p.4) same ∙ was.size_bytes;
            checksum_sha256 = ap (λ p. p.5) same ∙ was.checksum_sha256;
          }
    ];
  }

  move-IsSafe : (x y : Artifact) → Move host x y → IsSafe host x → IsSafe host y
  move-IsSafe x y (worker m) ok = worker_move-IsSafe x y m ok
  move-IsSafe x y (restart m) ok = record {
    attempts = rw m.attempts (omega arith);
    retries =
        le_either x.retry_count y.retry_count artifact_max_manual_retries m.retries ok.retries;
    verified = λ t e. absurd (pending_ready (sym m.to ∙ e));
  }
    where
      pending_ready : ArtifactStatus.pending ≡ ArtifactStatus.ready → ⊥
      pending_ready e = cc

  update_where-AllSafe :
      (cond : Artifact → Bool) (values : Artifact → Artifact) (rows : List Artifact)
      → ((x : Artifact) → cond x ≡ true → Move host x (values x))
      → AllSafe rows
      → AllSafe (update_where cond values rows)
  unfolding update_where
  update_where-AllSafe cond values [] moves ok = tt
  update_where-AllSafe cond values (x ∷ rows) moves ok = (
    elim (Bool-cases (cond x)) [
      | inl y ↦ rw y (move-IsSafe x (values x) (moves x y) ok.0)
      | inr n ↦ rw n ok.0
    ],
    update_where-AllSafe cond values rows moves ok.1,
  )

  abbrev pub Keeps : List Artifact → List Artifact → Type 0
  Keeps xs ys = AllSafe xs → AllSafe ys

module _ (host : Host)
    (rely : (n : ℕ) (s : Registry)
      → AllSafe host s.artifacts
      → AllSafe host (host.others n s).artifacts) where
  respects : Respects host (Move host) (Keeps host)
  respects = record {
    same = λ xs h. h;
    then = λ xs ys zs f g h. g (f h);
    worker_move = λ x y m. worker m;
    write = λ cond values xs moves. update_where-AllSafe host cond values xs moves;
    rely = rely;
  }

  module _ (sha256 : Text → Text) (uuid5 : Text → Uuid) (str : Uuid → Text) where
    initial-IsSafe : (now : Time) (r : Request) → IsSafe host (initial host sha256 uuid5 str now r)
    initial-IsSafe now r = record {
      attempts = omega arith;
      retries = omega arith;
      verified = λ t e. absurd (not_initial t e);
    }
      where
        pending_ready : ArtifactStatus.pending ≡ ArtifactStatus.ready → ⊥
        pending_ready e = cc

        not_initial :
            r.artifact_type ≡ manim
            → (if is_manim r.artifact_type then ArtifactStatus.pending else ArtifactStatus.ready)
              ≡ ArtifactStatus.ready
            → ⊥
        not_initial t e = pending_ready (
            subst
              (λ k.
                (if is_manim k then ArtifactStatus.pending else ArtifactStatus.ready)
                ≡ ArtifactStatus.ready)
              t e)

    with_artifact-AllSafe :
        (a : Artifact) (rows : List Artifact)
        → IsSafe host a
        → AllSafe host rows
        → AllSafe host (with_artifact host sha256 uuid5 str a rows)
    with_artifact-AllSafe a rows fresh ok =
        elim (Bool-cases (any (conflicts host sha256 uuid5 str a) rows)) [
          | inl y ↦ rw y ok
          | inr n ↦ rw n (All-append (IsSafe host) rows (a ∷ []) ok (fresh, tt))
        ]

    insert_artifact-AllSafe :
        (now : Time) (r : Request) (s : Registry)
        → AllSafe host s.artifacts
        → AllSafe host (insert_artifact host sha256 uuid5 str now r s).1.artifacts
    unfolding insert_artifact
    insert_artifact-AllSafe now r s ok =
        let rows =
          with_artifact host sha256 uuid5 str (initial host sha256 uuid5 str now r) s.artifacts in
        elim (Option-cases (head? (keep (has_id (id_of host sha256 uuid5 str r)) rows))) [
          | inl e ↦ rw (e, insert_artifact) ok
          | inr (row, e) ↦
              rw (e, insert_artifact)
                (with_artifact-AllSafe (initial host sha256 uuid5 str now r) s.artifacts
                  (initial-IsSafe now r) ok)
        ]

    register-AllSafe :
        (r : Request) (s : Registry)
        → AllSafe host s.artifacts
        → AllSafe host (register host sha256 uuid5 str r s).1.artifacts
    unfolding register
    register-AllSafe r s ok =
        Ensures-state (λ v. AllSafe host v.artifacts) (register host sha256 uuid5 str r s)
          (Ensures-continue (call-Kept host (Move host) (Keeps host) respects s)
            (λ n v kept. Ensures-any (insert_artifact-AllSafe (host.now n) r v (kept ok)))
            (λ e v kept. kept ok))

    execute-AllSafe :
        (o : Operation) (s : Registry)
        → AllSafe host s.artifacts
        → AllSafe host (execute host sha256 uuid5 str o s).artifacts
    unfolding execute
    execute-AllSafe (registration r) s = register-AllSafe r s
    execute-AllSafe worker_pass s = run_once-Kept host (Move host) (Keeps host) respects s
    execute-AllSafe (wake_up i) s =
        Ensures-state (λ v. AllSafe host s.artifacts → AllSafe host v.artifacts) _
          (advance-Kept host (Move host) (Keeps host) respects i s)
    execute-AllSafe (retry_request owner i) s =
        Ensures-state (λ v. AllSafe host s.artifacts → AllSafe host v.artifacts) _
          (retry-Kept host (Keeps host) respects owner i s)
    execute-AllSafe (missing_object i) s =
        Ensures-state (λ v. AllSafe host s.artifacts → AllSafe host v.artifacts) _
          (mark_object_missing-Kept host (Keeps host) respects i s)

    -- Registrations, passes of the worker, wake-ups, retries and lost videos, in any order and
    -- whichever of their calls raise: when the rows are safe at the start, and what others commit in
    -- between keeps them safe, they are safe at the end. A safe row has at most 3 automatic renders
    -- and 5 retries, and if it is a `ready` animation, its key, size and checksum are those of a
    -- video that passed the validation.
    pub execute_all-AllSafe :
        (ops : List Operation) (s : Registry)
        → AllSafe host s.artifacts
        → AllSafe host (execute_all host sha256 uuid5 str ops s).artifacts
    unfolding execute_all
    execute_all-AllSafe [] s ok = ok
    execute_all-AllSafe (o ∷ ops) s ok =
        execute_all-AllSafe ops (execute host sha256 uuid5 str o s) (execute-AllSafe o s ok)
