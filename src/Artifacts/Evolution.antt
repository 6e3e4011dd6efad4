-- ===== src/Artifacts/Evolution.antt =====
-- The row of one artifact while the workers run: the edges of the lifecycle, and the outcome of a
-- finished one.
use conversation_service.Prelude.{
  ℕ, ◌≡◌, refl, sym, subst, ap, ◌∙◌, Bool, true, false, Option, none, some, List, [], ◌∷◌,
  Bool-cases, inl, inr, if◌then◌else◌, get_or,
}
use mathlib.Core.List.{map}
use conversation_service.Model.{Uuid}
use conversation_service.Artifacts.{Artifact, terminal, one_of, Registry, Host}
use conversation_service.Artifacts.Table.{update_where, set_where, has_id}
use conversation_service.Artifacts.Worker.{run_once}
use conversation_service.Artifacts.Moves.{
  outcome_of, WorkerMove, Move, worker, restart, Respects, Moves, stay, move, Moves-trans,
}
use conversation_service.Artifacts.Moves.Pass.{run_once-Kept}

unfoldable pub find_artifact : Uuid → List Artifact → Option Artifact
find_artifact i [] = none
find_artifact i (a ∷ rows) = if has_id i a then some a else find_artifact i rows

-- Every row that was there is there, as `M` relates it.
pub record Evolves (M : Artifact → Artifact → Type 0) (xs ys : List Artifact) : Type 0 where
  pub row :
      (i : Uuid) (x : Artifact)
      → find_artifact i xs ≡ some x
      → (y : Artifact) × (find_artifact i ys ≡ some y) × M x y

some_then :
    (b : Bool) (a x : Artifact) (o : Option Artifact)
    → b ≡ true
    → (if b then some a else o) ≡ some x
    → a ≡ x
some_then true a x o h e = ap (λ o. get_or o a) e
some_then false a x o h e = cc

some_else :
    (b : Bool) (a x : Artifact) (o : Option Artifact)
    → b ≡ false
    → (if b then some a else o) ≡ some x
    → o ≡ some x
some_else false a x o h e = e
some_else true a x o h e = cc

module _ (M : Artifact → Artifact → Type 0) where
  find-map :
      (g : Artifact → Artifact) (rows : List Artifact) (i : Uuid) (x : Artifact)
      → ((a : Artifact) → M a (g a))
      → ((a : Artifact) → (g a).artifact_id ≡ a.artifact_id)
      → find_artifact i rows ≡ some x
      → (y : Artifact) × (find_artifact i (map g rows) ≡ some y) × M x y
  unfolding find_artifact
  find-map g [] i x moves ids e = cc
  find-map g (a ∷ rows) i x moves ids e = elim (Bool-cases (has_id i a)) [
    | inl y ↦ (
      g a,
      rw (ids a, y) refl,
      subst (λ z. M z (g a)) (some_then (has_id i a) a x (find_artifact i rows) y e) (moves a),
    )
    | inr n ↦
        let (z, found, m) =
          find-map g rows i x moves ids (some_else (has_id i a) a x (find_artifact i rows) n e) in
        (z, rw (ids a, n) found, m)
  ]

  Evolves-write :
      (cond : Artifact → Bool) (values : Artifact → Artifact) (rows : List Artifact)
      → ((a : Artifact) → M a a)
      → ((a : Artifact) → cond a ≡ true → M a (values a))
      → ((a : Artifact) → cond a ≡ true → (values a).artifact_id ≡ a.artifact_id)
      → Evolves M rows (update_where cond values rows)
  unfolding update_where
  Evolves-write cond values rows same moves ids = record {
    row = λ i x e.
        find-map (set_where cond values) rows i x
          (λ a. elim (Bool-cases (cond a)) [ inl y ↦ rw y (moves a y) | inr n ↦ rw n (same a) ])
          (λ a. elim (Bool-cases (cond a)) [ inl y ↦ rw y (ids a y) | inr n ↦ rw n refl ]) e;
  }

  Evolves-trans :
      (xs ys zs : List Artifact)
      → ((a b c : Artifact) → M a b → M b c → M a c)
      → Evolves M xs ys
      → Evolves M ys zs
      → Evolves M xs zs
  Evolves-trans xs ys zs trans p q = record {
    row = λ i x e.
        let (y, found, m) = p.row i x e in
        let (z, found', n) = q.row i y found in (z, found', trans x y z m n);
  }

-- The outcome of a finished artifact.
abbrev pub KeepsOutcome : Artifact → Artifact → Type 0
KeepsOutcome x y = one_of terminal x.status ≡ true → outcome_of y ≡ outcome_of x

module _ (host : Host) where
  worker-Respects :
      ((n : ℕ) (s : Registry) → Evolves KeepsOutcome s.artifacts (host.others n s).artifacts)
      → Respects host (WorkerMove host) (Evolves KeepsOutcome)
  worker-Respects rely = record {
    same = λ xs. record { row = λ i x e. (x, e, λ h. refl) };
    then = λ xs ys zs p q.
        Evolves-trans KeepsOutcome xs ys zs
          (λ a b c m n h.
            n (subst (λ t. one_of terminal t ≡ true) (sym (ap (λ p. p.0) (m h))) h) ∙ m h)
          p q;
    worker_move = λ x y m. m;
    write = λ cond values xs moves.
        Evolves-write KeepsOutcome cond values xs (λ a h. refl) (λ a h. (moves a h).final)
          (λ a h. ap (λ p. p.0) (moves a h).identity);
    rely = rely;
  }

  -- One pass of the worker over the active artifacts, whichever calls raise and whatever llm-service
  -- answers: each artifact that was `ready` or `failed` is still there with the same status, video,
  -- thumbnail, size, checksum and failure code, as long as what others commit in between leaves the
  -- finished artifacts as they are.
  pub run_once-KeepsOutcome :
      ((n : ℕ) (s : Registry) → Evolves KeepsOutcome s.artifacts (host.others n s).artifacts)
      → (s : Registry) → Evolves KeepsOutcome s.artifacts (run_once host s).1.artifacts
  run_once-KeepsOutcome rely s =
      run_once-Kept host (WorkerMove host) (Evolves KeepsOutcome) (worker-Respects rely) s

  pub lifecycle-Respects :
      ((n : ℕ) (s : Registry) → Evolves (Moves (Move host)) s.artifacts (host.others n s).artifacts)
      → Respects host (Move host) (Evolves (Moves (Move host)))
  lifecycle-Respects rely = record {
    same = λ xs. record { row = λ i x e. (x, e, stay) };
    then = λ xs ys zs p q.
        Evolves-trans (Moves (Move host)) xs ys zs (λ a b c m n. Moves-trans m n) p q;
    worker_move = λ x y m. worker m;
    write = λ cond values xs moves.
        Evolves-write (Moves (Move host)) cond values xs (λ a. stay) (λ a h. move (moves a h) stay)
          (λ a h. same_id a (values a) (moves a h));
    rely = rely;
  }
    where
      same_id : (a b : Artifact) → Move host a b → b.artifact_id ≡ a.artifact_id
      same_id a b (worker m) = ap (λ p. p.0) m.identity
      same_id a b (restart m) = ap (λ p. p.0) m.identity
