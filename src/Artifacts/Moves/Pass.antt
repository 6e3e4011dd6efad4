-- ===== src/Artifacts/Moves/Pass.antt =====
-- The moves of `advance` and `run_once`.
use conversation_service.Prelude.{
  ℕ, zero, suc, ◌≡◌, refl, Option, none, some, List, [], ◌∷◌, if◌then◌else◌,
}
use conversation_service.Model.{Uuid}
use conversation_service.Errors.{Result, ok, raised, Method, return}
use conversation_service.Errors.Ensures.{
  Ensures-test, Ensures-option, Ensures-except, Ensures-map, Ensures-state,
}
use conversation_service.Artifacts.{
  Artifact, ArtifactStatus, pending, queued, rendering, uploading, Registry, Host,
}
use conversation_service.Artifacts.Lifecycle.{step}
use conversation_service.Artifacts.Moves.{Respects}
use conversation_service.Artifacts.Moves.Steps.{Kept, call-Kept, Kept-continue, return-Kept}
use conversation_service.Artifacts.Moves.Store.{fail-Kept}
use conversation_service.Artifacts.Moves.Render.{dispatch-Kept}
use conversation_service.Artifacts.Table.{active_ids}
use conversation_service.Artifacts.Worker.{
  stopped, passes, finish, advance_claimed, advance, advance_all, run_once,
}
use conversation_service.Artifacts.Moves.Steps.{release-Kept, backoff-Kept, claim-Kept}
use conversation_service.Artifacts.Moves.Upload.{poll-Kept, upload-Kept}

module _ (host : Host) (M : Artifact → Artifact → Type 0)
    (T : List Artifact → List Artifact → Type 0) (r : Respects host M T) where
  step-Kept : (row : Artifact) (s : Registry) → Kept host M T r s (step host row s)
  unfolding step
  step-Kept row s = by_status row.status refl
    where
      by_status : (t : ArtifactStatus) → row.status ≡ t → Kept host M T r s (step host row s)
      by_status pending e = rw (e, step) (dispatch-Kept host M T r row s)
      by_status queued e = rw (e, step) (poll-Kept host M T r row s)
      by_status rendering e = rw (e, step) (poll-Kept host M T r row s)
      by_status uploading e = rw (e, step) (upload-Kept host M T r row s)
      by_status t e = rw (e, step) (return-Kept host M T r none s)

  passes-Kept : (n : ℕ) (row : Artifact) (s : Registry) → Kept host M T r s (passes host n row s)
  unfolding passes
  passes-Kept zero row s = return-Kept host M T r tt s
  passes-Kept (suc n) row s = Kept-continue host M T r s (step-Kept row s) (λ next v.
      Ensures-option next (return tt)
        (λ moved. if stopped host row (some moved) then return tt else passes host n moved) v
        (λ e. return-Kept host M T r tt v)
        (λ moved e.
          Ensures-test (stopped host row (some moved)) _ _ v (λ y. return-Kept host M T r tt v)
            (λ m. passes-Kept n moved v)))

  -- The end of a `try` runs whichever way its body ended.
  Kept-then :
      {A B : Type 0} (s : Registry) (m : Result A × Registry) (f : Result A → Method Registry B)
      → Kept host M T r s m
      → ((o : Result A) (v : Registry) → Kept host M T r v (f o v))
      → Kept host M T r s (f m.0 m.1)
  Kept-then s (ok a, v) f p q =
      Ensures-map (q (ok a) v) (λ b w k. r.then s.artifacts v.artifacts w.artifacts p.after k)
        (λ e w k. r.then s.artifacts v.artifacts w.artifacts p.after k)
  Kept-then s (raised e, v) f p q =
      Ensures-map (q (raised e) v) (λ b w k. r.then s.artifacts v.artifacts w.artifacts p.after k)
        (λ g w k. r.then s.artifacts v.artifacts w.artifacts p.after k)

  finish-Kept :
      (i : Uuid) (end : Result (Unit {0})) (s : Registry) → Kept host M T r s (finish host i end s)
  unfolding finish
  finish-Kept i (ok u) s =
      Kept-continue host M T r s (release-Kept host M T r i s) (λ a v. return-Kept host M T r tt v)
  finish-Kept i (raised e) s =
      Ensures-except
        (Kept-continue host M T r s (backoff-Kept host M T r i s)
          (λ a v. return-Kept host M T r tt v))
        (λ a v h. h)
        (λ f v h.
          Ensures-map
            (Kept-continue host M T r v (release-Kept host M T r i v)
              (λ a w. fail-Kept host M T r {A = Unit} f w))
            (λ a w k. r.then s.artifacts v.artifacts w.artifacts h k)
            (λ g w k. r.then s.artifacts v.artifacts w.artifacts h k))

  pub advance-Kept : (i : Uuid) (s : Registry) → Kept host M T r s (advance host i s)
  unfolding advance advance_claimed
  advance-Kept i s = Kept-continue host M T r s (claim-Kept host M T r i s) (λ o v. claimed o v)
    where
      claimed :
          (o : Option Artifact) (v : Registry) → Kept host M T r v (advance_claimed host i o v)
      claimed none v = return-Kept host M T r tt v
      claimed (some row) v =
          Kept-then v (passes host 5 row v) (λ o w. finish host i o w) (passes-Kept 5 row v)
            (λ o w. finish-Kept i o w)

  advance_all-Kept :
      (ids : List Uuid) (s : Registry) → T s.artifacts (advance_all host ids s).artifacts
  unfolding advance_all
  advance_all-Kept [] s = r.same s.artifacts
  advance_all-Kept (i ∷ ids) s =
      let once =
        Ensures-state (λ v. T s.artifacts v.artifacts) (advance host i s) (advance-Kept i s) in
      r.then s.artifacts _ _ once (advance_all-Kept ids (advance host i s).1)

  pub run_once-Kept : (s : Registry) → T s.artifacts (run_once host s).1.artifacts
  unfolding run_once active_ids
  run_once-Kept s =
      Ensures-state (λ v. T s.artifacts v.artifacts) (run_once host s)
        (Kept-continue host M T r s
          (Kept-continue host M T r s (call-Kept host M T r s)
            (λ n v. record { after = r.same v.artifacts }))
          (λ ids v. record { after = advance_all-Kept ids v }))
