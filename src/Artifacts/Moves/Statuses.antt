-- ===== src/Artifacts/Moves/Statuses.antt =====
-- The statuses that the compare-and-sets of a step start from, and the edges that they take.
use conversation_service.Prelude.{◌≡◌, refl, subst, ◌⊎◌, inl, inr, true, false, List, [], ◌∷◌}
use conversation_service.Artifacts.{
  ArtifactStatus, pending, queued, rendering, uploading, ready, failed, active, one_of, JobState,
}
use conversation_service.Artifacts.Lifecycle.{wanted}
use conversation_service.Artifacts.Moves.{Edge}

-- The statuses of a render.
abbrev pub begun : List ArtifactStatus
begun = queued ∷ rendering ∷ uploading ∷ []

pub begun-active : (t : ArtifactStatus) → one_of begun t ≡ true → one_of active t ≡ true
begun-active queued h = refl
begun-active rendering h = refl
begun-active uploading h = refl
begun-active pending h = cc
begun-active ready h = cc
begun-active failed h = cc

pub running_begun :
    (t : ArtifactStatus) → one_of (queued ∷ rendering ∷ []) t ≡ true → one_of begun t ≡ true
running_begun queued h = refl
running_begun rendering h = refl
running_begun pending h = cc
running_begun uploading h = cc
running_begun ready h = cc
running_begun failed h = cc

pub uploading_begun :
    (t : ArtifactStatus) → one_of (uploading ∷ []) t ≡ true → one_of begun t ≡ true
uploading_begun uploading h = refl
uploading_begun pending h = cc
uploading_begun queued h = cc
uploading_begun rendering h = cc
uploading_begun ready h = cc
uploading_begun failed h = cc

pub submits :
    (t : ArtifactStatus) → one_of (pending ∷ []) t ≡ true → (one_of active t ≡ true) × Edge t queued
submits pending h = (refl, Edge.submitted)
submits queued h = cc
submits rendering h = cc
submits uploading h = cc
submits ready h = cc
submits failed h = cc

waits :
    (t : ArtifactStatus) → one_of (queued ∷ rendering ∷ []) t ≡ true → (queued ≡ t) ⊎ Edge t queued
waits queued h = inl refl
waits rendering h = inr Edge.waiting
waits pending h = cc
waits uploading h = cc
waits ready h = cc
waits failed h = cc

runs :
    (t : ArtifactStatus)
    → one_of (queued ∷ rendering ∷ []) t ≡ true
    → (rendering ≡ t) ⊎ Edge t rendering
runs queued h = inr Edge.started
runs rendering h = inl refl
runs pending h = cc
runs uploading h = cc
runs ready h = cc
runs failed h = cc

pub follows :
    (job : JobState) (t : ArtifactStatus)
    → one_of (queued ∷ rendering ∷ []) t ≡ true
    → ((wanted job ≡ t) ⊎ Edge t (wanted job)) × (one_of (ready ∷ []) (wanted job) ≡ false)
follows JobState.pending t h = (waits t h, refl)
follows job t h = (runs t h, refl)

pub storing_active :
    (t : ArtifactStatus)
    → one_of (uploading ∷ pending ∷ queued ∷ rendering ∷ []) t ≡ true
    → one_of active t ≡ true
storing_active pending h = refl
storing_active queued h = refl
storing_active rendering h = refl
storing_active uploading h = refl
storing_active ready h = cc
storing_active failed h = cc

pub unready : {s : ArtifactStatus} → one_of (ready ∷ []) s ≡ false → s ≡ ready → ⊥
unready {s} h e = clash (subst (λ t. one_of (ready ∷ []) t ≡ false) e h)
  where
    clash : true ≡ false → ⊥
    clash h = cc
