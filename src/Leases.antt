-- ===== src/Leases.antt =====
-- The bucket leases of app/workers/outbox_worker.py: `acquire_lock`, one round of `renew_locks`, and
-- `release_lock`, over the keys `outbox:lock:bucket:<b>`. A lease that expires is dropped from the
-- keys, not from the worker's own set. A worker is told by its id, and each of its calls of Redis
-- may raise.
pub mod Exclusion
use conversation_service.Prelude.{
  ℕ, Bool, true, false, not, ◌&&◌, ◌||◌, Option, none, some, List, [], ◌∷◌, ◌==◌, if◌then◌else◌,
  keep, contains,
}

abbrev pub WorkerId : Type 0
WorkerId = ℕ

pub record Leases : Type 0 where
  pub owner : ℕ → Option WorkerId  -- outbox:lock:bucket:<b>
  pub locked_buckets : WorkerId → List ℕ

abbrev pub owns : WorkerId → Option WorkerId → Bool
owns x none = false
owns x (some y) = y == x

abbrev pub set_owner : ℕ → Option WorkerId → Leases → Leases
set_owner bucket o s = record s { owner = λ b. if b == bucket then o else s.owner b }

abbrev pub set_locked : WorkerId → List ℕ → Leases → Leases
set_locked x bs s = record s { locked_buckets = λ y. if y == x then bs else s.locked_buckets y }

abbrev pub discard : ℕ → List ℕ → List ℕ
discard bucket bs = keep (λ b. not (b == bucket)) bs

-- SET with NX; `raises`: the call raised, which is logged.
unfoldable pub acquire_lock : Bool → WorkerId → ℕ → Leases → Bool × Leases
acquire_lock raises x bucket s = if raises then (false, s) else elim (s.owner bucket) [
  | some y ↦ (false, s)
  | none ↦ (true, set_locked x (bucket ∷ s.locked_buckets x) (set_owner bucket (some x) s))
]

-- One bucket of a renewal: a lease that another worker holds, or nobody, is given up.
unfoldable pub renew_lock : Bool → WorkerId → ℕ → Leases → Leases
renew_lock raises x bucket s =
    if raises || owns x (s.owner bucket)
    then s
    else set_locked x (discard bucket (s.locked_buckets x)) s

unfoldable pub release_lock : Bool → WorkerId → ℕ → Leases → Leases
release_lock raises x bucket s =
    if raises || not (owns x (s.owner bucket))
    then s
    else set_locked x (discard bucket (s.locked_buckets x)) (set_owner bucket none s)
