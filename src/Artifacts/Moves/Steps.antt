-- ===== src/Artifacts/Moves/Steps.antt =====
-- The moves of the steps of a worker, with what the others commit.
use conversation_service.Prelude.{
  and_left, and_right, ◌+◌, ◌≤◌, ◌≡◌, refl, sym, subst, ap, ◌⊎◌, inl, inr, Bool, true, false, ◌&&◌,
  Option, none, some, List, Bool-cases, take, ==_iff,
}
use conversation_service.Model.{Uuid, Time, Text}
use conversation_service.Errors.{Result, ok, Method, continue}
use conversation_service.Errors.Ensures.{Ensures, Ensures-continue, Ensures-map}
use conversation_service.Artifacts.{
  seconds, ObjectKey, artifact_lease_seconds, backoff_seconds, Artifact, ArtifactStatus, pending,
  queued, rendering, uploading, ready, failed, terminal, active, one_of, Bytes, video_object_key,
  Registry, Host, call, artifact_max_video_bytes, artifact_max_auto_attempts,
}
use conversation_service.Artifacts.Media.{MediaInfo, validate_mp4}
use conversation_service.Artifacts.Table.{
  has_id, transaction, update, cas, release, backoff, fail_artifact, claim, claimable,
}
use conversation_service.Artifacts.Adoption.{made_ready}
use conversation_service.Artifacts.Moves.{identity_of, Verified, Edge, WorkerMove, Respects}

pub active_open : (s : ArtifactStatus) → one_of active s ≡ true → one_of terminal s ≡ false
active_open pending h = refl
active_open queued h = refl
active_open rendering h = refl
active_open uploading h = refl
active_open ready h = cc
active_open failed h = cc

failed_ready : (e : ArtifactStatus.failed ≡ ArtifactStatus.ready) → ⊥
failed_ready e = cc

pub not_ready : (s : ArtifactStatus) → one_of terminal s ≡ false → s ≡ ready → ⊥
not_ready s h e = clash (subst (λ t. one_of terminal t ≡ false) e h)
  where
    clash : true ≡ false → ⊥
    clash h = cc

module _ (host : Host) (M : Artifact → Artifact → Type 0)
    (T : List Artifact → List Artifact → Type 0) (r : Respects host M T) where
  -- Whichever way the method ended.
  abbrev pub Kept : {A : Type 0} → Registry → Result A × Registry → Type 0
  Kept {A} s m =
      Ensures {S = Registry} {A = A} (λ a v. T s.artifacts v.artifacts)
        (λ e v. T s.artifacts v.artifacts) m

  pub call-Kept : (s : Registry) → Kept s (call host s)
  unfolding call
  call-Kept s = elim (Bool-cases (host.down s.tick)) [
    | inl d ↦ rw (d, call) (record { after = r.same s.artifacts })
    | inr d ↦ rw (d, call) (record { after = r.rely s.tick s })
  ]

  pub Kept-continue :
      {A B : Type 0} {m : Result A × Registry} {f : A → Method Registry B} (s : Registry)
      → Kept s m
      → ((a : A) (v : Registry) → Kept v (f a v))
      → Kept s (continue m.0 f m.1)
  Kept-continue s p q =
      Ensures-continue p
        (λ a v h.
          Ensures-map (q a v) (λ b w k. r.then s.artifacts v.artifacts w.artifacts h k)
            (λ e w k. r.then s.artifacts v.artifacts w.artifacts h k))
        (λ e v h. h)

  pub return-Kept : {A : Type 0} (a : A) (s : Registry) → Kept s (ok a, s)
  return-Kept a s = record { after = r.same s.artifacts }

  pub transaction-Kept :
      (cond : Time → Artifact → Bool) (values : Time → Artifact → Artifact) (s : Registry)
      → ((now : Time) (x : Artifact) → cond now x ≡ true → M x (values now x))
      → Kept s (transaction host cond values s)
  unfolding transaction update
  transaction-Kept cond values s moves = Kept-continue s (call-Kept s) (λ n v. record {
    after = r.write (cond (host.now n)) (values (host.now n)) v.artifacts (moves (host.now n));
  })

  -- A compare-and-set that makes worker's moves.
  pub cas-Kept :
      (i : Uuid) (allowed : List ArtifactStatus) (values : Artifact → Artifact) (s : Registry)
      → ((now : Time) (x : Artifact)
          → x.artifact_id ≡ i
          → one_of allowed x.status ≡ true
          → WorkerMove host x (record (values x) { updated_at = now }))
      → Kept s (cas host i allowed values s)
  unfolding cas
  cas-Kept i allowed values s moves =
      transaction-Kept (λ now a. has_id i a && one_of allowed a.status)
        (λ now a. record (values a) { updated_at = now }) s
        (λ now x h.
          r.worker_move x (record (values x) { updated_at = now })
            (moves now x
              ((==_iff x.artifact_id i).0 (and_left (has_id i x) (one_of allowed x.status) h))
              (and_right (has_id i x) (one_of allowed x.status) h)))

  -- The lease is no part of the outcome.
  leased :
      (x : Artifact) (until : Option Time) → WorkerMove host x (record x { lease_until = until })
  leased x until = record {
    identity = refl;
    edge = inl refl;
    final = λ h. refl;
    verified = λ h e. absurd (not_ready x.status h e);
    attempts = inl refl;
    retries = refl;
  }

  pub release-Kept : (i : Uuid) (s : Registry) → Kept s (release host i s)
  unfolding release
  release-Kept i s =
      transaction-Kept (λ now a. has_id i a) (λ now a. record a { lease_until = none }) s
        (λ now x h. r.worker_move x _ (leased x none))

  pub backoff-Kept : (i : Uuid) (s : Registry) → Kept s (backoff host i s)
  unfolding backoff
  backoff-Kept i s =
      transaction-Kept (λ now a. has_id i a)
        (λ now a. record a { lease_until = some (now + seconds backoff_seconds) }) s
        (λ now x h. r.worker_move x _ (leased x (some (now + seconds backoff_seconds))))

  pub claim-Kept : (i : Uuid) (s : Registry) → Kept s (claim host i s)
  unfolding claim
  claim-Kept i s =
      transaction-Kept (λ now a. has_id i a && claimable now a)
        (λ now a. record a { lease_until = some (now + seconds artifact_lease_seconds) }) s
        (λ now x h. r.worker_move x _ (leased x (some (now + seconds artifact_lease_seconds))))

  -- A move of an artifact that is not finished, to a status that is not `ready`.
  pub moved :
      (x y : Artifact)
      → identity_of y ≡ identity_of x
      → one_of active x.status ≡ true
      → ((y.status ≡ x.status) ⊎ Edge x.status y.status)
      → (one_of terminal x.status ≡ false → y.status ≡ ready → Verified host y)
      → ((y.attempt_count ≡ x.attempt_count) ⊎ (y.attempt_count ≤ artifact_max_auto_attempts))
      → y.retry_count ≡ x.retry_count
      → WorkerMove host x y
  moved x y same open_yet edge verified attempts retries = record {
    identity = same;
    edge = edge;
    final = λ h. absurd (clash h (active_open x.status open_yet));
    verified = verified;
    attempts = attempts;
    retries = retries;
  }
    where
      clash : {b : Bool} → b ≡ true → b ≡ false → ⊥
      clash p q = cc

  pub fail_artifact-Kept :
      (i : Uuid) (code : Text) (s : Registry) → Kept s (fail_artifact host i code s)
  unfolding fail_artifact
  fail_artifact-Kept i code s =
      Kept-continue s
        (cas-Kept i active
          (λ a. record a {
            status = failed;
            failure_code = some (take 48 code);
            lease_until = none;
          })
          s
          (λ now x own h.
            moved x _ refl h (inr (Edge.given_up (active_open x.status h)))
              (λ n e. absurd (failed_ready e)) (inl refl) refl))
        (λ a v. return-Kept none v)

  pub made_ready-Kept :
      (i : Uuid) (allowed : List ArtifactStatus) (thumb : Option ObjectKey) (content : Bytes)
      (info : MediaInfo) (s : Registry)
      → ((t : ArtifactStatus) → one_of allowed t ≡ true → one_of active t ≡ true)
      → validate_mp4 host.sha256 content artifact_max_video_bytes ≡ some info
      → Kept s (cas host i allowed (made_ready (video_object_key i) thumb info) s)
  made_ready-Kept i allowed thumb content info s sub valid =
      cas-Kept i allowed (made_ready (video_object_key i) thumb info) s (λ now x own h.
        moved x _ refl (sub x.status h)
          (inr (Edge.completed (active_open x.status (sub x.status h))))
          (λ open_yet e. record {
            content = content;
            info = info;
            valid = valid;
            object_key = ap (λ k. some (video_object_key k)) (sym own);
            size_bytes = refl;
            checksum_sha256 = refl;
          })
          (inl refl) refl)
