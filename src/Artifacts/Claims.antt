-- ===== src/Artifacts/Claims.antt =====
-- The lease of an artifact, and a second claim of it.
use conversation_service.Prelude.{
  ◌+◌, ◌≤◌, ◌≡◌, refl, sym, subst, ap, if◌then◌else◌, ◌∙◌, Bool, true, false, ◌&&◌, Option, none,
  some, List, [], ◌∷◌, arith, Bool-cases, inl, inr, ==_iff, ◌||◌, contains, Unique,
}
use mathlib.Core.List.{map}
use conversation_service.Model.{Uuid, Time}
use conversation_service.Errors.{Result, ok, raised, storage}
use conversation_service.Artifacts.{Artifact, Registry, Host, call, artifact_lease_seconds, seconds}
use conversation_service.Artifacts.Table.{
  claim, transaction, update, returned, update_where, claimable, has_id,
}

abbrev pub ids_of : List Artifact → List Uuid
ids_of rows = map (λ a. a.artifact_id) rows

and_false : (a b : Bool) → a ≡ false → (a && b) ≡ false
and_false true b h = cc
and_false false b h = refl

-- No row has the id.
returned-absent :
    (i : Uuid) (test : Artifact → Bool) (values : Artifact → Artifact) (rows : List Artifact)
    → contains i (ids_of rows) ≡ false
    → returned (λ a. has_id i a && test a) values rows ≡ none
unfolding returned
returned-absent i test values [] h = refl
returned-absent i test values (a ∷ rows) h = elim (Bool-cases (has_id i a)) [
  | inl y ↦ absurd (clash h y)
  | inr n ↦ rw n (returned-absent i test values rows (rest h))
]
  where
    clash : (has_id i a || contains i (ids_of rows)) ≡ false → has_id i a ≡ true → ⊥
    clash p q = ground (arith, p, q)

    rest : (has_id i a || contains i (ids_of rows)) ≡ false → contains i (ids_of rows) ≡ false
    rest p = ground (arith, p)

ids_of-update_where :
    (cond : Artifact → Bool) (values : Artifact → Artifact) (rows : List Artifact)
    → ((a : Artifact) → (values a).artifact_id ≡ a.artifact_id)
    → ids_of (update_where cond values rows) ≡ ids_of rows
unfolding update_where
ids_of-update_where cond values [] ids = refl
ids_of-update_where cond values (a ∷ rows) ids =
    let rest = ids_of-update_where cond values rows ids in
    elim (Bool-cases (cond a)) [ inl y ↦ rw (y, ids a, rest) refl | inr n ↦ rw (n, rest) refl ]

abbrev leased : Time → Artifact → Artifact
leased until a = record a { lease_until = some until }

module _ (i : Uuid) (test test' : Artifact → Bool) (until until' : Time)
    (over : (a : Artifact) → test' (leased until a) ≡ false) where
  -- The row that an update returned is not returned again.
  returned-returned :
      (rows : List Artifact) (b : Artifact)
      → Unique (ids_of rows)
      → returned (λ a. has_id i a && test a) (leased until) rows ≡ some b
      → returned
          (λ a. has_id i a && test' a)
          (leased until')
          (update_where (λ a. has_id i a && test a) (leased until) rows)
        ≡ none
  unfolding returned update_where
  returned-returned [] b u e = refl
  returned-returned (a ∷ rows) b u e = elim (Bool-cases (has_id i a)) [
    | inr n ↦ rw (n, n) (returned-returned rows b u.1 (skip (test a) (leased until a) n e))
    | inl y ↦
        let own : a.artifact_id ≡ i = (==_iff a.artifact_id i).0 y in
        let gone : contains i (ids_of rows) ≡ false =
          subst (λ k. contains k (ids_of rows) ≡ false) own u.0 in
        elim (Bool-cases (test a)) [
          | inl t ↦
              rw (y, t, over a, y)
                (returned-absent i test' (leased until') _ (
                  ap (contains i) (
                    ids_of-update_where (λ a. has_id i a && test a) (leased until) rows (λ x. refl))
                  ∙ gone))
          | inr f ↦ absurd (
              nothing (tail (test a) (leased until a) f e)
                (returned-absent i test (leased until) rows gone))
        ]
  ]
    where
      nothing : {o : Option Artifact} → o ≡ some b → o ≡ none → ⊥
      nothing p q = cc

      skip :
          (t : Bool) (c : Artifact)
          → has_id i a ≡ false
          → (if has_id i a && t
              then some c
              else returned (λ a. has_id i a && test a) (leased until) rows)
            ≡ some b
          → returned (λ a. has_id i a && test a) (leased until) rows ≡ some b
      skip t c n e = ground (arith, n, e)

      tail :
          (t : Bool) (c : Artifact)
          → t ≡ false
          → (if has_id i a && t
              then some c
              else returned (λ a. has_id i a && test a) (leased until) rows)
            ≡ some b
          → returned (λ a. has_id i a && test a) (leased until) rows ≡ some b
      tail t c n e = ground (arith, n, e)

abbrev lease_end : Host → Registry → Time
lease_end host s = host.now s.tick + seconds artifact_lease_seconds

module _ (host : Host) (i : Uuid) where
  abbrev free : Registry → Artifact → Bool
  free s a = has_id i a && claimable (host.now s.tick) a

  -- A claim that returned a row has leased it.
  claim-leased :
      (s : Registry) (a : Artifact)
      → (claim host i s).0 ≡ ok (some a)
      → (returned (free s) (leased (lease_end host s)) (host.others s.tick s).artifacts ≡ some a)
        × ((claim host i s).1.artifacts
            ≡ update_where (free s) (leased (lease_end host s)) (host.others s.tick s).artifacts)
  unfolding claim transaction update call
  claim-leased s a e = elim (Bool-cases (host.down s.tick)) [
    | inl d ↦ absurd (refused (rw (d, claim, transaction, update, call) refl) e)
    | inr d ↦ (
      value (sym (rw (d, claim, transaction, update, call) refl) ∙ e),
      rw (d, claim, transaction, update, call) refl,
    )
  ]
    where
      refused : {o : Result (Option Artifact)} → o ≡ raised storage → o ≡ ok (some a) → ⊥
      refused p q = cc

      value :
          {o : Option Artifact}
          → ◌≡◌ {A = Result (Option Artifact)} (ok o) (ok (some a))
          → o ≡ some a
      value p = cc

  claim_result :
      (t : Registry)
      → host.down t.tick ≡ false
      → (claim host i t).0
        ≡ ok (returned (free t) (leased (lease_end host t)) (host.others t.tick t).artifacts)
  unfolding claim transaction update call
  claim_result t up = rw (up, claim, transaction, update, call) refl

  -- A claim that returned the row leases the artifact for 60 seconds: until then, and as long as
  -- nobody else has written the table in between, any other claim of it that reaches the database
  -- returns no row. The ids of the table, its primary key, are unique.
  pub claim_exclusive :
      (s t : Registry) (a : Artifact)
      → Unique (ids_of (host.others s.tick s).artifacts)
      → (claim host i s).0 ≡ ok (some a)
      → (host.others t.tick t).artifacts ≡ (claim host i s).1.artifacts
      → host.now t.tick ≤ lease_end host s
      → host.down t.tick ≡ false
      → (claim host i t).0 ≡ ok none
  claim_exclusive s t a unique first same soon up =
      let (found, after) = claim-leased s a first in
      let none_left =
        returned-returned i (claimable (host.now s.tick)) (claimable (host.now t.tick))
          (lease_end host s) (lease_end host t) (λ x. ground arith) (host.others s.tick s).artifacts
          a unique found in
      claim_result t up
      ∙ ap ok (ap (returned (free t) (leased (lease_end host t))) (same ∙ after) ∙ none_left)
