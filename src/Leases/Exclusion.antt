-- ===== src/Leases/Exclusion.antt =====
-- Who holds a bucket, over any calls of the workers.
use conversation_service.Prelude.{
  ℕ, ◌≡◌, sym, subst, ap, ◌∙◌, Bool, true, false, none, some, List, [], ◌∷◌, arith, ◌==◌, ==_iff,
  Bool-cases, Option-cases, inl, inr, contains,
}
use conversation_service.Leases.{
  WorkerId, Leases, owns, discard, acquire_lock, renew_lock, release_lock,
}

-- The calls of the workers, one at a time, in any order.
pub data Step : Leases → Leases → Type 0 where
  acquire :
      {s : Leases} (raises : Bool) (x : WorkerId) (b : ℕ) → Step s (acquire_lock raises x b s).1
  renew : {s : Leases} (raises : Bool) (x : WorkerId) (b : ℕ) → Step s (renew_lock raises x b s)
  release : {s : Leases} (raises : Bool) (x : WorkerId) (b : ℕ) → Step s (release_lock raises x b s)

abbrev pub start : Leases
start = record { owner = λ b. none; locked_buckets = λ x. [] }

pub data Reachable : Leases → Type 0 where
  initial : Reachable start
  next : {s t : Leases} → Reachable s → Step s t → Reachable t

-- A worker's own set holds leases that it owns.
abbrev pub IsOwned : Leases → Type 0
IsOwned s =
    (x : WorkerId) (b : ℕ) → contains b (s.locked_buckets x) ≡ true → owns x (s.owner b) ≡ true

contains-discard :
    (b c : ℕ) (bs : List ℕ)
    → contains b (discard c bs) ≡ true
    → (contains b bs ≡ true) × ((b == c) ≡ false)
contains-discard b c [] h = cc
contains-discard b c (d ∷ ds) h =
    ground (arith, contains-discard b c ds, ==_iff b c, ==_iff d c, ==_iff b d)

acquire_lock-IsOwned :
    (raises : Bool) (x : WorkerId) (b : ℕ) (s : Leases)
    → IsOwned s
    → IsOwned (acquire_lock raises x b s).1
unfolding acquire_lock
acquire_lock-IsOwned raises x b s inv y c h =
    let old = inv y c in
    elim (Option-cases (s.owner b)) [
      | inl e ↦ ground (arith, e, ==_iff y x, ==_iff c b, ==_iff b c, ==_iff x y)
      | inr (o, e) ↦ ground (arith, e)
    ]

renew_lock-IsOwned :
    (raises : Bool) (x : WorkerId) (b : ℕ) (s : Leases)
    → IsOwned s
    → IsOwned (renew_lock raises x b s)
unfolding renew_lock
renew_lock-IsOwned raises x b s inv y c h =
    let old = inv y c in
    let kept = contains-discard c b (s.locked_buckets x) in ground (arith, ==_iff y x)

release_lock-IsOwned :
    (raises : Bool) (x : WorkerId) (b : ℕ) (s : Leases)
    → IsOwned s
    → IsOwned (release_lock raises x b s)
unfolding release_lock
release_lock-IsOwned raises x b s inv y c h =
    let old = inv y c in
    let kept = contains-discard c b (s.locked_buckets x) in
    let mine = inv x c in
    elim (Option-cases (s.owner b)) [
      | inl e ↦ ground (arith, e)
      | inr (o, e) ↦ elim (Bool-cases (c == b)) [
        | inl same_bucket ↦
            let same : c ≡ b = (==_iff c b).0 same_bucket in
            let here : s.owner c ≡ some o = ap s.owner same ∙ e in
            ground (arith, e, here, ==_iff o x, ==_iff o y, ==_iff y x)
        | inr other ↦ ground (arith, e, ==_iff y x)
      ]
    ]

Reachable-IsOwned : {s : Leases} → Reachable s → IsOwned s
Reachable-IsOwned initial = λ x b h. cc
Reachable-IsOwned (next {s} r (acquire raises x b)) =
    acquire_lock-IsOwned raises x b s (Reachable-IsOwned r)
Reachable-IsOwned (next {s} r (renew raises x b)) =
    renew_lock-IsOwned raises x b s (Reachable-IsOwned r)
Reachable-IsOwned (next {s} r (release raises x b)) =
    release_lock-IsOwned raises x b s (Reachable-IsOwned r)

-- After any calls of any workers in any order, whichever of them raise: two workers that both count
-- a bucket among theirs are one worker. No lease expires on the way.
pub exclusive :
    (s : Leases) (x y : WorkerId) (b : ℕ)
    → Reachable s
    → contains b (s.locked_buckets x) ≡ true
    → contains b (s.locked_buckets y) ≡ true
    → x ≡ y
exclusive s x y b r hx hy =
    let px = Reachable-IsOwned r x b hx in
    let py = Reachable-IsOwned r y b hy in
    elim (Option-cases (s.owner b)) [
      | inl e ↦ cc
      | inr (o, e) ↦
          sym ((==_iff o x).0 (subst (λ z. owns x z ≡ true) e px))
          ∙ (==_iff o y).0 (subst (λ z. owns y z ≡ true) e py)
    ]
