-- ===== src/Hierarchy/Measure.antt =====
-- Measures of what a walk has not seen yet.
use conversation_service.Prelude.{
  ℕ, suc, ◌+◌, ◌≤◌, ◌<◌, ◌≡◌, true, false, List, [], ◌∷◌, arith, if◌then◌else◌, length, contains,
}
use conversation_service.Hierarchy.{Hierarchy, children_of, waiting}

-- How many of the keys are not in `seen`.
unfoldable pub unseen : List ℕ → List ℕ → ℕ
unseen seen [] = 0
unseen seen (k ∷ keys) = let rest = unseen seen keys in if contains k seen then rest else suc rest

pub unseen-cons-le : (c : ℕ) (seen keys : List ℕ) → unseen (c ∷ seen) keys ≤ unseen seen keys
unfolding unseen
unseen-cons-le c seen [] = omega arith
unseen-cons-le c seen (k ∷ keys) = ground (arith, unseen-cons-le c seen keys)

pub unseen-cons-lt :
    (c : ℕ) (seen keys : List ℕ)
    → contains c keys ≡ true
    → contains c seen ≡ false
    → unseen (c ∷ seen) keys < unseen seen keys
unfolding unseen
unseen-cons-lt c seen [] h k = cc
unseen-cons-lt c seen (j ∷ keys) h k =
    ground (arith, unseen-cons-le c seen keys, unseen-cons-lt c seen keys)

pub waiting-cons-le :
    (h : Hierarchy) (c : ℕ) (seen keys : List ℕ) → waiting h (c ∷ seen) keys ≤ waiting h seen keys
unfolding waiting
waiting-cons-le h c seen [] = omega arith
waiting-cons-le h c seen (k ∷ keys) = ground (arith, waiting-cons-le h c seen keys)

pub waiting-cons :
    (h : Hierarchy) (c : ℕ) (seen keys : List ℕ)
    → contains c keys ≡ true
    → contains c seen ≡ false
    → waiting h (c ∷ seen) keys + length (children_of h c) ≤ waiting h seen keys
unfolding waiting
waiting-cons h c seen [] p q = cc
waiting-cons h c seen (k ∷ keys) p q =
    ground (arith, waiting-cons-le h c seen keys, waiting-cons h c seen keys)
