-- ===== src/Ownership/Release.antt =====
-- The release of a claim that another pod may have taken over.
use conversation_service.Prelude.{◌<◌, ◌≡◌, true, false, none, arith, ◌==◌, ==_iff, ==_refl}
use conversation_service.Model.{Uuid}
use conversation_service.Ownership.{
  PodId, Claims, Redis, is_owner, register_ownership, release_ownership,
}

-- After another pod has taken the stream over, the release of a pod whose connection ended leaves
-- the new owner's claim alone, whichever calls fail; and if the pod was still the owner, and Redis
-- answers, it leaves no claim. The ownership lasts some time.
pub release_ownership-register_ownership :
    (r : Redis) (old new : PodId) (cid : Uuid) (claims : Claims)
    → r.connected ≡ true
    → r.set_fails ≡ false
    → 0 < r.ttl
    → (old == new) ≡ false
    → (is_owner new (release_ownership r old cid (register_ownership r new cid claims) cid) ≡ true)
      × (r.get_fails ≡ false
          → r.delete_fails ≡ false
          → release_ownership r new cid (register_ownership r new cid claims) cid ≡ none)
unfolding register_ownership release_ownership
release_ownership-register_ownership r old new cid claims on sets lasts differ = (
  ground (arith, ==_refl cid, ==_refl new, ==_iff new old, ==_iff old new),
  λ gets deletes. ground (arith, ==_refl cid, ==_refl new),
)
