-- ===== src/Ownership.antt =====
-- The stream ownership of app/services/stream_service.py: `register_ownership`, `renew_ownership` and
-- `release_ownership` over the keys `stream:<conversation_id>`, each with the time at which Redis
-- drops it. A pod is told by its id. An exception of a call is logged, and the call has no effect.
pub mod Release
use conversation_service.Prelude.{
  ℕ, ◌+◌, Bool, true, false, not, ◌&&◌, ◌||◌, Option, none, some, ltb, ◌==◌, if◌then◌else◌,
}
use conversation_service.Model.{Uuid, Time}

abbrev pub PodId : Type 0
PodId = ℕ

pub record Claim : Type 0 where
  pub pod_id : PodId
  pub expires_at : Time

abbrev pub Claims : Type 0
Claims = Uuid → Option Claim

-- STREAM_OWNERSHIP_TTL_SECONDS is the parameter `ttl`.
pub record Redis : Type 0 where
  pub connected : Bool
  pub set_fails : Bool
  pub expire_fails : Bool
  pub get_fails : Bool
  pub delete_fails : Bool
  pub now : Time
  pub ttl : Time

abbrev pub put_claim : Uuid → Option Claim → Claims → Claims
put_claim cid v claims = λ c. if c == cid then v else claims c

-- A key that has expired is not there.
abbrev pub current : Time → Option Claim → Option Claim
current now none = none
current now (some k) = if ltb now k.expires_at then some k else none

abbrev pub is_owner : PodId → Option Claim → Bool
is_owner p none = false
is_owner p (some k) = k.pod_id == p

unfoldable pub register_ownership : Redis → PodId → Uuid → Claims → Claims
register_ownership r p cid claims =
    if not r.connected || r.set_fails
    then claims
    else put_claim cid (some (record { pod_id = p; expires_at = r.now + r.ttl })) claims

-- EXPIRE acts on the key whoever owns it, and on no key that is not there.
abbrev pub extended : Time → Option Claim → Option Claim
extended until none = none
extended until (some k) = some (record k { expires_at = until })

unfoldable pub renew_ownership : Redis → Uuid → Claims → Claims
renew_ownership r cid claims =
    if not r.connected || r.expire_fails
    then claims
    else put_claim cid (extended (r.now + r.ttl) (current r.now (claims cid))) claims

unfoldable pub release_ownership : Redis → PodId → Uuid → Claims → Claims
release_ownership r p cid claims =
    if not r.connected || r.get_fails
    then claims
    else if is_owner p (current r.now (claims cid)) && not r.delete_fails
    then put_claim cid none claims
    else claims
