-- ===== src/Idempotency/Claims.antt =====
-- Repeated requests under one key.
use conversation_service.Prelude.{◌≡◌, true, false, some, arith}
use conversation_service.Idempotency.{Entry, Key, Keys, Client, claim_key}

-- Redis answers every call.
pub record Works (c : Client) : Type 0 where
  pub connected : c.connected ≡ true
  pub sets : c.set_fails ≡ false
  pub gets : c.get_fails ≡ false
  pub deletes : c.delete_fails ≡ false

claim_held :
    (c : Client) (key : Key) (keys : Keys) (v : Entry)
    → Works c
    → keys key ≡ some v
    → (claim_key c key keys).0 ≡ some v
unfolding claim_key
claim_held c key keys v works e =
    let on = works.connected in let s = works.sets in let g = works.gets in ground arith
