-- ===== src/Idempotency.antt =====
-- app/services/idempotency_service.py: the keys `idempotency:<key>`, without their expiry. The client
-- may be missing, and a call may raise, which is caught and logged.
pub mod Claims
use conversation_service.Prelude.{
  Bool, true, false, not, ◌||◌, Option, none, some, ◌==◌, if◌then◌else◌, ℕ,
}
use conversation_service.Model.{Text}

-- The value of a key: the placeholder, or the stored JSON of a response.
pub data Entry : Type 0 where
  processing : Entry
  response : Text → Entry

abbrev pub Key : Type 0
Key = ℕ

-- Redis: the keys that are set.
abbrev pub Keys : Type 0
Keys = Key → Option Entry

abbrev pub set_key : Key → Option Entry → Keys → Keys
set_key key v keys = λ k. if k == key then v else keys k

-- SET with NX: nothing is set where a value is.
abbrev pub set_nx : Key → Keys → Keys
set_nx key keys = elim (keys key) [ none ↦ set_key key (some processing) keys | some v ↦ keys ]

-- What fails: the SET, the GET that may follow it, and the DELETE.
pub record Client : Type 0 where
  pub connected : Bool
  pub set_fails : Bool
  pub get_fails : Bool
  pub delete_fails : Bool

-- `none`: the request goes ahead.
unfoldable pub claim_key : Client → Key → Keys → Option Entry × Keys
claim_key c key keys =
    if not c.connected || c.set_fails
    then (none, keys)
    else (if c.get_fails then none else keys key, set_nx key keys)

unfoldable pub save_response : Client → Key → Text → Keys → Keys
save_response c key payload keys =
    if not c.connected || c.set_fails then keys else set_key key (some (response payload)) keys

unfoldable pub remove_lock : Client → Key → Keys → Keys
remove_lock c key keys = if not c.connected || c.delete_fails then keys else set_key key none keys
