-- ===== src/MessageService/Pending.antt =====
-- The pending assistant row and its timeout marker: `_open_pending_response`,
-- `_discard_pending_response`, `_soft_delete_placeholder`, `_register_pending_response` and
-- `clear_pending_response` of app/services/message_service.py.
use conversation_service.Prelude.{
  ◌+◌, not, ◌||◌, Option, none, some, List, [], ◌∷◌, ltb, ◌==◌, if◌then◌else◌,
}
use conversation_service.Model.{Uuid, Time, assistant, pending}
use conversation_service.State.{
  Marker, World, marker_set, marker_zadd, marker_delete, marker_zrem, Env,
}
use conversation_service.Errors.{pending_registration, Method, ◌>>◌, return, fail, except}
use conversation_service.Messages
use conversation_service.MessageService.{Services, cache_on, pending_timeout, marker_grace}

-- ZREM and ZADD of the sorted set, whose entries are kept by rising score.
unfoldable pub zrem : Uuid → List (Uuid × Time) → List (Uuid × Time)
zrem m [] = []
zrem m ((j, score) ∷ z) = let rest = zrem m z in if j == m then rest else (j, score) ∷ rest

zinsert : Uuid → Time → List (Uuid × Time) → List (Uuid × Time)
zinsert m score [] = (m, score) ∷ []
zinsert m score ((j, s) ∷ z) =
    let rest = zinsert m score z in if ltb score s then (m, score) ∷ (j, s) ∷ z else (j, s) ∷ rest

unfoldable pub zadd : Uuid → Time → List (Uuid × Time) → List (Uuid × Time)
unfolding zrem zinsert
zadd m score z = zinsert m score (zrem m z)

abbrev pub set_marker : Uuid → Option Marker → World → World
set_marker m k w = record w { marker = λ j. if j == m then k else w.marker j }

module _ (env : Env) (svc : Services) where
  -- An exception is caught and logged; without a Redis client it is an `AttributeError`.
  unfoldable pub clear_pending_response : Uuid → World → World
  clear_pending_response m w =
      if not (cache_on env svc) || env.down marker_delete
      then w
      else if env.down marker_zrem
      then set_marker m none w
      else record (set_marker m none w) { deadlines = zrem m w.deadlines }

  unfoldable pub register_pending_response : Uuid → Uuid → Method World (Unit {0})
  register_pending_response cid m w =
      let k : Marker = record {
        conversation_id = cid;
        expires_at = env.now + pending_timeout + marker_grace;
      } in
      let w' = set_marker m (some k) w in
      if not (cache_on env svc)
      then fail pending_registration w
      else if env.down marker_set
      then fail pending_registration (clear_pending_response m w)
      else if env.down marker_zadd
      then fail pending_registration (clear_pending_response m w')
      else return tt (record w' { deadlines = zadd m (env.now + pending_timeout) w.deadlines })

  -- Best effort: an exception of the delete is logged.
  unfoldable pub soft_delete_placeholder : Uuid → Uuid → World → World
  soft_delete_placeholder cid m w = (Messages.delete env cid m w).1

  unfoldable pub open_pending_response : Uuid → Uuid → Method World (Unit {0})
  unfolding register_pending_response soft_delete_placeholder
  open_pending_response cid m = do
    Messages.create_message_direct env cid m assistant [] pending []
    λ w.
        except (register_pending_response cid m w)
          (λ e w'. fail e (soft_delete_placeholder cid m w'))

  unfoldable pub discard_pending_response : Uuid → Uuid → World → World
  unfolding clear_pending_response soft_delete_placeholder
  discard_pending_response cid m w = clear_pending_response m (soft_delete_placeholder cid m w)
