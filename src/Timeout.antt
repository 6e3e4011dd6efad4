-- ===== src/Timeout.antt =====
-- `process_expired_pending` of app/workers/pending_timeout_worker.py. The redis client of the worker
-- is there: the loop around it skips the scan otherwise.
pub mod Safety
use conversation_service.Prelude.{
  ℕ, ◌+◌, Bool, true, false, ◌&&◌, Option, none, some, List, [], ◌∷◌, ltb, leb, if◌then◌else◌,
}
use conversation_service.Model.{Uuid, Time, Text, assistant, failed, is_assistant, is_sent, Message}
use conversation_service.Strings.{codes}
use conversation_service.State.{
  World, Marker, StreamEvent, zset_scan, marker_get, marker_delete, marker_zrem, Env,
}
use conversation_service.Errors.{Result, ok, raised, Method, ◌>>=◌, ◌>>◌, return}
use conversation_service.Messages
use conversation_service.Messages.{calls}
use conversation_service.MessageService.{Services, invalidate_cache}
use conversation_service.MessageService.Pending.{zrem, set_marker}
use conversation_service.Stream.{publish_token}
use conversation_service.Consumers.{failed_token}

abbrev pub timeout_message : Text
timeout_message = codes "Generation timed out: no response from the AI service."

-- `zrangebyscore(min=0, max=now_ts)`
unfoldable pub expired : Time → List (Uuid × Time) → List Uuid
expired now [] = []
expired now ((m, score) ∷ z) = let rest = expired now z in if leb score now then m ∷ rest else rest

-- A stored reply, which the worker leaves alone.
abbrev pub answered : Option Message → Bool
answered none = false
answered (some existing) = is_assistant existing.sender && is_sent existing.status

-- What GET finds: Redis drops the key at its expiry.
abbrev pub unexpired : Time → Option Marker → Option Marker
unexpired now none = none
unexpired now (some k) = if ltb now k.expires_at then some k else none

module _ (env : Env) (svc : Services) where
  abbrev pub delete_key : Uuid → Method World (Unit {0})
  delete_key m = do calls env marker_delete; λ w. return tt (set_marker m none w)

  abbrev pub remove_entry : Uuid → Method World (Unit {0})
  remove_entry m = do
    calls env marker_zrem
    λ w. return tt (record w { deadlines = zrem m w.deadlines })

  abbrev clean_up : Uuid → Method World Bool
  clean_up m = do delete_key m; remove_entry m; return false

  unfoldable pub time_out : Uuid → Uuid → Method World Bool
  time_out cid m = do
    Messages.create_message_direct env cid m assistant timeout_message failed []
    invalidate_cache env svc cid
    λ w. return tt (publish_token env cid (failed_token cid m timeout_message) w)
    delete_key m
    remove_entry m
    return true

  -- One entry; `true`: it was failed.
  unfoldable pub expire_marked : Option Marker → Uuid → Method World Bool
  unfolding time_out
  expire_marked none m = do remove_entry m; return false
  expire_marked (some marker) m = do
    existing ← Messages.get_message env marker.conversation_id m
    if answered existing then clean_up m else time_out marker.conversation_id m

  unfoldable pub process_entry : Uuid → Method World Bool
  unfolding expire_marked
  process_entry m = do calls env marker_get; λ w. expire_marked (unexpired env.now (w.marker m)) m w

-- An exception is logged, and the loop goes on with what was written.
abbrev counted : Result Bool → ℕ
counted (ok true) = 1
counted _ = 0

-- `env` is what the scan of the set meets, and `each` what the calls for an entry meet.
module _ (env : Env) (each : Uuid → Env) (svc : Services) where
  unfoldable pub process_entries : List Uuid → World → ℕ × World
  unfolding process_entry
  process_entries [] w = (0, w)
  process_entries (m ∷ ms) w =
      let (r, w1) = process_entry (each m) svc m w in
      let (n, w2) = process_entries ms w1 in (counted r + n, w2)

  unfoldable pub process_expired_pending : Time → World → ℕ × World
  unfolding process_entries expired
  process_expired_pending now w =
      if env.down zset_scan then (0, w) else process_entries (expired now w.deadlines) w
