-- ===== src/Stream.antt =====
-- app/services/stream_service.py: the replay log of a conversation and its live channel. Redis gives
-- the entries of a log rising ids, here their places from 1 on; the trimming and the expiry of a log
-- are not modelled.
pub mod Replay
use conversation_service.Prelude.{
  ℕ, ◌+◌, Bool, true, false, not, ◌&&◌, ◌||◌, Option, none, some, List, [], ◌∷◌, ◌++◌, ltb, ◌==◌,
  if◌then◌else◌, length, keep, any,
}
use conversation_service.Model.{Uuid}
use conversation_service.State.{
  StreamEvent, StreamStatus, completed, failed, chunk, World, log_append, log_expire, log_read,
  publish, Env,
}

abbrev pub is_completed : StreamEvent → Bool
is_completed e = elim e.status [ completed ↦ true | _ ↦ false ]

abbrev pub is_failed : StreamEvent → Bool
is_failed e = elim e.status [ failed ↦ true | _ ↦ false ]

module _ (env : Env) where
  -- XADD: the log without the new entry if the call raises, and the id that the live event carries.
  abbrev append_log : Uuid → StreamEvent → World → World
  append_log cid e w =
      if env.down log_append
      then w
      else record w { event_log = λ c. if c == cid then w.event_log c ++ e ∷ [] else w.event_log c }

  abbrev pub live_id : Uuid → World → Option ℕ
  live_id cid w =
      if env.down log_append || env.down log_expire
      then none
      else some (length (w.event_log cid) + 1)

  -- Neither exception leaves the method.
  unfoldable pub publish_token : Uuid → StreamEvent → World → World
  publish_token cid e w =
      let logged = append_log cid e w in
      let live : StreamEvent = record e { event_id = live_id cid w } in
      if not env.redis
      then w
      else if env.down publish
      then logged
      else record logged { streamed = w.streamed ++ live ∷ [] }

-- The events of one message after `since`, each with its id, from the place `i` on.
unfoldable pub read_log : Uuid → ℕ → ℕ → List StreamEvent → List StreamEvent
read_log m since i [] = []
read_log m since i (e ∷ es) =
    let rest = read_log m since (i + 1) es in
    if ltb since i && (e.message_id == m) then record e { event_id = some i } ∷ rest else rest

-- `since`: 0 for all of the log.
unfoldable pub replay : Env → Uuid → Uuid → ℕ → World → List StreamEvent
unfolding read_log
replay env cid m since w =
    let events = read_log m since 1 (w.event_log cid) in
    if not env.redis || env.down log_read
    then []
    else if any is_completed events
    then keep (λ e. not (is_failed e)) events
    else events
