-- ===== src/Outbox.antt =====
-- app/repositories/outbox_repository.py, and `process_bucket` of app/workers/outbox_worker.py and of
-- app/workers/retry_worker.py. The outbox is kept in the order of the event ids, which is the
-- clustering order of each bucket. `accepts` tells for which events the publish call returns, and
-- `marks` for which events the update does; `fetches` whether the query does. The bucket leases are
-- not modelled.
pub mod Order
use conversation_service.Prelude.{
  ℕ, ◌+◌, ◌-◌, Bool, true, false, not, ◌&&◌, List, [], ◌∷◌, ◌++◌, ltb, ◌==◌, if◌then◌else◌, take,
  keep,
}
use mathlib.Core.List.{map}
use conversation_service.Model.{Uuid, Time}
use conversation_service.State.{World, OutboxEvent, Delivery}

abbrev pub is_entry : ℕ → Uuid → OutboxEvent → Bool
is_entry bucket event_id e = (e.bucket == bucket) && (e.event_id == event_id)

abbrev pub waiting : ℕ → OutboxEvent → Bool
waiting bucket e = (e.bucket == bucket) && not e.published

unfoldable pub fetch_unpublished : ℕ → ℕ → World → List OutboxEvent
fetch_unpublished bucket limit w = take limit (keep (waiting bucket) w.outbox)

abbrev pub set_published : ℕ → Uuid → OutboxEvent → OutboxEvent
set_published bucket event_id e =
    if is_entry bucket event_id e then record e { published = true } else e

unfoldable pub mark_published : ℕ → Uuid → World → World
mark_published bucket event_id w = record w {
  outbox = map (set_published bucket event_id) w.outbox;
}

abbrev pub delivery : OutboxEvent → Delivery
delivery e = record { topic = e.event_type; key = e.payload.conversation_id; value = e.payload }

abbrev pub publish : OutboxEvent → World → World
publish e w = record w { broker = w.broker ++ delivery e ∷ [] }

module _ (accepts marks : Uuid → Bool) where
  -- The loop of the outbox worker, which stops at the first exception.
  unfoldable pub publish_all : List OutboxEvent → World → World
  publish_all [] w = w
  publish_all (e ∷ es) w =
      let rest = publish_all es (mark_published e.bucket e.event_id (publish e w)) in
      if not (accepts e.event_id) then w else if not (marks e.event_id) then publish e w else rest

  unfoldable pub process_bucket : Bool → ℕ → World → World
  unfolding publish_all fetch_unpublished
  process_bucket fetches bucket w =
      if fetches then publish_all (fetch_unpublished bucket 200 w) w else w

  -- The loop of the retry worker: it skips the young events, and goes on after an exception.
  unfoldable pub retry_all : Time → Time → List OutboxEvent → World → World
  retry_all now threshold [] w = w
  retry_all now threshold (e ∷ es) w =
      let skip = retry_all now threshold es w in
      let unmarked = retry_all now threshold es (publish e w) in
      let done = retry_all now threshold es (mark_published e.bucket e.event_id (publish e w)) in
      if ltb (now - e.created_at) threshold
      then skip
      else if not (accepts e.event_id)
      then skip
      else if not (marks e.event_id)
      then unmarked
      else done

  unfoldable pub retry_bucket : Bool → Time → Time → ℕ → World → World
  unfolding retry_all fetch_unpublished
  retry_bucket fetches now threshold bucket w =
      if fetches then retry_all now threshold (fetch_unpublished bucket 100 w) w else w
