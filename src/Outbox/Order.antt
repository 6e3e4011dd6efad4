-- ===== src/Outbox/Order.antt =====
-- The order and the completeness of what the outbox worker publishes.
use conversation_service.Prelude.{
  ℕ, ◌≡◌, refl, sym, subst, ap, ◌∙◌, Bool, true, false, ◌||◌, inl, inr, All, if◌then◌else◌, List,
  [], ◌∷◌, ◌++◌, arith, Bool-cases, any,
}
use mathlib.Core.List.{map, append_assoc, append-nil}
use conversation_service.Model.{Uuid}
use conversation_service.State.{World, OutboxEvent}
use conversation_service.Outbox.{
  is_entry, fetch_unpublished, set_published, mark_published, delivery, publish, publish_all,
  process_bucket,
}

-- Whether an event is one of `done`.
abbrev pub is_one_of : List OutboxEvent → OutboxEvent → Bool
is_one_of done x = any (λ e. is_entry e.bucket e.event_id x) done

-- The events of `done` are marked as published, and no others.
abbrev pub with_marks : List OutboxEvent → OutboxEvent → OutboxEvent
with_marks done x = if is_one_of done x then record x { published = true } else x

-- Why a pass ends before `rest`, and what it published of `rest` without a mark.
pub data Stop (accepts marks : Uuid → Bool) : List OutboxEvent → List OutboxEvent → Type 0 where
  all_done : Stop accepts marks [] []
  refused :
      {e : OutboxEvent} {rest : List OutboxEvent}
      → accepts e.event_id ≡ false
      → Stop accepts marks (e ∷ rest) []
  unmarked :
      {e : OutboxEvent} {rest : List OutboxEvent}
      → accepts e.event_id ≡ true
      → marks e.event_id ≡ false
      → Stop accepts marks (e ∷ rest) (e ∷ [])

-- What a pass over `es` did. The events `done`, for which both calls returned, were published in
-- their order and marked; then the events ended or one failed.
pub record Pass (accepts marks : Uuid → Bool) (es : List OutboxEvent) (w v : World) : Type 0 where
  pub done : List OutboxEvent
  pub rest : List OutboxEvent
  pub last : List OutboxEvent
  pub whole : es ≡ done ++ rest
  pub succeeded : All (λ e. (accepts e.event_id ≡ true) × (marks e.event_id ≡ true)) done
  pub stops : Stop accepts marks rest last
  pub sent : v.broker ≡ w.broker ++ map delivery (done ++ last)
  pub marked : v.outbox ≡ map (with_marks done) w.outbox

with_marks_none : (xs : List OutboxEvent) → xs ≡ map (with_marks []) xs
with_marks_none [] = refl
with_marks_none (x ∷ xs) = ap (◌∷◌ x) (with_marks_none xs)

either_way : (b : Bool) (x : OutboxEvent) → (if b then x else x) ≡ x
either_way true x = refl
either_way false x = refl

marked_before :
    (b : Bool) (done : List OutboxEvent) (x : OutboxEvent)
    → with_marks done (if b then record x { published = true } else x)
      ≡ (if b || is_one_of done x then record x { published = true } else x)
marked_before true done x = either_way (is_one_of done x) (record x { published = true })
marked_before false done x = refl

-- Marking one event before the others is marking all of them.
with_marks-set :
    (e : OutboxEvent) (done : List OutboxEvent) (x : OutboxEvent)
    → with_marks done (set_published e.bucket e.event_id x) ≡ with_marks (e ∷ done) x
with_marks-set e done x = marked_before (is_entry e.bucket e.event_id x) done x

map-with_marks :
    (e : OutboxEvent) (done xs : List OutboxEvent)
    → map (with_marks done) (map (set_published e.bucket e.event_id) xs)
      ≡ map (with_marks (e ∷ done)) xs
map-with_marks e done [] = refl
map-with_marks e done (x ∷ xs) =
    ap (λ y. y ∷ map (with_marks done) (map (set_published e.bucket e.event_id) xs))
      (with_marks-set e done x)
    ∙ ap (◌∷◌ (with_marks (e ∷ done) x)) (map-with_marks e done xs)

module _ (accepts marks : Uuid → Bool) where
  Pass-cons :
      (e : OutboxEvent) (es : List OutboxEvent) (w : World) {v : World}
      → (accepts e.event_id ≡ true) × (marks e.event_id ≡ true)
      → Pass accepts marks es (mark_published e.bucket e.event_id (publish e w)) v
      → Pass accepts marks (e ∷ es) w v
  unfolding mark_published
  Pass-cons e es w ok p = record {
    done = e ∷ p.done;
    rest = p.rest;
    last = p.last;
    whole = ap (◌∷◌ e) p.whole;
    succeeded = (ok, p.succeeded);
    stops = p.stops;
    sent = p.sent ∙ append_assoc w.broker (delivery e ∷ []) (map delivery (p.done ++ p.last));
    marked = p.marked ∙ map-with_marks e p.done w.outbox;
  }

  publish_all_step :
      (e : OutboxEvent) (es : List OutboxEvent) (w : World)
      → accepts e.event_id ≡ true
      → marks e.event_id ≡ true
      → publish_all accepts marks (e ∷ es) w
        ≡ publish_all accepts marks es (mark_published e.bucket e.event_id (publish e w))
  unfolding publish_all
  publish_all_step e es w y m = ground arith

  publish_all-Pass :
      (es : List OutboxEvent) (w : World) → Pass accepts marks es w (publish_all accepts marks es w)
  unfolding publish_all
  publish_all-Pass [] w = record {
    done = [];
    rest = [];
    last = [];
    whole = refl;
    succeeded = tt;
    stops = all_done;
    sent = sym (append-nil w.broker);
    marked = with_marks_none w.outbox;
  }
  publish_all-Pass (e ∷ es) w = elim (Bool-cases (accepts e.event_id)) [
    | inr n ↦
        rw (n, publish_all)
          (record {
            done = [];
            rest = e ∷ es;
            last = [];
            whole = refl;
            succeeded = tt;
            stops = refused n;
            sent = sym (append-nil w.broker);
            marked = with_marks_none w.outbox;
          })
    | inl y ↦ elim (Bool-cases (marks e.event_id)) [
      | inr n ↦
          rw (y, n, publish_all)
            (record {
              done = [];
              rest = e ∷ es;
              last = e ∷ [];
              whole = refl;
              succeeded = tt;
              stops = unmarked y n;
              sent = refl;
              marked = with_marks_none w.outbox;
            })
      | inl m ↦ subst (Pass accepts marks (e ∷ es) w) (sym (publish_all_step e es w y m)) (
          Pass-cons e es w (y, m)
            (publish_all-Pass es (mark_published e.bucket e.event_id (publish e w))))
    ]
  ]

  -- One pass over a bucket publishes the events that it fetched in their order, without a gap, up to
  -- the first for which the publish call or the update fails. It marks exactly those for which both
  -- returned; an event whose update failed has been published all the same. When the query fails,
  -- nothing changes.
  pub process_bucket-Pass :
      (bucket : ℕ) (w : World)
      → Pass accepts marks
          (fetch_unpublished bucket 200 w)
          w
          (process_bucket accepts marks true bucket w)
        × (process_bucket accepts marks false bucket w ≡ w)
  unfolding process_bucket
  process_bucket-Pass bucket w = (publish_all-Pass (fetch_unpublished bucket 200 w) w, refl)
