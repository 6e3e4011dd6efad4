-- ===== src/Helpers/After.antt =====
-- `uuidv7_after`
use conversation_service.Prelude.{
  ℕ, zero, suc, ◌+◌, ◌-◌, ◌^◌, ◌<◌, ◌≡◌, some, arith, Option-cases, inl, inr,
}
use conversation_service.Model.{Uuid}
use conversation_service.Helpers.{after_loop, uuidv7_after}

after_loop_greater :
    (rounds : ℕ) (candidate : ℕ → Uuid) (i floor : ℕ) {id : Uuid}
    → after_loop rounds candidate i floor ≡ some id
    → floor < id
unfolding after_loop
after_loop_greater zero candidate i floor h = cc
after_loop_greater (suc rounds) candidate i floor {id} h =
    ground (arith, after_loop_greater rounds candidate (i + 1) floor {id = id})

-- The id allocated for a reply is greater than the id of the message it answers, whatever ids the
-- clock and the random source give, if that id is not the greatest UUID.
pub lt-uuidv7_after :
    (candidate : ℕ → Uuid) (floor : Uuid)
    → floor < 2 ^ 128 - 1
    → floor < uuidv7_after candidate floor
unfolding uuidv7_after
lt-uuidv7_after candidate floor h = elim (Option-cases (after_loop 64 candidate 0 floor)) [
  | inl e ↦ rw (e, uuidv7_after) (omega arith)
  | inr (id, e) ↦ rw (e, uuidv7_after) (after_loop_greater 64 candidate 0 floor e)
]
