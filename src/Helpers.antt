-- ===== src/Helpers.antt =====
-- app/utils/helpers.py: UUIDv7 ids. The clock and `os.urandom` are arguments: the millisecond time,
-- and the ten random bytes as a function of the index; `uuidv7_after` takes the ids that its calls
-- of `uuidv7` return.
pub mod Layout
pub mod After
use Prim.Native.Nat.{bit_and, bit_or, min}
use conversation_service.Prelude.{
  ℕ, zero, suc, ◌+◌, ◌-◌, ◌*◌, ◌^◌, Option, none, some, ltb, if◌then◌else◌, List, [], ◌∷◌,
}
use conversation_service.Model.{Uuid}

-- `uuid.UUID(bytes=…).int`: the bytes, the most significant first.
unfoldable pub from_bytes : ℕ → List ℕ → ℕ
from_bytes acc [] = acc
from_bytes acc (b ∷ bs) = from_bytes (acc * 256 + b) bs

-- The ten bytes after the timestamp: version 7 in byte 6, variant 2 in byte 8.
unfoldable pub tail_bytes : (ℕ → ℕ) → List ℕ
tail_bytes rand =
    bit_or (bit_and (rand 0) 0x0F) 0x70
    ∷ rand 2
    ∷ bit_or (bit_and (rand 1) 0x3F) 0x80
    ∷ rand 3
    ∷ rand 4
    ∷ rand 5
    ∷ rand 6
    ∷ rand 7
    ∷ rand 8
    ∷ rand 9
    ∷ []

-- `none`: the `OverflowError` of `to_bytes(6)`.
unfoldable pub uuidv7 : ℕ → (ℕ → ℕ) → Option Uuid
unfolding from_bytes tail_bytes
uuidv7 timestamp_ms rand =
    if ltb timestamp_ms (2 ^ 48) then some (from_bytes timestamp_ms (tail_bytes rand)) else none

-- The `for _ in range(64)` loop, with the rounds left; `none`: no candidate was greater.
unfoldable pub after_loop : ℕ → (ℕ → Uuid) → ℕ → Uuid → Option Uuid
after_loop zero candidate i floor = none
after_loop (suc rounds) candidate i floor =
    let next = after_loop rounds candidate (i + 1) floor in
    if ltb floor (candidate i) then some (candidate i) else next

unfoldable pub uuidv7_after : (ℕ → Uuid) → Uuid → Uuid
unfolding after_loop
uuidv7_after candidate floor = elim (after_loop 64 candidate 0 floor) [
  | some id ↦ id
  | none ↦ min (floor + 1) (2 ^ 128 - 1)
]
