-- ===== src/Artifacts/Media/Boxes.antt =====
-- The walk over the boxes of a video, with its fuel.
use conversation_service.Prelude.{
  ℕ, zero, suc, ◌+◌, ◌≤◌, ◌≡◌, refl, ◌||◌, Option, none, some, List, [], ◌∷◌, arith, ltb, length,
  take, drop, Bool-cases, Option-cases, inl, inr,
}
use mathlib.Core.Option
use conversation_service.Artifacts.{Bytes}
use conversation_service.Artifacts.Media.{box_bounds, boxes_from}

-- A box has at least eight bytes.
min_box :
    (size pos : ℕ) (header ext : Bytes) (n m : ℕ)
    → box_bounds size pos header ext ≡ some (n, m)
    → 8 ≤ m
unfolding box_bounds
min_box size pos header ext n m e = ground arith

-- The loop has ended: it gives one result, with `n` rounds and with any more.
abbrev pub Ended : ℕ → Bytes → ℕ → Type 0
Ended n content pos =
    (r : Option (List Bytes)) × ((m : ℕ) → n ≤ m → boxes_from m content pos ≡ some r)

-- With a round for each byte that is left and one more, the loop over the boxes ends, whatever the
-- file holds: it accepts the boxes or refuses them before its fuel is spent, and more rounds give
-- the same result.
pub boxes_from_enough :
    (n : ℕ) (content : Bytes) (pos : ℕ) → length content + 1 ≤ n + pos → 1 ≤ n → Ended n content pos
unfolding boxes_from
boxes_from_enough zero content pos hn pn = absurd (omega arith)
boxes_from_enough (suc n) content pos hn pn =
    let size = length content in
    let header = take 8 (drop pos content) in
    let ext = take 8 (drop (pos + 8) content) in
    elim (Bool-cases (ltb pos size)) [
      | inr end ↦ (some [], from_suc λ m h. rw (end, boxes_from) refl)
      | inl more ↦ elim (Option-cases (box_bounds size pos header ext)) [
        | inl e ↦ (none, from_suc λ m h. rw (more, e, boxes_from) refl)
        | inr ((box_size, min_size), e) ↦
            elim (Bool-cases (ltb box_size min_size || ltb size (pos + box_size))) [
              | inl out ↦ (none, from_suc λ m h. rw (more, e, out, boxes_from) refl)
              | inr fits ↦
                  let least = min_box size pos header ext box_size min_size e in
                  let short : pos + box_size ≤ length content = ground arith in
                  let wide : 8 ≤ box_size = ground arith in
                  let (r, same) =
                    boxes_from_enough n content (pos + box_size) (omega arith) (omega arith) in
                  (
                    Option.map (λ boxes. drop 4 header ∷ boxes) r,
                    from_suc λ m h. rw (more, e, fits, same m h, boxes_from) refl,
                  )
            ]
      ]
    ]
  where
    from_suc :
        {r : Option (List Bytes)}
        → ((m : ℕ) → n ≤ m → boxes_from (suc m) content pos ≡ some r)
        → (m : ℕ) → suc n ≤ m
        → boxes_from m content pos ≡ some r
    from_suc f zero h = absurd (omega arith)
    from_suc f (suc m) h = f m (omega arith)
