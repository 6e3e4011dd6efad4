-- ===== src/Artifacts/Media.antt =====
-- `validate_mp4` of app/artifacts/media.py, on the bytes of the file. A file that is read here exists
-- and does not change, so its size is the number of its bytes; the digest of its chunks, in order, is
-- that of the whole.
pub mod Boxes
use conversation_service.Prelude.{
  ℕ, zero, suc, ◌+◌, ◌*◌, ◌-◌, Bool, true, false, ◌&&◌, ◌||◌, Option, none, some, List, [], ◌∷◌,
  ltb, ◌==◌, if◌then◌else◌, length, drop, take, any,
}
use mathlib.Core.Option
use conversation_service.Model.{Text}
use conversation_service.Strings.{codes}
use conversation_service.Text.{text_eq}
use conversation_service.Artifacts.{Bytes}

abbrev pub min_mp4_bytes : ℕ
min_mp4_bytes = 1024

pub record MediaInfo : Type 0 where
  pub size : ℕ
  pub sha256 : Text

-- A big-endian number.
abbrev pub be_from : ℕ → Bytes → ℕ
be_from acc [] = acc
be_from acc (b ∷ bs) = be_from (acc * 256 + b) bs

-- The size that a header gives and the least size it may have, from the eight bytes of the header
-- and the eight after them.
unfoldable pub box_bounds : ℕ → ℕ → Bytes → Bytes → Option (ℕ × ℕ)
box_bounds size pos header ext =
    let box_size = be_from 0 (take 4 header) in
    if ltb (length header) 8
    then none
    else if box_size == 1
    then if ltb (length ext) 8 then none else some (be_from 0 ext, 16)
    else if box_size == 0
    then some (size - pos, 8)
    else some (box_size, 8)

-- The loop of `_walk_boxes`: the types of the boxes from `pos` on, `some none` for `InvalidMedia`, and
-- `none` when the fuel runs out. The fuel is the number of bytes of the file and one more.
unfoldable pub boxes_from : ℕ → Bytes → ℕ → Option (Option (List Bytes))
unfolding box_bounds
boxes_from zero content pos = none
boxes_from (suc n) content pos =
    let size = length content in
    let header = take 8 (drop pos content) in
    if ltb pos size
    then elim (box_bounds size pos header (take 8 (drop (pos + 8) content))) [
      | none ↦ some none
      | some (box_size, min_size) ↦
          if ltb box_size min_size || ltb size (pos + box_size)
          then some none
          else elim (boxes_from n content (pos + box_size)) [
            | none ↦ none
            | some rest ↦ some (Option.map (λ boxes. drop 4 header ∷ boxes) rest)
          ]
    ]
    else some (some [])

abbrev pub has_type : Text → List Bytes → Bool
has_type kind boxes = any (text_eq kind) boxes

abbrev starts_with : Text → List Bytes → Bool
starts_with kind [] = false
starts_with kind (b ∷ bs) = text_eq kind b

unfoldable pub walk_boxes : Bytes → Option (List Bytes)
unfolding boxes_from
walk_boxes content = elim (boxes_from (suc (length content)) content 0) [
  | none ↦ none
  | some none ↦ none
  | some (some seen) ↦ if starts_with (codes "ftyp") seen then some seen else none
]

-- `none` for `InvalidMedia`.
unfoldable pub validate_mp4 : (Bytes → Text) → Bytes → ℕ → Option MediaInfo
unfolding walk_boxes
validate_mp4 sha256 content max_bytes =
    let size = length content in
    if ltb size min_mp4_bytes || ltb max_bytes size then none else elim (walk_boxes content) [
      | none ↦ none
      | some boxes ↦
          if has_type (codes "moov") boxes && has_type (codes "mdat") boxes
          then some (record { size = size; sha256 = sha256 content })
          else none
    ]
