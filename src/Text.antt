-- ===== src/Text.antt =====
-- Python's `str` as the list of its code points: `strip`, slices, truth.
use conversation_service.Prelude.{
  ℕ, ◌≤◌, Bool, true, false, ◌&&◌, ◌||◌, [], ◌∷◌, leb, ◌==◌, if◌then◌else◌, length, take,
  length-take-le,
}
use mathlib.Core.List.{reverse}
use conversation_service.Model.{Text}

-- `str.isspace` of one character, which `strip` removes.
unfoldable pub is_space : ℕ → Bool
is_space c =
    (leb 9 c && leb c 13)
    || (leb 28 c && leb c 32)
    || c == 133
    || c == 160
    || c == 5760
    || (leb 8192 c && leb c 8202)
    || c == 8232
    || c == 8233
    || c == 8239
    || c == 8287
    || c == 12288

unfoldable pub lstrip : Text → Text
lstrip [] = []
lstrip (c ∷ cs) = let rest = lstrip cs in if is_space c then rest else c ∷ cs

unfoldable pub strip : Text → Text
unfolding lstrip
strip s = reverse (lstrip (reverse (lstrip s)))

abbrev pub is_empty : Text → Bool
is_empty [] = true
is_empty (c ∷ cs) = false

abbrev pub text_eq : Text → Text → Bool
text_eq [] [] = true
text_eq (c ∷ cs) (d ∷ ds) = c == d && text_eq cs ds
text_eq _ _ = false

-- `s.strip()[:n]`
abbrev pub clip : ℕ → Text → Text
clip n s = take n (strip s)

pub length-clip-le : (n : ℕ) (s : Text) → length (clip n s) ≤ n
length-clip-le n s = length-take-le n (strip s)
