-- ===== src/CustomModes.antt =====
-- The references to custom modes of app/models/custom_modes.py. `uuid_str` is Python's `str` of a UUID
-- and `uuid_of` what its constructor reads from the 32 digits.
pub mod Ref
pub mod Repository
pub mod Fields
pub mod Service
mod Counts
pub mod Limits
use conversation_service.Prelude.{
  ℕ, zero, suc, ◌+◌, ◌-◌, ◌*◌, ◌/◌, ◌%◌, Bool, true, false, ◌&&◌, ◌||◌, Option, none, some, List,
  [], ◌∷◌, ◌++◌, leb, ltb, ◌==◌, if◌then◌else◌, take, drop, get_or, is_some,
}
use mathlib.Core.List.{map}
use conversation_service.Model.{Uuid, Text}
use conversation_service.Strings.{codes}
use conversation_service.Text.{strip, text_eq}

abbrev pub custom_prefix : Text
custom_prefix = codes "custom:"

-- A digit of '%032x', and the hexadecimal digits of the pattern with their values.
abbrev pub hex_digit : ℕ → ℕ
hex_digit d = if ltb d 10 then 48 + d else 87 + d

abbrev pub is_hex : ℕ → Bool
is_hex c = (leb 48 c && leb c 57) || (leb 65 c && leb c 70) || (leb 97 c && leb c 102)

abbrev pub hex_value : ℕ → ℕ
hex_value c = if leb c 57 then c - 48 else if leb c 70 then c - 55 else c - 87

unfoldable pub hex : ℕ → ℕ → Text
hex zero x = []
hex (suc n) x = hex n (x / 16) ++ hex_digit (x % 16) ∷ []

unfoldable pub from_hex : ℕ → Text → ℕ
from_hex acc [] = acc
from_hex acc (c ∷ s) = from_hex (acc * 16 + hex_value c) s

unfoldable pub uuid_str : Uuid → Text
unfolding hex
uuid_str id =
    let h = hex 32 id in
    take 8 h
    ++ 45 ∷ take 4 (drop 8 h)
    ++ 45 ∷ take 4 (drop 12 h)
    ++ 45 ∷ take 4 (drop 16 h)
    ++ 45 ∷ drop 20 h

unfoldable pub custom_ref : Uuid → Text
unfolding uuid_str
custom_ref mode_id = custom_prefix ++ uuid_str mode_id

-- The pattern: the literal prefix, and five groups of digits with dashes between them.
abbrev pub literal : Text → Text → Option Text
literal [] s = some s
literal (c ∷ cs) [] = none
literal (c ∷ cs) (d ∷ s) = let rest = literal cs s in if c == d then rest else none

abbrev pub dash : Text
dash = 45 ∷ []

unfoldable pub digits : ℕ → Text → Option (Text × Text)
digits zero s = some ([], s)
digits (suc n) [] = none
digits (suc n) (c ∷ s) =
    if is_hex c
    then elim (digits n s) [ none ↦ none | some (g, rest) ↦ some (c ∷ g, rest) ]
    else none

-- The last group ends the text.
unfoldable pub groups : List ℕ → ℕ → Text → Option Text
unfolding digits
groups [] last s = elim (digits last s) [ some (g, []) ↦ some g | _ ↦ none ]
groups (n ∷ ns) last s = elim (digits n s) [
  | none ↦ none
  | some (g, rest) ↦ elim (literal dash rest) [
    | none ↦ none
    | some tail ↦ elim (groups ns last tail) [ none ↦ none | some h ↦ some (g ++ h) ]
  ]
]

abbrev pub uuid_of : Text → Uuid
uuid_of h = from_hex 0 h

unfoldable pub match_ref : Text → Option Uuid
unfolding groups
match_ref s = elim (literal custom_prefix s) [
  | none ↦ none
  | some rest ↦ elim (groups (8 ∷ 4 ∷ 4 ∷ 4 ∷ []) 12 rest) [
    | none ↦ none
    | some h ↦ some (uuid_of h)
  ]
]

unfoldable pub parse_custom_ref : Option Text → Option Uuid
unfolding match_ref
parse_custom_ref value = match_ref (strip (get_or value []))

-- `str.lower` on the characters that the prefix can meet.
abbrev pub lower : ℕ → ℕ
lower c = if leb 65 c && leb c 90 then c + 32 else c

unfoldable pub is_custom_ref : Option Text → Bool
is_custom_ref value = is_some (literal custom_prefix (map lower (strip (get_or value []))))
