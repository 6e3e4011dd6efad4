-- ===== src/CustomModes/Fields.antt =====
-- The validation of the bodies of app/models/custom_modes.py. `str.isprintable` of a character,
-- Unicode normalisation and case folding are handed in.
use conversation_service.Prelude.{
  ℕ, Bool, true, false, ◌||◌, Option, none, some, List, [], ◌∷◌, ◌++◌, ltb, ◌==◌, if◌then◌else◌,
  keep, length, is_some,
}
use conversation_service.Model.{Text}
use conversation_service.Text.{is_space, strip, is_empty}
use conversation_service.Errors.{Result, ok, raised, value_error}
use conversation_service.CustomModes.Repository.{ExecutionStyle, Changes}

-- A character before the words of the rest of a text: it starts a word after a space.
abbrev push_char : ℕ → Text → List Text → List Text
push_char c [] ws = (c ∷ []) ∷ ws
push_char c (d ∷ s) [] = (c ∷ []) ∷ []
push_char c (d ∷ s) (w ∷ ws) = if is_space d then (c ∷ []) ∷ w ∷ ws else (c ∷ w) ∷ ws

-- `str.split()`
unfoldable pub split : Text → List Text
unfolding is_space
split [] = []
split (c ∷ s) = let rest = split s in if is_space c then rest else push_char c s rest

-- `" ".join(words)`
unfoldable pub unwords : List Text → Text
unwords [] = []
unwords (w ∷ []) = w
unwords (w ∷ v ∷ ws) = w ++ 32 ∷ unwords (v ∷ ws)

unfoldable pub collapse : Text → Text
unfolding split unwords
collapse s = unwords (split s)

module _ (nfkc casefold : Text → Text) where
  unfoldable pub normalize_name : Text → Text
  unfolding collapse
  normalize_name name = casefold (collapse (nfkc name))

abbrev pub name_max_chars : ℕ
name_max_chars = 60

abbrev pub description_max_chars : ℕ
description_max_chars = 200

abbrev pub instructions_max_chars : ℕ
instructions_max_chars = 4000

-- "\n\t" in a text of several lines.
abbrev is_kept : Bool → ℕ → Bool
is_kept multiline c = if multiline then c == 10 || c == 9 else false

abbrev at_most : ℕ → Text → Result Text
at_most limit s = if ltb limit (length s) then raised value_error else ok s

abbrev filled : ℕ → Text → Result Text
filled limit s = if is_empty s then raised value_error else at_most limit s

module _ (is_printable : ℕ → Bool) where
  unfoldable pub clean_text : Bool → Text → Text
  unfolding strip
  clean_text multiline value = strip (keep (λ c. is_printable c || is_kept multiline c) value)

  unfoldable pub clean_name : Text → Result Text
  unfolding clean_text collapse
  clean_name v = filled name_max_chars (collapse (clean_text false v))

  unfoldable pub clean_description : Text → Result Text
  unfolding clean_text collapse
  clean_description v = at_most description_max_chars (collapse (clean_text false v))

  unfoldable pub clean_instructions : Text → Result Text
  unfolding clean_text
  clean_instructions v = filled instructions_max_chars (clean_text true v)

-- `CustomModeCreate`
pub record CustomModeCreate : Type 0 where
  pub name : Text
  pub description : Text
  pub instructions : Text
  pub execution_style : ExecutionStyle

-- `CustomModeUpdate`
pub record CustomModeUpdate : Type 0 where
  pub name : Option Text
  pub description : Option Text
  pub instructions : Option Text
  pub execution_style : Option ExecutionStyle
  pub version : Option ℕ

abbrev both : {A B : Type 0} → Result A → (A → Result B) → Result B
both (ok a) f = f a
both (raised e) f = raised e

-- A field that is not sent is not validated.
abbrev optional : (Text → Result Text) → Option Text → Result (Option Text)
optional check none = ok none
optional check (some v) = both (check v) (λ s. ok (some s))

module _ (is_printable : ℕ → Bool) where
  unfoldable pub validate_create : CustomModeCreate → Result CustomModeCreate
  unfolding clean_name clean_description clean_instructions
  validate_create body = both (clean_name is_printable body.name) λ name.
      both (clean_description is_printable body.description) λ description.
        both (clean_instructions is_printable body.instructions) λ instructions.
          ok (record body { name = name; description = description; instructions = instructions })

  unfoldable pub validate_update : CustomModeUpdate → Result CustomModeUpdate
  unfolding clean_name clean_description clean_instructions
  validate_update body = both (optional (clean_name is_printable) body.name) λ name.
      both (optional (clean_description is_printable) body.description) λ description.
        both (optional (clean_instructions is_printable) body.instructions) λ instructions.
          ok (record body { name = name; description = description; instructions = instructions })

abbrev pub changes : CustomModeUpdate → Changes
changes body = record {
  name = body.name;
  description = body.description;
  instructions = body.instructions;
  execution_style = body.execution_style;
}

-- `if not changes`
abbrev pub no_changes : Changes → Bool
no_changes c =
    if is_some c.name
      || is_some c.description
      || is_some c.instructions
      || is_some c.execution_style
    then false
    else true
