-- ===== src/Preferences/Patch.antt =====
-- `PreferencesUpdate`, the body of a PATCH, and how it changes a document. A field that is not sent is
-- `none`, and one that is sent as null `some none`.
use conversation_service.Prelude.{◌≡◌, refl, ℕ, Option, none, some, List, [], get_or, if◌then◌else◌}
use conversation_service.Model.{Text}
use conversation_service.Text.{is_empty}
use conversation_service.Errors.{Result, ok, raised, value_error}
use conversation_service.Preferences.{
  UserPreferences, AnswerLength, Tone, CitationPreference, DocumentContext, clean_mode, clean_tools,
  clean_instructions, check_language,
}

pub record PreferencesUpdate : Type 0 where
  pub version : Option ℕ
  pub default_mode : Option (Option Text)
  pub default_tools : Option (Option (List Text))
  pub answer_length : Option (Option AnswerLength)
  pub tone : Option (Option Tone)
  pub language : Option (Option Text)
  pub personal_instructions : Option (Option Text)
  pub citations : Option (Option CitationPreference)
  pub document_context : Option (Option DocumentContext)

abbrev pub bind : {A B : Type 0} → Result A → (A → Result B) → Result B
bind (ok a) f = f a
bind (raised e) f = raised e

-- A validator of a field that was sent, and of one that is not null.
abbrev sent :
    {A : Type 0} → (Option A → Result (Option A)) → Option (Option A) → Result (Option (Option A))
sent check none = ok none
sent check (some v) = bind (check v) (λ a. ok (some a))

abbrev not_null : {A : Type 0} → (A → Result A) → Option A → Result (Option A)
not_null check none = ok none
not_null check (some a) = bind (check a) (λ b. ok (some b))

module _ (lower : Text → Text) where
  -- Auto is normalised to the empty text.
  abbrev mode_or_empty : Option Text → Result (Option Text)
  mode_or_empty v = bind (clean_mode lower v) (λ m. ok (some (get_or m [])))

  unfoldable pub validate_patch : PreferencesUpdate → Result PreferencesUpdate
  unfolding clean_mode clean_tools clean_instructions check_language
  validate_patch p = bind (sent mode_or_empty p.default_mode) λ mode.
      bind (sent (not_null clean_tools) p.default_tools) λ tools.
        bind (sent (not_null check_language) p.language) λ language.
          bind (sent (not_null clean_instructions) p.personal_instructions) λ instructions.
            ok (record p {
              default_mode = mode;
              default_tools = tools;
              language = language;
              personal_instructions = instructions;
            })

-- `sent["default_mode"] or None`
abbrev or_null : Option Text → Option Text
or_null none = none
or_null (some v) = if is_empty v then none else some v

-- The document before its validation: the keys that are sent replace those of the stored one.
pub record RawDocument : Type 0 where
  pub default_mode : Option Text
  pub default_tools : Option (List Text)
  pub answer_length : Option AnswerLength
  pub tone : Option Tone
  pub language : Option Text
  pub personal_instructions : Option Text
  pub citations : Option CitationPreference
  pub document_context : Option DocumentContext

abbrev pub over : {A : Type 0} → Option (Option A) → A → Option A
over none old = some old
over (some new) old = new

abbrev over_mode : Option (Option Text) → Option Text → Option Text
over_mode none old = old
over_mode (some new) old = or_null new

-- `{**prefs.model_dump(), **patch.changes()}`
unfoldable pub merge : UserPreferences → PreferencesUpdate → RawDocument
merge prefs patch = record {
  default_mode = over_mode patch.default_mode prefs.default_mode;
  default_tools = over patch.default_tools prefs.default_tools;
  answer_length = over patch.answer_length prefs.answer_length;
  tone = over patch.tone prefs.tone;
  language = over patch.language prefs.language;
  personal_instructions = over patch.personal_instructions prefs.personal_instructions;
  citations = over patch.citations prefs.citations;
  document_context = over patch.document_context prefs.document_context;
}

abbrev pub present : {A : Type 0} → Option A → Result A
present none = raised value_error
present (some a) = ok a

abbrev pub nullable : {A : Type 0} → (List A → Result (List A)) → Option (List A) → Result (List A)
nullable check none = ok []
nullable check (some v) = check v

module _ (lower : Text → Text) where
  -- `UserPreferences.model_validate`
  unfoldable pub validate_document : RawDocument → Result UserPreferences
  unfolding clean_mode clean_tools clean_instructions check_language
  validate_document raw = bind (clean_mode lower raw.default_mode) λ mode.
      bind (nullable clean_tools raw.default_tools) λ tools.
        bind (present raw.answer_length) λ answer_length. bind (present raw.tone) λ tone.
          bind (bind (present raw.language) check_language) λ language.
            bind (nullable clean_instructions raw.personal_instructions) λ instructions.
              bind (present raw.citations) λ citations.
                bind (present raw.document_context) λ document_context. ok (record {
                  default_mode = mode;
                  default_tools = tools;
                  answer_length = answer_length;
                  tone = tone;
                  language = language;
                  personal_instructions = instructions;
                  citations = citations;
                  document_context = document_context;
                })

-- What a chain of validations gives, if it gives anything.
abbrev pub Yields : {A : Type 0} → (A → Type 0) → Result A → Type 0
Yields P (ok a) = P a
Yields P (raised e) = Unit

pub Yields-bind :
    {A B : Type 0} (P : B → Type 0) (m : Result A) (f : A → Result B)
    → ((a : A) → m ≡ ok a → Yields P (f a))
    → Yields P (bind m f)
Yields-bind P (ok a) f h = h a refl
Yields-bind P (raised e) f h = tt
