-- ===== src/Preferences/Rows.antt =====
-- `PreferencesRepository` of app/repositories/pg_repositories.py over the table `user_preferences`, and
-- how a stored row becomes a document again (`UserPreferences.from_row`).
use conversation_service.Prelude.{
  ℕ, ◌+◌, Bool, true, false, Option, none, some, List, [], any, ◌==◌, if◌then◌else◌,
}
use conversation_service.Model.{Uuid, Time, Text}
use conversation_service.Errors.{
  Result, ok, raised, Method, invalid_default_mode, preferences_conflict,
}
use conversation_service.CustomModes.{custom_ref}
use conversation_service.CustomModes.Repository.{CustomModeTable}
use conversation_service.Preferences.{
  UserPreferences, default_preferences, clean_mode, clean_tools, clean_instructions, check_language,
  read_answer_length, read_tone, read_citations, read_document_context, answer_length_value,
  tone_value, citations_value, document_context_value,
}

-- The columns that are read; `created_at` never is.
pub record UserPreferenceRecord : Type 0 where
  pub default_mode : Option Text
  pub default_custom_mode_id : Option Uuid
  pub default_tools : List Text
  pub answer_length : Text
  pub tone : Text
  pub language : Text
  pub personal_instructions : Text
  pub citations : Text
  pub document_context : Text
  pub version : ℕ
  pub updated_at : Time

-- The two tables that the preferences use.
pub record Database : Type 0 where
  pub preferences : Uuid → Option UserPreferenceRecord
  pub modes : CustomModeTable

-- The dict of `_to_dict`.
pub record PreferencesDict : Type 0 where
  pub default_mode : Option Text
  pub default_tools : List Text
  pub answer_length : Text
  pub tone : Text
  pub language : Text
  pub personal_instructions : Text
  pub citations : Text
  pub document_context : Text
  pub version : ℕ
  pub updated_at : Time

abbrev pub mode_of_row : Option Uuid → Option Text → Option Text
mode_of_row none builtin = builtin
mode_of_row (some id) builtin = some (custom_ref id)

unfoldable pub to_dict : UserPreferenceRecord → PreferencesDict
unfolding custom_ref
to_dict row = record {
  default_mode = mode_of_row row.default_custom_mode_id row.default_mode;
  default_tools = row.default_tools;
  answer_length = row.answer_length;
  tone = row.tone;
  language = row.language;
  personal_instructions = row.personal_instructions;
  citations = row.citations;
  document_context = row.document_context;
  version = row.version;
  updated_at = row.updated_at;
}

-- A field that is no longer valid falls back to its default.
abbrev pub tolerated {ℓ} : {A : Type ℓ} → A → Result A → A
tolerated fallback (ok a) = a
tolerated fallback (raised e) = fallback

module _ (lower : Text → Text) where
  unfoldable pub from_dict : PreferencesDict → UserPreferences
  unfolding clean_mode clean_tools clean_instructions check_language read_answer_length read_tone
      read_citations read_document_context
  from_dict row = record {
    default_mode = tolerated none (clean_mode lower row.default_mode);
    default_tools = tolerated [] (clean_tools row.default_tools);
    answer_length =
        tolerated default_preferences.answer_length (read_answer_length row.answer_length);
    tone = tolerated default_preferences.tone (read_tone row.tone);
    language = tolerated default_preferences.language (check_language row.language);
    personal_instructions = tolerated [] (clean_instructions row.personal_instructions);
    citations = tolerated default_preferences.citations (read_citations row.citations);
    document_context =
        tolerated default_preferences.document_context (read_document_context row.document_context);
  }

  unfoldable pub from_row : Option UserPreferenceRecord → UserPreferences
  unfolding from_dict to_dict
  from_row none = default_preferences
  from_row (some row) = from_dict (to_dict row)

-- The version of the stored document, 0 if there is none.
abbrev pub version_of : Option UserPreferenceRecord → ℕ
version_of none = 0
version_of (some row) = row.version

abbrev pub builtin_mode : Option Uuid → Option Text → Option Text
builtin_mode none mode = mode
builtin_mode (some id) mode = none

-- The columns that `save` writes.
unfoldable pub columns : UserPreferences → Option Uuid → ℕ → Time → UserPreferenceRecord
columns values custom_id version now = record {
  default_mode = builtin_mode custom_id values.default_mode;
  default_custom_mode_id = custom_id;
  default_tools = values.default_tools;
  answer_length = answer_length_value values.answer_length;
  tone = tone_value values.tone;
  language = values.language;
  personal_instructions = values.personal_instructions;
  citations = citations_value values.citations;
  document_context = document_context_value values.document_context;
  version = version;
  updated_at = now;
}

abbrev pub put_row : Uuid → Option UserPreferenceRecord → Database → Database
put_row user row db = record db { preferences = λ u. if user == u then row else db.preferences u }

-- The foreign key to `custom_modes`.
abbrev pub is_known : Option Uuid → CustomModeTable → Bool
is_known none modes = true
is_known (some id) modes = any (λ r. r.mode_id == id) modes

-- Whether the statement writes: INSERT ... ON CONFLICT DO NOTHING for version 0, and else UPDATE ...
-- WHERE version = expected.
abbrev pub meets : ℕ → Option UserPreferenceRecord → Bool
meets expected none = expected == 0
meets expected (some row) = if expected == 0 then false else row.version == expected

unfoldable pub save : Uuid → UserPreferences → Option Uuid → ℕ → Time → Method Database ℕ
unfolding columns
save user values custom_id expected now db =
    if meets expected (db.preferences user)
    then if is_known custom_id db.modes
      then (ok (expected + 1), put_row user (some (columns values custom_id (expected + 1) now)) db)
      else (raised invalid_default_mode, db)
    else (raised (preferences_conflict (version_of (db.preferences user))), db)

unfoldable pub delete : Uuid → Database → Database
delete user db = put_row user none db
