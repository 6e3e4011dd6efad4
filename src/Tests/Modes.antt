-- ===== src/Tests/Modes.antt =====
-- Custom modes and preferences at concrete inputs.
use conversation_service.Prelude.{
  ℕ, ◌+◌, ◌≡◌, refl, true, false, ◌∷◌, arith, ◌&&◌, Option, none, some, [], leb, ◌==◌,
  if◌then◌else◌,
}
use mathlib.Core.List.{map}
use conversation_service.Model.{Text}
use conversation_service.Strings.{codes}
use conversation_service.Errors.{ok, raised, storage}
use conversation_service.CustomModes.{custom_ref}
use conversation_service.CustomModes.Ref.{parse_custom_ref-custom_ref}
use conversation_service.Text.{is_space}
use conversation_service.CustomModes.Repository.{smart, NewMode, create_counted}
use conversation_service.CustomModes.Limits.{
  World, hold, counts, creates, empty, next, IsWithin, Reachable-IsWithin,
}
use conversation_service.Preferences.{UserPreferences, concise, friendly, show, attached_only}
use conversation_service.Preferences.Rows.{
  columns, from_row, Database, UserPreferenceRecord, put_row, delete,
}
use conversation_service.Preferences.Patch.{PreferencesUpdate, RawDocument, validate_document}
use conversation_service.Preferences.Service.{Others, update, ref_of_mode}
use conversation_service.Preferences.Resolve.{Reads, load_preferences, resolve_for_message}
use conversation_service.Preferences.Resolve.Rules.{Resolution, resolve_for_message-Resolution}
use conversation_service.Preferences.Stored.{IsCanonical, from_row-validate_document}
use conversation_service.Preferences.Update.{Outcome, update-Outcome}

abbrev tutor : NewMode
tutor = record {
  id = 5;
  name = codes "Tutor";
  description = [];
  instructions = codes "Ask first.";
  execution_style = smart;
  now = 9;
}

-- One creation, from the count to the write.
abbrev one_mode : World
one_mode = record {
  table = (create_counted (λ s. s) 1 7 tutor 0 []).1;
  counted = hold (hold (λ o. none) 7 (some 0)) 7 none;
}

Reachable-IsWithin_example : IsWithin 1 one_mode
Reachable-IsWithin_example =
    Reachable-IsWithin (λ s. s) 1 (next (next empty (counts 7 refl)) (creates 7 0 tutor refl))

abbrev lower_char : ℕ → ℕ
lower_char c = if leb 65 c && leb c 90 then c + 32 else c

abbrev ascii_lower : Text → Text
ascii_lower = map lower_char

abbrev stored : UserPreferenceRecord
stored = record {
  default_mode = some (codes "tutor");
  default_custom_mode_id = none;
  default_tools = [];
  answer_length = codes "balanced";
  tone = codes "professional";
  language = codes "en";
  personal_instructions = [];
  citations = codes "show";
  document_context = codes "conversation";
  version = 3;
  updated_at = 8;
}

abbrev database : Database
database = record { preferences = λ u. if u == 7 then some stored else none; modes = [] }

abbrev no_patch : PreferencesUpdate
no_patch = record {
  version = none;
  default_mode = none;
  default_tools = none;
  answer_length = none;
  tone = none;
  language = none;
  personal_instructions = none;
  citations = none;
  document_context = none;
}

abbrev be_concise : PreferencesUpdate
be_concise = record no_patch { answer_length = some (some concise) }

abbrev nobody : Others
nobody = record { before_load = λ k d. d; before_save = λ k d. d }

update-Outcome_example :
    Outcome ascii_lower 7 be_concise 9 nobody database
      (update ascii_lower none nobody 9 7 be_concise database)
update-Outcome_example =
    update-Outcome ascii_lower 7 be_concise 9 none nobody (λ k d same. refl) database

-- The tone that another session saves.
abbrev friendly_row : UserPreferenceRecord
friendly_row = record stored { tone = codes "friendly"; version = 4 }

-- Another session commits before the first save; the second attempt takes its tone over.
abbrev busy : Others
busy = record {
  before_load = λ k d. d;
  before_save = λ k d. if k == 0 then put_row 7 (some friendly_row) d else d;
}

abbrev tone_of : Option UserPreferenceRecord → Text
tone_of none = []
tone_of (some r) = r.tone

merged_tone :
    tone_of ((update ascii_lower none busy 9 7 be_concise database).1.preferences 7)
    ≡ codes "friendly"
unfolding update is_space
merged_tone = refl

-- After a reset the versions start at 1 again, so a save made from the version 1 of the old document
-- overwrites the version 1 of the new one.
abbrev first_row : UserPreferenceRecord
first_row = record stored { version = 1 }

abbrev reset_and_saved : Others
reset_and_saved = record {
  before_load = λ k d. d;
  before_save = λ k d. put_row 7 (some (record friendly_row { version = 1 })) (delete 7 d);
}

lost_tone :
    tone_of (
      (update ascii_lower none reset_and_saved 9 7 be_concise (record {
        preferences = λ u. if u == 7 then some first_row else none;
        modes = [];
      })).1.preferences
        7)
    ≡ codes "professional"
unfolding update delete is_space
lost_tone = refl

abbrev readable : Reads
readable = record { preferences = true; modes = true }

resolve_for_message-Resolution_example :
    Resolution true database
      (load_preferences ascii_lower readable database (some 7))
      (some 7)
      none
      none
      (resolve_for_message ascii_lower readable database (some 7) none none)
resolve_for_message-Resolution_example =
    resolve_for_message-Resolution ascii_lower readable database (some 7) none none

-- The default of user 8 is a custom mode. When the custom modes cannot be read, a message without a
-- mode of its own fails on account of that default.
abbrev custom_default : Database
custom_default = record database {
  preferences =
      λ u. if u == 8 then some (record stored { default_custom_mode_id = some 77 }) else none;
}

default_refused :
    resolve_for_message ascii_lower
      (record { preferences = true; modes = false })
      custom_default
      (some 8)
      none
      none
    ≡ raised storage
unfolding resolve_for_message load_preferences from_row is_space
default_refused = refl

-- What a user typed, and what validation makes of it.
abbrev typed : RawDocument
typed = record {
  default_mode = some (codes " Tutor");
  default_tools = some (codes "web " ∷ codes "web" ∷ []);
  answer_length = some concise;
  tone = some friendly;
  language = some (codes "hi");
  personal_instructions = some (codes "  Be kind. ");
  citations = some show;
  document_context = some attached_only;
}

abbrev cleaned : UserPreferences
cleaned = record {
  default_mode = some (codes "tutor");
  default_tools = codes "web" ∷ [];
  answer_length = concise;
  tone = friendly;
  language = codes "hi";
  personal_instructions = codes "Be kind.";
  citations = show;
  document_context = attached_only;
}

abbrev custom_typed : RawDocument
custom_typed = record typed { default_mode = some (custom_ref 77) }

abbrev custom_document : UserPreferences
custom_document = record cleaned { default_mode = some (custom_ref 77) }

typed-cleaned : validate_document ascii_lower typed ≡ ok cleaned
unfolding validate_document is_space
typed-cleaned = refl

lowered : (c : ℕ) → lower_char (lower_char c) ≡ lower_char c
lowered c = ground arith

ascii_lower_again : (s : Text) → ascii_lower (ascii_lower s) ≡ ascii_lower s
ascii_lower_again [] = refl
ascii_lower_again (c ∷ s) = rw (lowered c, ascii_lower_again s) refl

custom_cleaned : validate_document ascii_lower custom_typed ≡ ok custom_document
unfolding validate_document is_space custom_ref
custom_cleaned = refl

names_77 : ref_of_mode (some (custom_ref 77)) ≡ some 77
unfolding custom_ref
names_77 = parse_custom_ref-custom_ref 77 (omega arith)

custom-IsCanonical : IsCanonical (some (custom_ref 77))
custom-IsCanonical id e = cc (e, names_77)

from_row-validate_document_example :
    from_row ascii_lower (some (columns custom_document (ref_of_mode (some (custom_ref 77))) 4 9))
    ≡ custom_document
from_row-validate_document_example =
    from_row-validate_document ascii_lower ascii_lower_again custom_typed custom_document 4 9
      custom_cleaned custom-IsCanonical
