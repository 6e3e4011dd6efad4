-- ===== src/Preferences.antt =====
-- The preference document of app/models/preferences.py: its values, their validation, the body of a
-- PATCH and what generation is told. `str.lower` is handed in.
pub mod Rows
pub mod Patch
pub mod Modes
pub mod Cleaning
pub mod Tools
pub mod Stored
pub mod Service
pub mod Resolve
pub mod Update
use conversation_service.Prelude.{
  ℕ, zero, suc, ◌+◌, Bool, true, false, not, ◌&&◌, ◌||◌, Option, none, some, List, [], ◌∷◌, ◌++◌,
  leb, ltb, ◌==◌, if◌then◌else◌, keep, any, length, get_or, is_some,
}
use conversation_service.Model.{Text}
use conversation_service.Strings.{codes}
use conversation_service.State.{Generation}
use conversation_service.Text.{strip, is_empty, text_eq}
use conversation_service.Errors.{Result, ok, raised, value_error}
use conversation_service.CustomModes.{custom_prefix, literal, parse_custom_ref}

pub data AnswerLength : Type 0 where
  concise balanced detailed : AnswerLength

pub data Tone : Type 0 where
  professional friendly simple : Tone

pub data CitationPreference : Type 0 where
  show hide : CitationPreference

pub data DocumentContext : Type 0 where
  conversation attached_only : DocumentContext

-- The `value` of each enumeration, and the member that a stored text names.
abbrev pub answer_length_value : AnswerLength → Text
answer_length_value concise = codes "concise"
answer_length_value balanced = codes "balanced"
answer_length_value detailed = codes "detailed"

abbrev pub tone_value : Tone → Text
tone_value professional = codes "professional"
tone_value friendly = codes "friendly"
tone_value simple = codes "simple"

abbrev pub citations_value : CitationPreference → Text
citations_value show = codes "show"
citations_value hide = codes "hide"

abbrev pub document_context_value : DocumentContext → Text
document_context_value conversation = codes "conversation"
document_context_value attached_only = codes "attached_only"

-- The first member whose value is the text.
abbrev member : {A : Type 0} → (A → Text) → List A → Text → Result A
member value [] s = raised value_error
member value (a ∷ as') s =
    let rest = member value as' s in if text_eq (value a) s then ok a else rest

unfoldable pub read_answer_length : Text → Result AnswerLength
read_answer_length s = member answer_length_value (concise ∷ balanced ∷ detailed ∷ []) s

unfoldable pub read_tone : Text → Result Tone
read_tone s = member tone_value (professional ∷ friendly ∷ simple ∷ []) s

unfoldable pub read_citations : Text → Result CitationPreference
read_citations s = member citations_value (show ∷ hide ∷ []) s

unfoldable pub read_document_context : Text → Result DocumentContext
read_document_context s = member document_context_value (conversation ∷ attached_only ∷ []) s

-- SUPPORTED_LANGUAGES
abbrev pub supported_languages : List (Text × Text)
supported_languages =
    (codes "auto", codes "Auto (match my message)")
    ∷ (codes "en", codes "English")
    ∷ (codes "hi", codes "Hindi")
    ∷ (codes "hinglish", codes "Hinglish (Hindi in English script, mixed with English)")
    ∷ (codes "bn", codes "Bengali")
    ∷ (codes "mr", codes "Marathi")
    ∷ (codes "ta", codes "Tamil")
    ∷ (codes "te", codes "Telugu")
    ∷ (codes "gu", codes "Gujarati")
    ∷ (codes "kn", codes "Kannada")
    ∷ (codes "ml", codes "Malayalam")
    ∷ (codes "pa", codes "Punjabi")
    ∷ (codes "ur", codes "Urdu")
    ∷ (codes "es", codes "Spanish")
    ∷ (codes "fr", codes "French")
    ∷ (codes "de", codes "German")
    ∷ (codes "pt", codes "Portuguese")
    ∷ (codes "it", codes "Italian")
    ∷ (codes "nl", codes "Dutch")
    ∷ (codes "ru", codes "Russian")
    ∷ (codes "ar", codes "Arabic")
    ∷ (codes "tr", codes "Turkish")
    ∷ (codes "zh", codes "Chinese")
    ∷ (codes "ja", codes "Japanese")
    ∷ (codes "ko", codes "Korean")
    ∷ (codes "id", codes "Indonesian")
    ∷ (codes "vi", codes "Vietnamese")
    ∷ []

abbrev language_in : Text → List (Text × Text) → Option Text
language_in s [] = none
language_in s ((code, name) ∷ ls) =
    let rest = language_in s ls in if text_eq code s then some name else rest

unfoldable pub language_name : Text → Option Text
language_name s = language_in s supported_languages

unfoldable pub check_language : Text → Result Text
unfolding language_name
check_language v = if is_some (language_name v) then ok v else raised value_error

abbrev pub personal_instructions_max : ℕ
personal_instructions_max = 1000

abbrev pub max_default_tools : ℕ
max_default_tools = 10

-- [A-Za-z0-9], and what the two patterns add to it.
abbrev pub is_alnum : ℕ → Bool
is_alnum c = (leb 48 c && leb c 57) || (leb 65 c && leb c 90) || (leb 97 c && leb c 122)

abbrev pub all_chars : (ℕ → Bool) → Text → Bool
all_chars p s = not (any (λ c. not (p c)) s)

abbrev pub is_mode_char : ℕ → Bool
is_mode_char c = is_alnum c || c == 95 || c == 45

abbrev pub is_tool_char : ℕ → Bool
is_tool_char c = is_alnum c || c == 95 || c == 46 || c == 58 || c == 45

-- `_MODE_ID.fullmatch`
unfoldable pub is_mode_id : Text → Bool
is_mode_id s = leb 1 (length s) && leb (length s) 32 && all_chars is_mode_char s

-- `_TOOL_ID.match` of a text with no newline at its end.
unfoldable pub is_tool_id : Text → Bool
is_tool_id [] = false
is_tool_id (c ∷ s) = is_alnum c && leb (length s) 63 && all_chars is_tool_char s

abbrev pub is_control : ℕ → Bool
is_control c = leb c 8 || c == 11 || c == 12 || (leb 14 c && leb c 31) || c == 127

abbrev pub means_auto : Text → Bool
means_auto v = is_empty v || text_eq v (codes "auto") || text_eq v (codes "default")

-- A mode after `strip` and `lower`.
unfoldable pub check_mode : Text → Result (Option Text)
unfolding is_mode_id parse_custom_ref
check_mode v =
    if means_auto v
    then ok none
    else if is_some (literal custom_prefix v)
    then if is_some (parse_custom_ref (some v)) then ok (some v) else raised value_error
    else if is_mode_id v
    then ok (some v)
    else raised value_error

module _ (lower : Text → Text) where
  unfoldable pub clean_mode : Option Text → Result (Option Text)
  unfolding check_mode strip
  clean_mode none = ok none
  clean_mode (some v) = check_mode (lower (strip v))

abbrev pub add_tool : Text → List Text → List Text
add_tool name cleaned = if any (text_eq name) cleaned then cleaned else cleaned ++ name ∷ []

-- The loop over the tools, with what it has collected.
unfoldable pub collect_tools : List Text → List Text → Result (List Text)
unfolding is_tool_id strip
collect_tools cleaned [] = ok cleaned
collect_tools cleaned (raw ∷ v) =
    let rest = collect_tools (add_tool (strip raw) cleaned) v in
    if is_tool_id (strip raw) then rest else raised value_error

abbrev pub few : Result (List Text) → Result (List Text)
few (raised e) = raised e
few (ok cleaned) = if ltb max_default_tools (length cleaned) then raised value_error else ok cleaned

unfoldable pub clean_tools : List Text → Result (List Text)
unfolding collect_tools
clean_tools v = few (collect_tools [] v)

abbrev pub short : Text → Result Text
short s = if ltb personal_instructions_max (length s) then raised value_error else ok s

unfoldable pub clean_instructions : Text → Result Text
unfolding strip
clean_instructions v = short (strip (keep (λ c. not (is_control c)) v))

pub record UserPreferences : Type 0 where
  pub default_mode : Option Text
  pub default_tools : List Text
  pub answer_length : AnswerLength
  pub tone : Tone
  pub language : Text
  pub personal_instructions : Text
  pub citations : CitationPreference
  pub document_context : DocumentContext

abbrev pub default_preferences : UserPreferences
default_preferences = record {
  default_mode = none;
  default_tools = [];
  answer_length = balanced;
  tone = professional;
  language = codes "auto";
  personal_instructions = [];
  citations = show;
  document_context = conversation;
}

-- `_LANGUAGE_PROMPT_NAME`
abbrev prompt_name : Text → Text
prompt_name language =
    if text_eq language (codes "hinglish")
    then codes "Hinglish"
    else get_or (language_name language) language

unfoldable pub generation_preferences : UserPreferences → Generation
unfolding language_name
generation_preferences prefs = record {
  answer_length = answer_length_value prefs.answer_length;
  tone = tone_value prefs.tone;
  language = prefs.language;
  language_name = prompt_name prefs.language;
  personal_instructions = prefs.personal_instructions;
  citations = citations_value prefs.citations;
}
