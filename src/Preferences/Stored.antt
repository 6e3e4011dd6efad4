-- ===== src/Preferences/Stored.antt =====
-- A document that was validated and saved, read back.
use conversation_service.Prelude.{
  ℕ, ◌≡◌, refl, sym, subst, ap, ◌∙◌, Bool, true, false, Option, none, some, List, [], Option-cases,
  inl, inr, is_some, if◌then◌else◌,
}
use conversation_service.Model.{Uuid, Time, Text}
use conversation_service.Text.{strip}
use conversation_service.Strings.{codes}
use conversation_service.Errors.{Result, ok, raised, value_error}
use conversation_service.CustomModes.{custom_ref, parse_custom_ref}
use conversation_service.CustomModes.Ref.{strip-custom_ref}
use conversation_service.Preferences.{
  UserPreferences, AnswerLength, Tone, CitationPreference, DocumentContext, concise, balanced,
  detailed, professional, friendly, simple, show, hide, conversation, attached_only, clean_mode,
  check_mode, clean_tools, clean_instructions, check_language, language_name, read_answer_length,
  read_tone, read_citations, read_document_context, answer_length_value, tone_value,
  citations_value, document_context_value,
}
use conversation_service.Preferences.Modes.{
  IsChecked, check_mode-IsChecked, strip_fixed, All_mono, mode_char-NoSpace, mode_id-All,
}
use conversation_service.Preferences.Cleaning.{clean_instructions_again}
use conversation_service.Preferences.Tools.{clean_tools_again}
use conversation_service.Preferences.Rows.{
  from_row, from_dict, to_dict, columns, tolerated, mode_of_row, builtin_mode,
}
use conversation_service.Preferences.Patch.{
  RawDocument, validate_document, bind, present, nullable, Yields, Yields-bind,
}
use conversation_service.Preferences.Service.{ref_of_mode}

read-answer_length : (a : AnswerLength) → read_answer_length (answer_length_value a) ≡ ok a
unfolding read_answer_length
read-answer_length concise = refl
read-answer_length balanced = refl
read-answer_length detailed = refl

read-tone : (t : Tone) → read_tone (tone_value t) ≡ ok t
unfolding read_tone
read-tone professional = refl
read-tone friendly = refl
read-tone simple = refl

read-citations : (c : CitationPreference) → read_citations (citations_value c) ≡ ok c
unfolding read_citations
read-citations show = refl
read-citations hide = refl

read-document_context :
    (d : DocumentContext) → read_document_context (document_context_value d) ≡ ok d
unfolding read_document_context
read-document_context conversation = refl
read-document_context attached_only = refl

kept : (b : Bool) (v l : Text) → (if b then ok v else raised value_error) ≡ ok l → v ≡ l
kept true v l e = cc
kept false v l e = cc

check_language_same : (v l : Text) → check_language v ≡ ok l → v ≡ l
unfolding check_language
check_language_same v l e = kept (is_some (language_name v)) v l e

check_language_again : (v l : Text) → check_language v ≡ ok l → check_language l ≡ ok l
check_language_again v l e = subst (λ x. check_language x ≡ ok l) (check_language_same v l e) e

-- The fields of a document that validation leaves as they are.
pub record IsValid (lower : Text → Text) (d : UserPreferences) : Type 0 where
  pub mode : clean_mode lower d.default_mode ≡ ok d.default_mode
  pub tools : clean_tools d.default_tools ≡ ok d.default_tools
  pub language : check_language d.language ≡ ok d.language
  pub instructions : clean_instructions d.personal_instructions ≡ ok d.personal_instructions

-- The reference to a custom mode as `custom_ref` writes it.
abbrev pub IsCanonical : Option Text → Type 0
IsCanonical mode = (id : Uuid) → ref_of_mode mode ≡ some id → mode ≡ some (custom_ref id)

-- The two columns of the default mode give it back.
mode-columns :
    (mode : Option Text)
    → IsCanonical mode
    → mode_of_row (ref_of_mode mode) (builtin_mode (ref_of_mode mode) mode) ≡ mode
mode-columns mode canonical = elim (Option-cases (ref_of_mode mode)) [
  | inl e ↦ rw e refl
  | inr (id, e) ↦ rw e (sym (canonical id e))
]

from_row-columns :
    (lower : Text → Text) (d : UserPreferences) (version : ℕ) (now : Time)
    → IsValid lower d
    → IsCanonical d.default_mode
    → from_row lower (some (columns d (ref_of_mode d.default_mode) version now)) ≡ d
unfolding from_row from_dict to_dict columns
from_row-columns lower d version now valid canonical =
    let mode : tolerated none (
          clean_mode lower (
            mode_of_row (ref_of_mode d.default_mode)
              (builtin_mode (ref_of_mode d.default_mode) d.default_mode)))
        ≡ d.default_mode =
      ap (λ m. tolerated none (clean_mode lower m)) (mode-columns d.default_mode canonical)
      ∙ ap (tolerated none) valid.mode in
    let tools = ap (tolerated []) valid.tools in
    let language = ap (tolerated (codes "auto")) valid.language in
    let instructions = ap (tolerated []) valid.instructions in
    let length = ap (tolerated balanced) (read-answer_length d.answer_length) in
    let tone = ap (tolerated professional) (read-tone d.tone) in
    let citations = ap (tolerated show) (read-citations d.citations) in
    let context = ap (tolerated conversation) (read-document_context d.document_context) in
    λ i. record {
      default_mode = mode i;
      default_tools = tools i;
      answer_length = length i;
      tone = tone i;
      language = language i;
      personal_instructions = instructions i;
      citations = citations i;
      document_context = context i;
    }

-- What `str.lower` does to a text that it has lowered.
abbrev pub Settles : (Text → Text) → Type 0
Settles lower = (s : Text) → lower (lower s) ≡ lower s

strip-mode : (m : Text) → IsChecked m → IsCanonical (some m) → strip m ≡ m
strip-mode m checked canonical = elim checked.reference [
  | inl known ↦ elim (Option-cases (parse_custom_ref (some m))) [
    | inl e ↦ cc (ap is_some e, known)
    | inr (id, e) ↦
        let named : ref_of_mode (some m) ≡ some id = rw checked.filled e in
        let whole : m ≡ custom_ref id = cc (canonical id named) in
        subst (λ x. strip x ≡ x) (sym whole) (strip-custom_ref id)
  ]
  | inr (id, other) ↦ strip_fixed m (All_mono mode_char-NoSpace m (mode_id-All m id))
]

nullable_again :
    {A : Type 0} (check : List A → Result (List A))
    → ((v d : List A) → check v ≡ ok d → check d ≡ ok d)
    → check [] ≡ ok []
    → (o : Option (List A)) (d : List A) → nullable check o ≡ ok d
    → check d ≡ ok d
nullable_again check again empty none d e = subst (λ x. check x ≡ ok x) (cc) empty
nullable_again check again empty (some v) d e = again v d e

language_again :
    (o : Option Text) (l : Text) → bind (present o) check_language ≡ ok l → check_language l ≡ ok l
language_again none l e = cc
language_again (some v) l e = check_language_again v l e

no_tools : clean_tools [] ≡ ok []
unfolding clean_tools
no_tools = refl

no_instructions : clean_instructions [] ≡ ok []
unfolding clean_instructions
no_instructions = refl

module _ (lower : Text → Text) (settles : Settles lower) where
  check_mode_again :
      (s : Text) (r : Option Text)
      → check_mode (lower s) ≡ ok r
      → IsCanonical r
      → clean_mode lower r ≡ ok r
  unfolding clean_mode
  check_mode_again s none e canonical = refl
  check_mode_again s (some m) e canonical =
      let (same, checked) = check_mode-IsChecked (lower s) m e in
      let own : strip m ≡ m = strip-mode m (subst IsChecked (sym same) checked) canonical in
      ap check_mode (ap lower (own ∙ same) ∙ settles s) ∙ e

  clean_mode_again :
      (o r : Option Text) → clean_mode lower o ≡ ok r → IsCanonical r → clean_mode lower r ≡ ok r
  unfolding clean_mode
  clean_mode_again none none e canonical = refl
  clean_mode_again none (some m) e canonical = cc
  clean_mode_again (some v) r e canonical = check_mode_again (strip v) r e canonical

  validate_document-IsValid :
      (raw : RawDocument)
      → Yields (λ d. IsCanonical d.default_mode → IsValid lower d) (validate_document lower raw)
  unfolding validate_document
  validate_document-IsValid raw =
      let Goal : UserPreferences → Type 0 = λ d. IsCanonical d.default_mode → IsValid lower d in
      Yields-bind Goal (clean_mode lower raw.default_mode) _ λ mode m.
        Yields-bind Goal (nullable clean_tools raw.default_tools) _ λ tools t.
          Yields-bind Goal (present raw.answer_length) _ λ length a.
            Yields-bind Goal (present raw.tone) _ λ tone b.
              Yields-bind Goal (bind (present raw.language) check_language) _ λ language l.
                Yields-bind Goal (nullable clean_instructions raw.personal_instructions) _
                  λ instructions p. Yields-bind Goal (present raw.citations) _ λ citations c.
                    Yields-bind Goal (present raw.document_context) _ λ context d canonical.
                      record {
                        mode = clean_mode_again raw.default_mode mode m canonical;
                        tools =
                            nullable_again clean_tools clean_tools_again no_tools raw.default_tools
                              tools t;
                        language = language_again raw.language language l;
                        instructions =
                            nullable_again clean_instructions clean_instructions_again
                              no_instructions raw.personal_instructions instructions p;
                      }

  -- A document that was validated, saved with the columns that `save` writes and read again is the
  -- document itself, under any version and time: this needs that `str.lower` leaves what it lowered,
  -- and that a custom default mode is written as `custom_ref` writes it.
  pub from_row-validate_document :
      (raw : RawDocument) (d : UserPreferences) (version : ℕ) (now : Time)
      → validate_document lower raw ≡ ok d
      → IsCanonical d.default_mode
      → from_row lower (some (columns d (ref_of_mode d.default_mode) version now)) ≡ d
  from_row-validate_document raw d version now e canonical =
      let valid =
        subst (Yields (λ x. IsCanonical x.default_mode → IsValid lower x)) e
          (validate_document-IsValid raw) in
      from_row-columns lower d version now (valid canonical) canonical
