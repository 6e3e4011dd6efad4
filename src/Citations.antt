-- ===== src/Citations.antt =====
-- app/services/citations.py: the sources that are stored with an answer. An event's value is a
-- `Json`; `size`, an argument, is the number of bytes that `dumps_citations` gives in UTF-8.
pub mod Bounds
use Prim.Native.String.{String}
use text.Mathlib.Text.{◌==◌ as str_eq}
use conversation_service.Prelude.{
  ℕ, zero, suc, ◌+◌, Bool, true, false, not, ◌&&◌, ◌||◌, Option, none, some, List, [], ◌∷◌, ◌++◌,
  ltb, leb, ◌==◌, if◌then◌else◌, length, any,
}
use conversation_service.Model.{Text, Citation}
use conversation_service.Text.{strip, clip, is_empty, text_eq}

-- What `json.loads` gives. `negative n` is -(n + 1), and a float keeps no value.
mutual
  pub data Json : Type 0 where
    null : Json
    bool : Bool → Json
    int : ℕ → Json
    negative : ℕ → Json
    float : Json
    str : Text → Json
    arr : Items → Json
    obj : Fields → Json

  pub data Items : Type 0 where
    nil : Items
    cons : Json → Items → Items

  pub data Fields : Type 0 where
    end : Fields
    field : String → Json → Fields → Fields

abbrev pub max_citations : ℕ
max_citations = 50

abbrev pub max_field_chars : ℕ
max_field_chars = 300

abbrev pub max_json_bytes : ℕ
max_json_bytes = 32000

abbrev pub max_seconds : ℕ
max_seconds = 9999999

-- `raw.get(key)`
unfoldable pub get_field : String → Fields → Json
get_field k end = null
get_field k (field j v fs) = if str_eq j k then v else get_field k fs

abbrev file_id_char : ℕ → Bool
file_id_char c =
    (leb b'A' c && leb c b'Z')
    || (leb b'a' c && leb c b'z')
    || (leb b'0' c && leb c b'9')
    || c == b'_'
    || c == b'-'

-- `_FILE_ID.match`, after `n` characters of the class; `$` also matches before a last newline.
unfoldable pub match_file_id : ℕ → Text → Bool
match_file_id n [] = leb 1 n
match_file_id n (c ∷ cs) =
    let rest = match_file_id (n + 1) cs in
    if file_id_char c && ltb n 64 then rest else c == 10 && is_empty cs && leb 1 n

unfoldable pub text_of : Json → Option Text
text_of (str s) = let t = clip max_field_chars s in if is_empty t then none else some t
text_of _ = none

unfoldable pub int_upto : Json → ℕ → Option ℕ
int_upto (int n) upper = if leb n upper then some n else none
int_upto _ upper = none

abbrev or_empty : Option Text → Text
or_empty none = []
or_empty (some t) = t

-- `end if end is not None and end >= start else None`
abbrev end_after : ℕ → Option ℕ → Option ℕ
end_after start none = none
end_after start (some e) = if leb start e then some e else none

unfoldable pub clean_times : Fields → Option (ℕ × Option ℕ)
unfolding int_upto
clean_times fs = elim (int_upto (get_field "start_seconds" fs) max_seconds) [
  | none ↦ none
  | some start ↦ some (start, end_after start (int_upto (get_field "end_seconds" fs) max_seconds))
]

clean_fields : Json → Fields → Option Citation
unfolding text_of int_upto clean_times
clean_fields (str file_id) fs =
    if match_file_id 0 file_id
    then some (record {
      file_id = file_id;
      source_name = or_empty (text_of (get_field "source_name" fs));
      page_number = int_upto (get_field "page_number" fs) 100000;
      section = text_of (get_field "section" fs);
      times = clean_times fs;
    })
    else none
clean_fields _ fs = none

unfoldable pub clean_one : Json → Option Citation
unfolding clean_fields
clean_one (obj fs) = clean_fields (get_field "file_id" fs) fs
clean_one _ = none

abbrev opt_eq {ℓ} : {A : Type ℓ} → (A → A → Bool) → Option A → Option A → Bool
opt_eq eq none none = true
opt_eq eq (some a) (some b) = eq a b
opt_eq eq _ _ = false

abbrev nat_eq : ℕ → ℕ → Bool
nat_eq a b = a == b

-- Equality of the canonical JSON of two citations, the key of `seen`.
unfoldable pub same : Citation → Citation → Bool
same a b =
    text_eq a.file_id b.file_id
    && text_eq a.source_name b.source_name
    && opt_eq nat_eq a.page_number b.page_number
    && opt_eq text_eq a.section b.section
    && opt_eq (λ s t. s.0 == t.0 && opt_eq nat_eq s.1 t.1) a.times b.times

-- The `for` loop; every citation that is appended is in `seen`.
unfoldable pub collect : List Citation → Items → List Citation
collect cleaned nil = cleaned
collect cleaned (cons item items) = elim (clean_one item) [
  | none ↦ collect cleaned items
  | some c ↦
      let skip = collect cleaned items in
      let more = collect (cleaned ++ c ∷ []) items in
      if any (same c) cleaned
      then skip
      else if leb max_citations (length cleaned + 1)
      then cleaned ++ c ∷ []
      else more
]

-- `cleaned.pop()`
unfoldable pub pop : List Citation → List Citation
pop [] = []
pop (c ∷ []) = []
pop (c ∷ d ∷ cs) = c ∷ pop (d ∷ cs)

module _ (size : List Citation → ℕ) where
  -- The `while` loop, with a round for each citation.
  unfoldable pub shrink : ℕ → List Citation → List Citation
  shrink zero cleaned = cleaned
  shrink (suc rounds) cleaned =
      let shorter = shrink rounds (pop cleaned) in
      if ltb max_json_bytes (size cleaned) then shorter else cleaned

  unfoldable pub sanitize_citations : Json → List Citation
  unfolding collect shrink
  sanitize_citations (arr items) = let cleaned = collect [] items in shrink (length cleaned) cleaned
  sanitize_citations _ = []

abbrev nat_json : Option ℕ → Json
nat_json none = null
nat_json (some n) = int n

abbrev text_json : Option Text → Json
text_json none = null
text_json (some t) = str t

abbrev times_json : Option (ℕ × Option ℕ) → Fields → Fields
times_json none fs = fs
times_json (some (start, e)) fs =
    field "start_seconds" (int start) (field "end_seconds" (nat_json e) fs)

-- The object that `json.loads` gives back for a stored citation.
unfoldable pub to_json : Citation → Json
to_json c = obj (
    field "file_id" (str c.file_id) (
      field "source_name" (str c.source_name) (
        field "page_number" (nat_json c.page_number)
          (field "section" (text_json c.section) (times_json c.times end)))))

unfoldable pub to_items : List Citation → Items
unfolding to_json
to_items [] = nil
to_items (c ∷ cs) = cons (to_json c) (to_items cs)

-- The column is kept as the list that `dumps_citations` wrote; `[]` is also the null column.
unfoldable pub loads_citations : (List Citation → ℕ) → List Citation → List Citation
unfolding sanitize_citations to_items
loads_citations size [] = []
loads_citations size (c ∷ cs) = sanitize_citations size (arr (to_items (c ∷ cs)))
