-- ===== src/Citations/Bounds.antt =====
-- What holds of every list that `sanitize_citations` returns.
use mathlib.Core.List.{append_assoc, append-nil}
use conversation_service.Prelude.{
  ℕ, zero, suc, ◌+◌, ◌≤◌, ◌<◌, ◌≡◌, subst, true, false, Option, none, some, List, [], ◌∷◌, ◌++◌,
  arith, ltb, leb, length, length-append, any, All, All-append, Option-cases, Bool-cases, inl, inr,
}
use conversation_service.Model.{Text, Citation}
use conversation_service.Text.{length-clip-le}
use conversation_service.Citations.{
  Json, int, str, arr, obj, Items, nil, cons, Fields, get_field, max_citations, max_field_chars,
  max_json_bytes, max_seconds, match_file_id, text_of, int_upto, end_after, or_empty, clean_times,
  clean_fields, clean_one, same, collect, pop, shrink, sanitize_citations,
}

abbrev pub AtMost : ℕ → Option ℕ → Type 0
AtMost n none = Unit
AtMost n (some k) = k ≤ n

abbrev pub Short : Option Text → Type 0
Short none = Unit
Short (some t) = length t ≤ max_field_chars

-- A video range that does not end before it starts.
abbrev pub Range : Option (ℕ × Option ℕ) → Type 0
Range none = Unit
Range (some (start, none)) = start ≤ max_seconds
Range (some (start, some e)) = (start ≤ max_seconds) × (start ≤ e) × (e ≤ max_seconds)

pub record IsClean (c : Citation) : Type 0 where
  pub file_id : match_file_id 0 c.file_id ≡ true
  pub source_name : length c.source_name ≤ max_field_chars
  pub page_number : AtMost 100000 c.page_number
  pub section : Short c.section
  pub times : Range c.times

-- No entry is the same as one in `seen` or one before it.
abbrev pub Distinct : List Citation → List Citation → Type 0
Distinct seen [] = Unit
Distinct seen (c ∷ cs) = (any (same c) seen ≡ false) × Distinct (seen ++ c ∷ []) cs

text_of-Short : (j : Json) → Short (text_of j)
unfolding text_of
text_of-Short (str s) = ground (arith, length-clip-le max_field_chars s)
text_of-Short _ = tt

int_upto-AtMost : (j : Json) (upper : ℕ) → AtMost upper (int_upto j upper)
unfolding int_upto
int_upto-AtMost (int n) upper = ground arith
int_upto-AtMost _ upper = tt

end_after-Range :
    (start : ℕ) (e : Option ℕ)
    → start ≤ max_seconds
    → AtMost max_seconds e
    → Range (some (start, end_after start e))
end_after-Range start none h k = h
end_after-Range start (some e) h k = elim (Bool-cases (leb start e)) [
  | inl p ↦ rw p (h, ground arith, k)
  | inr p ↦ rw p h
]

clean_times-Range : (fs : Fields) → Range (clean_times fs)
unfolding clean_times
clean_times-Range fs =
    go (int_upto (get_field "start_seconds" fs) max_seconds)
      (int_upto (get_field "end_seconds" fs) max_seconds)
      (int_upto-AtMost (get_field "start_seconds" fs) max_seconds)
      (int_upto-AtMost (get_field "end_seconds" fs) max_seconds)
  where
    go :
        (s e : Option ℕ)
        → AtMost max_seconds s
        → AtMost max_seconds e
        → Range (elim s [ none ↦ none | some start ↦ some (start, end_after start e) ])
    go none e h k = tt
    go (some start) e h k = end_after-Range start e h k

abbrev CleanIfAny : Option Citation → Type 0
CleanIfAny none = Unit
CleanIfAny (some c) = IsClean c

or_empty-Short : (t : Option Text) → Short t → length (or_empty t) ≤ max_field_chars
or_empty-Short none h = omega arith
or_empty-Short (some t) h = h

clean_fields-IsClean : (j : Json) (fs : Fields) → CleanIfAny (clean_fields j fs)
unfolding clean_fields
clean_fields-IsClean (str file_id) fs = elim (Bool-cases (match_file_id 0 file_id)) [
  | inl p ↦ rw p (record {
    file_id = p;
    source_name = or_empty-Short _ (text_of-Short (get_field "source_name" fs));
    page_number = int_upto-AtMost (get_field "page_number" fs) 100000;
    section = text_of-Short (get_field "section" fs);
    times = clean_times-Range fs;
  })
  | inr p ↦ rw p tt
]
clean_fields-IsClean _ fs = tt

clean_one-IsClean : (j : Json) {c : Citation} → clean_one j ≡ some c → IsClean c
unfolding clean_one
clean_one-IsClean (obj fs) h = subst CleanIfAny h (clean_fields-IsClean (get_field "file_id" fs) fs)
clean_one-IsClean _ h = cc

-- The invariant of the loops.
record IsSound (cs : List Citation) : Type 0 where
  few : length cs ≤ max_citations
  clean : All IsClean cs
  distinct : Distinct [] cs

Distinct-snoc :
    (seen cs : List Citation) (c : Citation)
    → Distinct seen cs
    → any (same c) (seen ++ cs) ≡ false
    → Distinct seen (cs ++ c ∷ [])
Distinct-snoc seen [] c d h = (rw (append-nil seen) at h, tt)
Distinct-snoc seen (x ∷ cs) c d h =
    (d.0, Distinct-snoc (seen ++ x ∷ []) cs c d.1 (rw append_assoc h))

collect-IsSound :
    (cleaned : List Citation) (items : Items)
    → length cleaned < max_citations
    → All IsClean cleaned
    → Distinct [] cleaned
    → IsSound (collect cleaned items)
unfolding collect
collect-IsSound cleaned nil h k d = record { few = omega arith; clean = k; distinct = d }
collect-IsSound cleaned (cons item items) h k d = elim (Option-cases (clean_one item)) [
  | inl e ↦ rw (e, collect) (collect-IsSound cleaned items h k d)
  | inr (c, e) ↦
      rw (e, collect)
        (elim (Bool-cases (any (same c) cleaned)) [
          | inl old ↦ rw old (collect-IsSound cleaned items h k d)
          | inr new ↦
              let longer = length-append cleaned (c ∷ []) in
              let k' = All-append IsClean cleaned (c ∷ []) k (clean_one-IsClean item e, tt) in
              let d' = Distinct-snoc [] cleaned c d new in
              rw new (elim (Bool-cases (leb max_citations (length cleaned + 1))) [
                | inl full ↦ rw full (record { few = omega arith; clean = k'; distinct = d' })
                | inr room ↦
                    rw room (collect-IsSound (cleaned ++ c ∷ []) items (ground arith) k' d')
              ])
        ])
]

All-pop : (P : Citation → Type 0) (cs : List Citation) → All P cs → All P (pop cs)
unfolding pop
All-pop P [] h = tt
All-pop P (c ∷ []) h = tt
All-pop P (c ∷ d ∷ cs) h = (h.0, All-pop P (d ∷ cs) h.1)

Distinct-pop : (seen cs : List Citation) → Distinct seen cs → Distinct seen (pop cs)
unfolding pop
Distinct-pop seen [] h = tt
Distinct-pop seen (c ∷ []) h = tt
Distinct-pop seen (c ∷ d ∷ cs) h = (h.0, Distinct-pop (seen ++ c ∷ []) (d ∷ cs) h.1)

length-pop : (cs : List Citation) → length (pop cs) ≤ length cs
unfolding pop
length-pop [] = omega arith
length-pop (c ∷ []) = omega arith
length-pop (c ∷ d ∷ cs) = omega (arith, length-pop (d ∷ cs))

length-pop_lt : (c : Citation) (cs : List Citation) → length (pop (c ∷ cs)) ≤ length cs
unfolding pop
length-pop_lt c [] = omega arith
length-pop_lt c (d ∷ cs) = omega (arith, length-pop_lt d cs)

pop-IsSound : {cs : List Citation} → IsSound cs → IsSound (pop cs)
pop-IsSound {cs} s = record {
  few = omega (arith, length-pop cs, s.few);
  clean = All-pop IsClean cs s.clean;
  distinct = Distinct-pop [] cs s.distinct;
}

module _ (size : List Citation → ℕ) where
  shrink-IsSound : (rounds : ℕ) (cs : List Citation) → IsSound cs → IsSound (shrink size rounds cs)
  unfolding shrink
  shrink-IsSound zero cs s = s
  shrink-IsSound (suc rounds) cs s = elim (Bool-cases (ltb max_json_bytes (size cs))) [
    | inl big ↦ rw big (shrink-IsSound rounds (pop cs) (pop-IsSound s))
    | inr fits ↦ rw fits s
  ]

  shrink-fits :
      (rounds : ℕ) (cs : List Citation)
      → size [] ≤ max_json_bytes
      → length cs ≤ rounds
      → size (shrink size rounds cs) ≤ max_json_bytes
  unfolding shrink
  shrink-fits zero [] z h = z
  shrink-fits zero (c ∷ cs) z h = elim h [ ]
  shrink-fits (suc rounds) [] z h = ground arith
  shrink-fits (suc rounds) (c ∷ cs) z h =
      ground (arith, length-pop_lt c cs, shrink-fits rounds (pop (c ∷ cs)) z)

  -- Whatever value an event carries: at most 50 citations come out, each with a well-formed file
  -- id and with its texts, page and times in range, no two the same, and their JSON fits the
  -- column's limit, if that of the empty list does.
  pub sanitize_citations_bounded :
      (raw : Json)
      → size [] ≤ max_json_bytes
      → let cs = sanitize_citations size raw in
        (length cs ≤ max_citations) × All IsClean cs × Distinct [] cs × (size cs ≤ max_json_bytes)
  unfolding sanitize_citations
  sanitize_citations_bounded (arr items) z =
      let cs = collect [] items in
      let s = shrink-IsSound (length cs) cs (collect-IsSound [] items (omega arith) tt tt) in
      (s.few, s.clean, s.distinct, shrink-fits (length cs) cs z (omega arith))
  sanitize_citations_bounded _ z = (omega arith, tt, tt, z)
