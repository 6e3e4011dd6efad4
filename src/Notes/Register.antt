-- ===== src/Notes/Register.antt =====
-- A document of notes beside a register that keeps every text that was written.
use conversation_service.Prelude.{
  ℕ, suc, ◌+◌, ◌≡◌, refl, sym, subst, ap, ◌∙◌, Bool, true, false, not, ◌&&◌, Option, none, some,
  List, [], ◌∷◌, arith, Bool-cases, Option-cases, inl, inr, ◌==◌, ==_refl, length, if◌then◌else◌,
}
use conversation_service.Model.{Uuid, Time, Text}
use conversation_service.Text.{text_eq}
use conversation_service.Notes.{
  NotesRow, NotesTable, Saved, stored, version_conflict, insert_first, update_version, write, put,
  answer, save,
}

-- What the register answers.
pub data Verdict : Type 0 where
  written unchanged refused : Verdict

abbrev latest : Text → List Text → Bool
latest content [] = false
latest content (c ∷ older) = text_eq c content

-- The register: the texts, newest first. The version is their number.
unfoldable pub register_save : Text → ℕ → List Text → Verdict × List Text
register_save content expected history =
    if latest content history
    then (unchanged, history)
    else if expected == length history
    then (written, content ∷ history)
    else (refused, history)

abbrev pub verdict : Saved → Verdict
verdict (stored row true) = written
verdict (stored row false) = unchanged
verdict (version_conflict current) = refused

-- The stored document, as the register sees it.
abbrev pub Shows : List Text → Option NotesRow → Type 0
Shows [] none = Unit
Shows [] (some row) = ⊥
Shows (c ∷ older) none = ⊥
Shows (c ∷ older) (some row) = (row.content ≡ c) × (row.version ≡ suc (length older))

module _ (owner conversation_id : Uuid) (between : NotesTable → NotesTable)
    (quiet : (t : NotesTable) → between t owner conversation_id ≡ t owner conversation_id) where
  abbrev here : NotesTable → Option NotesRow
  here t = t owner conversation_id

  abbrev saved : Text → ℕ → Time → NotesTable → Saved × NotesTable
  saved = save owner conversation_id between

  write-save :
      (content : Text) (expected : ℕ) (now : Time) (t : NotesTable)
      (p : Option NotesRow × NotesTable)
      → write owner conversation_id content expected now t ≡ p
      → saved content expected now t ≡ answer owner conversation_id between content p
  unfolding save
  write-save content expected now t p e = ap (answer owner conversation_id between content) e

  abbrev Agrees : Text → ℕ → List Text → Saved × NotesTable → Type 0
  Agrees content expected history p =
      (verdict p.0 ≡ (register_save content expected history).0)
      × Shows (register_save content expected history).1 (here p.1)

  here-put : (row : NotesRow) (t : NotesTable) → here (put owner conversation_id row t) ≡ some row
  here-put row t = rw (==_refl owner, ==_refl conversation_id) refl

  save_missing :
      (content : Text) (expected : ℕ) (now : Time) (t : NotesTable)
      → here t ≡ none
      → Agrees content expected [] (saved content expected now t)
  unfolding write register_save
  save_missing content expected now t e = elim (Bool-cases (expected == 0)) [
    | inl y ↦
        let row : NotesRow = record { content = content; version = 1; updated_at = now } in
        subst (Agrees content expected [])
          (sym (
            write-save content expected now t (some row, put owner conversation_id row t)
              (rw (y, e, insert_first, write) refl)))
          (rw (y, register_save)
            (refl, subst (Shows (content ∷ [])) (sym (here-put row t)) (refl, refl)))
    | inr n ↦
        let kept : here (between t) ≡ none = quiet t ∙ e in
        subst (Agrees content expected [])
          (sym
            (write-save content expected now t (none, t) (rw (n, e, update_version, write) refl)))
          (rw (n, kept, register_save) (refl, tt))
  ]

  -- The first statement wrote nothing.
  save_idle :
      (content : Text) (expected : ℕ) (now : Time) (t : NotesTable) (older : List Text)
      (row : NotesRow)
      → here t ≡ some row
      → row.version ≡ suc (length older)
      → write owner conversation_id content expected now t ≡ (none, t)
      → (text_eq row.content content ≡ false → (expected == suc (length older)) ≡ false)
      → Agrees content expected (row.content ∷ older) (saved content expected now t)
  unfolding register_save
  save_idle content expected now t older row e same_version w stale =
      let kept : here (between t) ≡ some row = quiet t ∙ e in
      let shown : Shows (row.content ∷ older) (here (between t)) =
        subst (Shows (row.content ∷ older)) (sym kept) (refl, same_version) in
      subst (Agrees content expected (row.content ∷ older))
        (sym (write-save content expected now t (none, t) w))
        (elim (Bool-cases (text_eq row.content content)) [
          | inl y ↦ (rw (kept, y, register_save) refl, rw (y, register_save) shown)
          | inr n ↦
              (rw (kept, n, stale n, register_save) refl, rw (n, stale n, register_save) shown)
        ])

  save_present :
      (content : Text) (expected : ℕ) (now : Time) (t : NotesTable) (older : List Text)
      (row : NotesRow)
      → here t ≡ some row
      → row.version ≡ suc (length older)
      → Agrees content expected (row.content ∷ older) (saved content expected now t)
  unfolding write register_save
  save_present content expected now t older row e same_version = elim (Bool-cases (expected == 0)) [
    | inl y ↦
        save_idle content expected now t older row e same_version
          (rw (y, e, insert_first, write) refl) (λ n. ground arith)
    | inr n ↦ elim (Bool-cases ((row.version == expected) && not (text_eq row.content content))) [
      | inr m ↦
          save_idle content expected now t older row e same_version
            (rw (n, e, m, update_version, write) refl) (λ d. ground (arith, d, m, same_version))
      | inl y ↦
          let next : NotesRow = record {
            content = content;
            version = row.version + 1;
            updated_at = now;
          } in
          let same : (expected == suc (length older)) ≡ true = ground (arith, same_version, y) in
          let new : text_eq row.content content ≡ false = ground (arith, y) in
          subst (Agrees content expected (row.content ∷ older))
            (sym (
              write-save content expected now t (some next, put owner conversation_id next t)
                (rw (n, e, y, update_version, write) refl)))
            (rw (new, same, register_save)
              (
                refl,
                subst (Shows (content ∷ row.content ∷ older)) (sym (here-put next t))
                    (refl, ap (λ k. k + 1) same_version ∙ omega arith),
              ))
    ]
  ]

  -- A save answers as the register does, and leaves what the register holds, as long as nobody writes
  -- this document between its two statements.
  pub save-register_save :
      (content : Text) (expected : ℕ) (now : Time) (t : NotesTable) (history : List Text)
      → Shows history (t owner conversation_id)
      → (verdict (save owner conversation_id between content expected now t).0
          ≡ (register_save content expected history).0)
        × Shows
            (register_save content expected history).1
            ((save owner conversation_id between content expected now t).1 owner conversation_id)
  save-register_save content expected now t [] shown = elim (Option-cases (here t)) [
    | inl e ↦ save_missing content expected now t e
    | inr (row, e) ↦ absurd (subst (Shows []) e shown)
  ]
  save-register_save content expected now t (c ∷ older) shown = elim (Option-cases (here t)) [
    | inl e ↦ absurd (subst (Shows (c ∷ older)) e shown)
    | inr (row, e) ↦
        let (same_text, same_version) = subst (Shows (c ∷ older)) e shown in
        subst (λ k. Agrees content expected (k ∷ older) (saved content expected now t)) same_text
          (save_present content expected now t older row e same_version)
  ]
