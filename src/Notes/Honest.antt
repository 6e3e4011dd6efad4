-- ===== src/Notes/Honest.antt =====
-- What a save of notes did, whatever others write between its two statements.
use conversation_service.Prelude.{
  ℕ, ◌+◌, ◌≡◌, refl, sym, ap, ◌∙◌, true, false, not, ◌&&◌, Option, none, some, arith, Bool-cases,
  Option-cases, inl, inr, ◌==◌, ==_iff,
}
use conversation_service.Model.{Uuid, Time, Text}
use conversation_service.Text.{text_eq}
use conversation_service.Notes.{
  NotesRow, NotesTable, Saved, stored, version_conflict, insert_first, update_version, write,
  reread, put, answer, save,
}

-- "No document yet" is version 0.
abbrev pub version_of : Option NotesRow → ℕ
version_of none = 0
version_of (some row) = row.version

module _ (owner conversation_id : Uuid) (between : NotesTable → NotesTable) where
  -- A save that wrote found the version that it expected, stored its text under the next version, and
  -- touched no other document; one that did not write left the table to the others, and tells the
  -- document that stands there.
  abbrev pub Honest : Text → ℕ → NotesTable → Saved × NotesTable → Type 0
  Honest content expected t (stored row true, u) =
      (version_of (t owner conversation_id) ≡ expected)
      × (row.content ≡ content)
      × (row.version ≡ expected + 1)
      × (u ≡ put owner conversation_id row t)
  Honest content expected t (stored row false, u) =
      (u ≡ between t) × (u owner conversation_id ≡ some row) × (text_eq row.content content ≡ true)
  Honest content expected t (version_conflict current, u) =
      (u ≡ between t) × (u owner conversation_id ≡ current)

  Wrote : Text → ℕ → NotesTable → Option NotesRow × NotesTable → Type 0
  Wrote content expected t (none, u) = u ≡ t
  Wrote content expected t (some row, u) = Honest content expected t (stored row true, u)

  write-Wrote :
      (content : Text) (expected : ℕ) (now : Time) (t : NotesTable)
      → Wrote content expected t (write owner conversation_id content expected now t)
  unfolding Wrote write
  write-Wrote content expected now t = elim (Option-cases (t owner conversation_id)) [
    | inl e ↦ elim (Bool-cases (expected == 0)) [
      | inl y ↦
          rw (y, e, insert_first, write)
            (
              ap version_of e ∙ sym ((==_iff expected 0).0 y),
              refl,
              ap (λ k. k + 1) (sym ((==_iff expected 0).0 y)),
              refl,
            )
      | inr n ↦ rw (n, e, update_version, write) refl
    ]
    | inr (row, e) ↦ elim (Bool-cases (expected == 0)) [
      | inl y ↦ rw (y, e, insert_first, write) refl
      | inr n ↦ elim (Bool-cases ((row.version == expected) && not (text_eq row.content content))) [
        | inl m ↦
            let same : row.version ≡ expected =
              (==_iff row.version expected).0 (ground (arith, m)) in
            rw (n, e, m, update_version, write)
              (ap version_of e ∙ same, refl, ap (λ k. k + 1) same, refl)
        | inr m ↦ rw (n, e, m, update_version, write) refl
      ]
    ]
  ]

  answer-Honest :
      (content : Text) (expected : ℕ) (t : NotesTable) (p : Option NotesRow × NotesTable)
      → Wrote content expected t p
      → Honest content expected t (answer owner conversation_id between content p)
  unfolding Wrote
  answer-Honest content expected t (some row, u) w = w
  answer-Honest content expected t (none, u) w =
      elim (Option-cases (between u owner conversation_id)) [
        | inl e ↦ rw (e, reread) (ap between w, e)
        | inr (current, e) ↦ elim (Bool-cases (text_eq current.content content)) [
          | inl y ↦ rw (e, y, reread) (ap between w, e, y)
          | inr n ↦ rw (e, n, reread) (ap between w, e)
        ]
      ]

  -- Whatever others commit between the two statements of a save: if it reports a write, the stored
  -- version was the expected one, the text now stands under the next version, and no other document
  -- changed; if not, it wrote nothing, and it returns or reports the document as it stands.
  pub save-Honest :
      (content : Text) (expected : ℕ) (now : Time) (t : NotesTable)
      → Honest content expected t (save owner conversation_id between content expected now t)
  unfolding save
  save-Honest content expected now t =
      answer-Honest content expected t _ (write-Wrote content expected now t)
