-- ===== src/Notes.antt =====
-- `NotesRepository` of app/repositories/notes_repository.py over the table `conversation_notes`, which
-- holds one document for an owner and a conversation. `save` runs two statements; others may commit
-- between them, as `between` tells.
pub mod Register
pub mod Honest
use conversation_service.Prelude.{
  ℕ, ◌+◌, Bool, true, false, not, ◌&&◌, Option, none, some, ◌==◌, if◌then◌else◌,
}
use conversation_service.Model.{Uuid, Time, Text}
use conversation_service.Text.{text_eq}

pub record NotesRow : Type 0 where
  pub content : Text
  pub version : ℕ
  pub updated_at : Time

-- conversation_notes, by owner and conversation.
abbrev pub NotesTable : Type 0
NotesTable = Uuid → Uuid → Option NotesRow

-- What `save` returns, or the `NotesVersionConflict` that it raises.
pub data Saved : Type 0 where
  stored : NotesRow → Bool → Saved
  version_conflict : Option NotesRow → Saved

module _ (owner conversation_id : Uuid) where
  abbrev pub put : NotesRow → NotesTable → NotesTable
  put row t o c = if (o == owner) && (c == conversation_id) then some row else t o c

  -- INSERT ... ON CONFLICT DO NOTHING RETURNING
  unfoldable pub insert_first : Text → Time → NotesTable → Option NotesRow × NotesTable
  insert_first content now t = elim (t owner conversation_id) [
    | some row ↦ (none, t)
    | none ↦
        let row : NotesRow = record { content = content; version = 1; updated_at = now } in
        (some row, put row t)
  ]

  -- UPDATE ... WHERE version = :exp AND content IS DISTINCT FROM :content RETURNING
  unfoldable pub update_version : Text → ℕ → Time → NotesTable → Option NotesRow × NotesTable
  update_version content expected now t = elim (t owner conversation_id) [
    | none ↦ (none, t)
    | some row ↦
        let next : NotesRow = record {
          content = content;
          version = row.version + 1;
          updated_at = now;
        } in
        if (row.version == expected) && not (text_eq row.content content)
        then (some next, put next t)
        else (none, t)
  ]

  unfoldable pub write : Text → ℕ → Time → NotesTable → Option NotesRow × NotesTable
  unfolding insert_first update_version
  write content expected now t =
      if expected == 0 then insert_first content now t else update_version content expected now t

  abbrev pub reread : Text → Option NotesRow → Saved
  reread content none = version_conflict none
  reread content (some current) =
      if text_eq current.content content
      then stored current false
      else version_conflict (some current)

  -- What follows the first statement: nothing, when it wrote a row.
  abbrev pub answer :
      (NotesTable → NotesTable) → Text → Option NotesRow × NotesTable → Saved × NotesTable
  answer between content (some written, t) = (stored written true, t)
  answer between content (none, t) = (reread content (between t owner conversation_id), between t)

  unfoldable pub save :
      (NotesTable → NotesTable) → Text → ℕ → Time → NotesTable → Saved × NotesTable
  unfolding write
  save between content expected now t = answer between content (write content expected now t)
