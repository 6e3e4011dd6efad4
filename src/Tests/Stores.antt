-- ===== src/Tests/Stores.antt =====
-- A document of notes that is saved twice from one version, and the reference of a custom mode.
use conversation_service.Prelude.{
  ◌+◌, ◌≤◌, ◌≡◌, refl, none, some, List, [], ◌∷◌, arith, ◌==◌, if◌then◌else◌, ◌&&◌,
}
use conversation_service.Model.{Uuid, Text}
use conversation_service.Strings.{codes}
use conversation_service.Notes.{NotesRow, NotesTable, version_conflict, save}
use conversation_service.Notes.Register.{register_save, Shows, verdict, save-register_save}
use conversation_service.Notes.Honest.{Honest, save-Honest}
use conversation_service.SourceEdits.{
  SourceEdit, EditKey, EditRequest, save_request, delete_request, new_edit, count, run_edits,
  run_edit, save_edit, written_edit, insert_edit, update_edit, delete_edit,
}
use conversation_service.SourceEdits.Limit.{IsWithin, run_edits-IsWithin}
use conversation_service.Text.{strip, is_space}
use conversation_service.CustomModes.{from_hex, custom_ref, parse_custom_ref}
use conversation_service.CustomModes.Ref.{parse_custom_ref-custom_ref}

abbrev document : NotesRow
document = record { content = codes "b"; version = 2; updated_at = 5 }

abbrev notes : NotesTable
notes o c = if (o == 7) && (c == 1) then some document else none

abbrev history : List Text
history = codes "b" ∷ codes "a" ∷ []

save-register_save_example :
    (verdict (save 7 1 (λ t. t) (codes "c") 2 9 notes).0 ≡ (register_save (codes "c") 2 history).0)
    × Shows
        (register_save (codes "c") 2 history).1
        ((save 7 1 (λ t. t) (codes "c") 2 9 notes).1 7 1)
save-register_save_example =
    save-register_save 7 1 (λ t. t) (λ t. refl) (codes "c") 2 9 notes history (refl, refl)

save-Honest_example :
    Honest 7 1 (λ t. t) (codes "c") 2 notes (save 7 1 (λ t. t) (codes "c") 2 9 notes)
save-Honest_example = save-Honest 7 1 (λ t. t) (codes "c") 2 9 notes

-- A second writer with the same version is refused.
second_writer :
    (save 7 1 (λ t. t) (codes "d") 2 10 (save 7 1 (λ t. t) (codes "c") 2 9 notes).1).0
    ≡ version_conflict (some (record { content = codes "c"; version = 3; updated_at = 9 }))
unfolding save
second_writer = refl

parse_custom_ref-custom_ref_example : parse_custom_ref (some (custom_ref 4096)) ≡ some 4096
parse_custom_ref-custom_ref_example = parse_custom_ref-custom_ref 4096 (omega arith)

spaced : parse_custom_ref (some (codes " custom:00000000-0000-0000-0000-0000000000fF ")) ≡ some 255
unfolding parse_custom_ref strip is_space from_hex
spaced = refl

abbrev block : Text → EditKey
block b = record { owner = 7; conversation = 1; message = 3; block = b }

-- Two blocks saved, the first one twice, and the second one discarded.
abbrev edit_requests : List EditRequest
edit_requests =
    save_request (block (codes "a")) (codes "x") 0 (codes "py") (codes "md") (codes "s") 5
    ∷ save_request (block (codes "b")) (codes "y") 0 (codes "py") (codes "md") (codes "s") 6
    ∷ save_request (block (codes "a")) (codes "z") 1 (codes "py") (codes "md") (codes "s") 7
    ∷ delete_request (block (codes "b")) 1
    ∷ []

-- Another session saves a block of the conversation while the first save runs.
abbrev other_save : List SourceEdit → List SourceEdit
other_save [] =
    new_edit (block (codes "c")) (codes "w") (codes "py") (codes "md") (codes "s") 5 ∷ []
other_save (e ∷ t) = e ∷ t

other_save-few : (t : List SourceEdit) (o c : Uuid) → count o c (other_save t) ≤ count o c t + 1
other_save-few [] o c = ground arith
other_save-few (e ∷ t) o c = omega arith

other_save-IsWithin : (t : List SourceEdit) → IsWithin 2 t → IsWithin 2 (other_save t)
other_save-IsWithin [] within = λ o c. ground arith
other_save-IsWithin (e ∷ t) within = within

run_edits-IsWithin_example : IsWithin 2 (run_edits (λ t. t) other_save 1 edit_requests [])
run_edits-IsWithin_example =
    run_edits-IsWithin 1 1 other_save (λ t. t) other_save-few other_save-IsWithin
      (λ t within. within) edit_requests [] (λ o c. omega arith)

-- Two first saves at once both find room for one, and the limit of one is passed.
both_saved : count 7 1 (run_edits (λ t. t) other_save 1 edit_requests []) ≡ 2
unfolding run_edits run_edit save_edit written_edit insert_edit update_edit delete_edit
both_saved = refl
