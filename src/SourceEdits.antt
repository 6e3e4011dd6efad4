-- ===== src/SourceEdits.antt =====
-- `SourceEditRepository` of app/repositories/source_edit_repository.py over the table `source_edits`,
-- whose rows are unique by owner, conversation, message and block. `save` and `delete` run a statement
-- that writes, and a read when it wrote nothing; others may commit between the two, as `between`
-- tells. No lock is taken, so the statement of a save takes its snapshot first, which the count of the
-- insert is made on, and others may commit before it writes, as `during` tells. What it writes, the
-- unique key and the version that it compares are those of the table then.
pub mod Limit
use conversation_service.Prelude.{
  ℕ, ◌+◌, Bool, true, false, not, ◌&&◌, ◌||◌, Option, none, some, List, [], ◌∷◌, ◌++◌, ltb, ◌==◌,
  if◌then◌else◌, keep, any, head?, length,
}
use mathlib.Core.List.{map}
use conversation_service.Model.{Uuid, Time, Text}
use conversation_service.Text.{text_eq}

pub record SourceEdit : Type 0 where
  pub owner_id : Uuid
  pub conversation_id : Uuid
  pub message_id : Uuid
  pub block_id : Text
  pub language : Text
  pub source_format : Text
  pub original_sha256 : Text
  pub content : Text
  pub version : ℕ
  pub created_at : Time
  pub updated_at : Time

-- What names an edit.
pub record EditKey : Type 0 where
  pub owner : Uuid
  pub conversation : Uuid
  pub message : Uuid
  pub block : Text

-- What `save` returns, or the exception that it raises.
pub data SavedEdit : Type 0 where
  stored_edit : SourceEdit → Bool → SavedEdit
  edit_conflict : Option SourceEdit → SavedEdit
  limit_reached : SavedEdit

pub data Deleted : Type 0 where
  deleted_edit : Bool → Deleted
  delete_conflict : SourceEdit → Deleted

abbrev pub in_conversation : Uuid → Uuid → SourceEdit → Bool
in_conversation owner conversation e = (e.owner_id == owner) && (e.conversation_id == conversation)

abbrev pub is_edit : EditKey → SourceEdit → Bool
is_edit k e =
    in_conversation k.owner k.conversation e
    && (e.message_id == k.message)
    && text_eq e.block_id k.block

-- `SELECT count(*)`
abbrev pub count : Uuid → Uuid → List SourceEdit → ℕ
count owner conversation t = length (keep (in_conversation owner conversation) t)

abbrev pub get_edit : EditKey → List SourceEdit → Option SourceEdit
get_edit k t = head? (keep (is_edit k) t)

-- INSERT ... SELECT ... WHERE count < :cap ON CONFLICT DO NOTHING, with the count of the snapshot
unfoldable pub insert_edit :
    EditKey → SourceEdit → ℕ → ℕ → List SourceEdit → Option SourceEdit × List SourceEdit
insert_edit k new cap counted t =
    if ltb counted cap && not (any (is_edit k) t) then (some new, t ++ new ∷ []) else (none, t)

abbrev pub updates : EditKey → Text → ℕ → SourceEdit → Bool
updates k content expected e =
    is_edit k e && (e.version == expected) && not (text_eq e.content content)

abbrev pub rewritten : Text → Time → SourceEdit → SourceEdit
rewritten content now e = record e { content = content; version = e.version + 1; updated_at = now }

abbrev pub rewrite_where : EditKey → Text → ℕ → Time → SourceEdit → SourceEdit
rewrite_where k content expected now e =
    if updates k content expected e then rewritten content now e else e

-- UPDATE ... WHERE version = :exp AND content IS DISTINCT FROM :content
unfoldable pub update_edit :
    EditKey → Text → ℕ → Time → List SourceEdit → Option SourceEdit × List SourceEdit
update_edit k content expected now t = (
  head? (map (rewritten content now) (keep (updates k content expected) t)),
  map (rewrite_where k content expected now) t,
)

-- The read that follows a statement which wrote nothing.
abbrev pub explained : ℕ → Text → Option SourceEdit → SavedEdit
explained expected content none = if expected == 0 then limit_reached else edit_conflict none
explained expected content (some current) =
    if text_eq current.content content
    then stored_edit current false
    else edit_conflict (some current)

abbrev pub new_edit : EditKey → Text → Text → Text → Text → Time → SourceEdit
new_edit k content language source_format original_sha256 now = record {
  owner_id = k.owner;
  conversation_id = k.conversation;
  message_id = k.message;
  block_id = k.block;
  language = language;
  source_format = source_format;
  original_sha256 = original_sha256;
  content = content;
  version = 1;
  created_at = now;
  updated_at = now;
}

abbrev pub removal : EditKey → ℕ → SourceEdit → Bool
removal k expected e = is_edit k e && (e.version == expected)

abbrev pub not_removed : Option SourceEdit → Deleted
not_removed none = deleted_edit false
not_removed (some current) = delete_conflict current

-- One request to the repository, with the arguments of the call.
pub data EditRequest : Type 0 where
  save_request : EditKey → Text → ℕ → Text → Text → Text → Time → EditRequest
  delete_request : EditKey → ℕ → EditRequest

-- The write of `save`, on the snapshot `t`.
unfoldable pub written_edit :
    (List SourceEdit → List SourceEdit)
    → EditKey
    → Text
    → ℕ
    → Text
    → Text
    → Text
    → ℕ
    → Time
    → List SourceEdit
    → Option SourceEdit × List SourceEdit
unfolding insert_edit update_edit
written_edit during k content expected language source_format original_sha256 cap now t =
    if expected == 0
    then insert_edit k (new_edit k content language source_format original_sha256 now) cap
        (count k.owner k.conversation t) (during t)
    else update_edit k content expected now (during t)

module _ (between : List SourceEdit → List SourceEdit) where
  abbrev pub saved_edit :
      EditKey → Text → ℕ → Option SourceEdit × List SourceEdit → SavedEdit × List SourceEdit
  saved_edit k content expected (some row, t) = (stored_edit row true, t)
  saved_edit k content expected (none, t) =
      (explained expected content (get_edit k (between t)), between t)

  unfoldable pub save_edit :
      (List SourceEdit → List SourceEdit)
      → EditKey
      → Text
      → ℕ
      → Text
      → Text
      → Text
      → ℕ
      → Time
      → List SourceEdit
      → SavedEdit × List SourceEdit
  unfolding written_edit
  save_edit during k content expected language source_format original_sha256 cap now t =
      saved_edit k content expected
        (written_edit during k content expected language source_format original_sha256 cap now t)

  -- DELETE ... WHERE version = :exp RETURNING 1
  unfoldable pub delete_edit : EditKey → ℕ → List SourceEdit → Deleted × List SourceEdit
  delete_edit k expected t =
      if any (removal k expected) t
      then (deleted_edit true, keep (λ e. not (removal k expected e)) t)
      else (not_removed (get_edit k (between t)), between t)

  -- The table after a request, and after several.
  unfoldable pub run_edit :
      (List SourceEdit → List SourceEdit) → ℕ → EditRequest → List SourceEdit → List SourceEdit
  unfolding save_edit delete_edit
  run_edit during cap (save_request k content expected language format sha now) t =
      (save_edit during k content expected language format sha cap now t).1
  run_edit during cap (delete_request k expected) t = (delete_edit k expected t).1

  unfoldable pub run_edits :
      (List SourceEdit → List SourceEdit) → ℕ → List EditRequest → List SourceEdit → List SourceEdit
  unfolding run_edit
  run_edits during cap [] t = t
  run_edits during cap (r ∷ rs) t = run_edits during cap rs (run_edit during cap r t)
