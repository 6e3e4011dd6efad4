-- ===== src/CustomModes/Repository.antt =====
-- `CustomModeRepository` of app/repositories/pg_repositories.py over the table `custom_modes` of
-- app/models/sql_models.py. Each statement is a method over the table; `normalize_name` is handed in.
use conversation_service.Prelude.{
  ℕ, ◌+◌, Bool, true, false, not, ◌&&◌, ◌||◌, Option, none, some, List, ◌∷◌, leb, ◌==◌,
  if◌then◌else◌, keep, any, head?, length, get_or,
}
use mathlib.Core.List.{map}
use conversation_service.Model.{Uuid, Time, Text}
use conversation_service.Text.{text_eq}
use conversation_service.Errors.{
  Method, ok, raised, return, fail, ◌>>=◌, custom_mode_limit, custom_mode_name_taken,
  custom_mode_not_found, custom_mode_conflict,
}

pub data ExecutionStyle : Type 0 where
  direct smart : ExecutionStyle

pub data ModeStatus : Type 0 where
  active archived : ModeStatus

pub record CustomModeRecord : Type 0 where
  pub mode_id : Uuid
  pub owner_user_id : Uuid
  pub name : Text
  pub name_normalized : Text
  pub description : Text
  pub instructions : Text
  pub execution_style : ExecutionStyle
  pub status : ModeStatus
  pub version : ℕ
  pub created_at : Time
  pub updated_at : Time
  pub archived_at : Option Time

abbrev pub CustomModeTable : Type 0
CustomModeTable = List CustomModeRecord

abbrev pub is_current : CustomModeRecord → Bool
is_current r = elim r.status as (λ s. Bool) [ active ↦ true | archived ↦ false ]

abbrev pub belongs_to : Uuid → CustomModeRecord → Bool
belongs_to owner r = r.owner_user_id == owner && is_current r

-- `SELECT count(*) ... WHERE status = 'active'`
abbrev pub active_count : Uuid → CustomModeTable → ℕ
active_count owner t = length (keep (belongs_to owner) t)

-- `length(btrim(text)) > 0`: some character is no space.
abbrev not_blank : Text → Bool
not_blank s = any (λ c. not (c == 32)) s

-- The unique index on the active names of an owner.
abbrev same_name : CustomModeRecord → CustomModeRecord → Bool
same_name r s =
    is_current r
    && is_current s
    && r.owner_user_id == s.owner_user_id
    && text_eq r.name_normalized s.name_normalized

-- The constraints of the table on one row, given the others.
unfoldable pub accepts : CustomModeRecord → CustomModeTable → Bool
accepts r t =
    not_blank r.name
    && not_blank r.instructions
    && leb 1 r.version
    && not (any (λ s. s.mode_id == r.mode_id || same_name r s) t)

-- What `create` is given, with the id and the time that are drawn in it.
pub record NewMode : Type 0 where
  pub id : Uuid
  pub name : Text
  pub description : Text
  pub instructions : Text
  pub execution_style : ExecutionStyle
  pub now : Time

module _ (normalize_name : Text → Text) where
  abbrev pub new_record : Uuid → NewMode → CustomModeRecord
  new_record owner m = record {
    mode_id = m.id;
    owner_user_id = owner;
    name = m.name;
    name_normalized = normalize_name m.name;
    description = m.description;
    instructions = m.instructions;
    execution_style = m.execution_style;
    status = active;
    version = 1;
    created_at = m.now;
    updated_at = m.now;
    archived_at = none;
  }

-- `flush` of a new record.
unfoldable pub flush : CustomModeRecord → Method CustomModeTable CustomModeRecord
unfolding accepts
flush r t = if accepts r t then (ok r, r ∷ t) else (raised custom_mode_name_taken, t)

abbrev pub is_full : ℕ → ℕ → Bool
is_full max_per_user current = leb max_per_user current

module _ (normalize_name : Text → Text) where
  -- What follows the count, which the lock of the owner protects from other creations.
  unfoldable pub create_counted : ℕ → Uuid → NewMode → ℕ → Method CustomModeTable CustomModeRecord
  unfolding flush
  create_counted max_per_user owner m current =
      if is_full max_per_user current
      then fail (custom_mode_limit max_per_user)
      else flush (new_record normalize_name owner m)

  unfoldable pub create : ℕ → Uuid → NewMode → Method CustomModeTable CustomModeRecord
  unfolding create_counted
  create max_per_user owner m t = create_counted max_per_user owner m (active_count owner t) t

abbrev pub is_mode : Uuid → Uuid → CustomModeRecord → Bool
is_mode owner mode_id r = r.mode_id == mode_id && r.owner_user_id == owner

abbrev pub visible : Bool → CustomModeRecord → Bool
visible include_archived r = include_archived || is_current r

abbrev pub find_mode : Uuid → Uuid → Bool → CustomModeTable → Option CustomModeRecord
find_mode owner mode_id include_archived t =
    head? (keep (λ r. is_mode owner mode_id r && visible include_archived r) t)

-- `get`
abbrev pub get_mode : Uuid → Uuid → Bool → Method CustomModeTable (Option CustomModeRecord)
get_mode owner mode_id include_archived t = (ok (find_mode owner mode_id include_archived t), t)

-- The fields that an update sends (`CustomModeUpdate.changes`).
pub record Changes : Type 0 where
  pub name : Option Text
  pub description : Option Text
  pub instructions : Option Text
  pub execution_style : Option ExecutionStyle

abbrev pub has_version : Option ℕ → CustomModeRecord → Bool
has_version none r = true
has_version (some v) r = r.version == v

-- The WHERE of the update.
abbrev pub is_updated : Uuid → Uuid → Option ℕ → CustomModeRecord → Bool
is_updated owner mode_id expected_version r =
    is_mode owner mode_id r && is_current r && has_version expected_version r

module _ (normalize_name : Text → Text) where
  abbrev pub renamed : Option Text → Text → Text
  renamed none old = old
  renamed (some name) old = normalize_name name

  abbrev pub changed : Changes → Time → CustomModeRecord → CustomModeRecord
  changed c now r = record r {
    name = get_or c.name r.name;
    name_normalized = renamed c.name r.name_normalized;
    description = get_or c.description r.description;
    instructions = get_or c.instructions r.instructions;
    execution_style = get_or c.execution_style r.execution_style;
    version = r.version + 1;
    updated_at = now;
  }

-- An UPDATE of the rows that a test selects.
abbrev pub rewrite :
    (CustomModeRecord → Bool)
    → (CustomModeRecord → CustomModeRecord)
    → CustomModeTable
    → CustomModeTable
rewrite p f t = map (λ r. if p r then f r else r) t

-- The rows that the index compares a changed row with.
abbrev pub others : Uuid → CustomModeTable → CustomModeTable
others mode_id t = keep (λ r. not (r.mode_id == mode_id)) t

-- `update ... returning`, whose row is unique by its id.
unfoldable pub update_row :
    (CustomModeRecord → Bool)
    → (CustomModeRecord → CustomModeRecord)
    → Uuid
    → Method CustomModeTable (Option CustomModeRecord)
unfolding accepts
update_row p f mode_id t = elim (head? (keep p t)) [
  | none ↦ (ok none, t)
  | some r ↦
      if accepts (f r) (others mode_id t)
      then (ok (some (f r)), rewrite p f t)
      else (raised custom_mode_name_taken, t)
]

abbrev pub refused : Option CustomModeRecord → Method CustomModeTable CustomModeRecord
refused none = fail custom_mode_not_found
refused (some current) = fail (custom_mode_conflict current.version)

abbrev pub updated_row :
    Uuid → Uuid → Option CustomModeRecord → Method CustomModeTable CustomModeRecord
updated_row owner mode_id none = get_mode owner mode_id false >>= refused
updated_row owner mode_id (some r) = return r

module _ (normalize_name : Text → Text) where
  unfoldable pub update :
      Uuid → Uuid → Changes → Option ℕ → Time → Method CustomModeTable CustomModeRecord
  unfolding update_row
  update owner mode_id changes expected_version now = do
    row ←
        update_row (is_updated owner mode_id expected_version) (changed normalize_name changes now)
          mode_id
    updated_row owner mode_id row

abbrev pub archive_record : Time → CustomModeRecord → CustomModeRecord
archive_record now r = record r {
  status = archived;
  archived_at = some now;
  updated_at = now;
  version = r.version + 1;
}

-- The second read of `archive` finds the row that another request archived first.
abbrev pub archived_row :
    Uuid → Uuid → Option CustomModeRecord → Method CustomModeTable (Option CustomModeRecord)
archived_row owner mode_id none = get_mode owner mode_id true
archived_row owner mode_id (some r) = return (some r)

abbrev pub archive_existing :
    Uuid → Uuid → Time → Option CustomModeRecord → Method CustomModeTable (Option CustomModeRecord)
archive_existing owner mode_id now none = fail custom_mode_not_found
archive_existing owner mode_id now (some r) =
    if is_current r
    then update_row (is_updated owner mode_id none) (archive_record now) mode_id
      >>= archived_row owner mode_id
    else return (some r)

unfoldable pub archive : Uuid → Uuid → Time → Method CustomModeTable (Option CustomModeRecord)
unfolding update_row
archive owner mode_id now = get_mode owner mode_id true >>= archive_existing owner mode_id now
