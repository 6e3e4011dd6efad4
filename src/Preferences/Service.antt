-- ===== src/Preferences/Service.antt =====
-- `PreferencesService` of app/services/preferences_service.py over the tables of preferences and of
-- custom modes. The catalog that llm-service answered with is handed in; others may commit before
-- each load and each save of `update`.
use conversation_service.Prelude.{
  ℕ, zero, suc, ◌+◌, Bool, true, false, not, ◌&&◌, ◌||◌, Option, none, some, List, any, ◌==◌,
  if◌then◌else◌, is_some,
}
use conversation_service.Model.{Uuid, Time, Text}
use conversation_service.Text.{is_empty, text_eq}
use conversation_service.Errors.{
  Error, Result, ok, raised, Method, invalid_default_mode, preferences_conflict,
  unknown_catalog_item,
}
use conversation_service.CustomModes.{parse_custom_ref, is_custom_ref}
use conversation_service.CustomModes.Repository.{find_mode}
use conversation_service.Preferences.{UserPreferences}
use conversation_service.Preferences.Rows.{
  UserPreferenceRecord, Database, from_row, version_of, save, delete,
}
use conversation_service.Preferences.Patch.{PreferencesUpdate, bind, merge, validate_document}

pub record Catalog : Type 0 where
  pub modes : List Text
  pub tools : List Text

-- `PreferencesResponse` without its constant `options`.
pub record PreferencesResponse : Type 0 where
  pub document : UserPreferences
  pub default_mode_available : Bool
  pub version : ℕ
  pub updated_at : Option Time

-- `parse_custom_ref(mode) if mode else None`
abbrev pub ref_of_mode : Option Text → Option Uuid
ref_of_mode none = none
ref_of_mode (some m) = if is_empty m then none else parse_custom_ref (some m)

abbrev pub usable : Uuid → Option Uuid → Database → Bool
usable user none db = true
usable user (some id) db = is_some (find_mode user id false db.modes)

abbrev updated_of : Option UserPreferenceRecord → Option Time
updated_of none = none
updated_of (some row) = some row.updated_at

module _ (lower : Text → Text) where
  unfoldable pub get : Uuid → Database → PreferencesResponse
  unfolding from_row parse_custom_ref
  get user db =
      let prefs = from_row lower (db.preferences user) in
      record {
        document = prefs;
        default_mode_available = usable user (ref_of_mode prefs.default_mode) db;
        version = version_of (db.preferences user);
        updated_at = updated_of (db.preferences user);
      }

  unfoldable pub reset : Uuid → Database → PreferencesResponse × Database
  unfolding get delete
  reset user db = (get user (delete user db), delete user db)

-- `patch.default_mode not in (None, "")`
abbrev sends_mode : Option (Option Text) → Bool
sends_mode (some (some m)) = not (is_empty m)
sends_mode _ = false

abbrev sends_tools : Option (Option (List Text)) → Bool
sends_tools (some (some v)) = true
sends_tools _ = false

abbrev lists : List Text → Text → Bool
lists known t = any (text_eq t) known

abbrev lists_mode : Catalog → Option Text → Bool
lists_mode c none = false
lists_mode c (some m) = lists c.modes m

-- What the catalog objects to: a mode or a tool that was sent and that it does not offer.
abbrev pub is_unknown : Catalog → UserPreferences → PreferencesUpdate → Bool
is_unknown c merged patch =
    (sends_mode patch.default_mode
      && not (is_custom_ref merged.default_mode)
      && not (lists_mode c merged.default_mode))
    || (sends_tools patch.default_tools && any (λ t. not (lists c.tools t)) merged.default_tools)

unfoldable pub validate_catalog :
    Option Catalog → UserPreferences → PreferencesUpdate → Result UserPreferences
unfolding is_custom_ref
validate_catalog none merged patch = ok merged
validate_catalog (some c) merged patch =
    if is_unknown c merged patch then raised unknown_catalog_item else ok merged

-- What one attempt is about to save: the document, its custom mode and the version that it replaces.
pub record Plan : Type 0 where
  pub merged : UserPreferences
  pub custom_id : Option Uuid
  pub stored_version : ℕ

abbrev pub is_stale : Option ℕ → ℕ → Bool
is_stale none stored = false
is_stale (some v) stored = not (v == stored)

abbrev pub own_mode : Uuid → Option Uuid → Database → Result (Option Uuid)
own_mode user ref db = if usable user ref db then ok ref else raised invalid_default_mode

module _ (lower : Text → Text) (catalog : Option Catalog) where
  -- An attempt up to its save.
  unfoldable pub plan : Uuid → PreferencesUpdate → Database → Result Plan
  unfolding from_row merge validate_document validate_catalog parse_custom_ref
  plan user patch db =
      let stored = version_of (db.preferences user) in
      if is_stale patch.version stored
      then raised (preferences_conflict stored)
      else bind (validate_document lower (merge (from_row lower (db.preferences user)) patch))
          λ merged. bind (validate_catalog catalog merged patch) λ checked.
            bind (own_mode user (ref_of_mode merged.default_mode) db)
              λ ref. ok (record { merged = merged; custom_id = ref; stored_version = stored })

-- What others commit before the load and before the save of an attempt.
pub record Others : Type 0 where
  pub before_load : ℕ → Database → Database
  pub before_save : ℕ → Database → Database

abbrev pub is_conflict : Error → Bool
is_conflict (preferences_conflict v) = true
is_conflict _ = false

-- The attempts that follow the first one.
abbrev pub retries : Option ℕ → ℕ
retries none = 2
retries (some v) = 0

module _ (lower : Text → Text) (catalog : Option Catalog) (others : Others) (now : Time) where
  -- What follows the save of an attempt; a conflict goes to `again`.
  unfoldable pub after_save :
      Uuid
      → (Error → Method Database PreferencesResponse)
      → Result ℕ
      → Method Database PreferencesResponse
  unfolding get
  after_save user again (ok version) db = (ok (get lower user db), db)
  after_save user again (raised e) db = if is_conflict e then again e db else (raised e, db)

  unfoldable pub after_plan :
      Uuid
      → ℕ
      → (Error → Method Database PreferencesResponse)
      → Result Plan
      → Method Database PreferencesResponse
  unfolding save after_save
  after_plan user k again (raised e) db = (raised e, db)
  after_plan user k again (ok p) db =
      let (r, db') =
        save user p.merged p.custom_id p.stored_version now (others.before_save k db) in
      after_save user again r db'

  -- Attempt `k`, with `left` attempts after it.
  unfoldable pub attempt : Uuid → PreferencesUpdate → ℕ → ℕ → Method Database PreferencesResponse
  unfolding plan after_plan
  attempt user patch zero k db =
      after_plan user k (λ e s. (raised e, s))
        (plan lower catalog user patch (others.before_load k db)) (others.before_load k db)
  attempt user patch (suc left) k db =
      after_plan user k (λ e. attempt user patch left (k + 1))
        (plan lower catalog user patch (others.before_load k db)) (others.before_load k db)

  unfoldable pub update : Uuid → PreferencesUpdate → Method Database PreferencesResponse
  unfolding attempt
  update user patch db = attempt user patch (retries patch.version) 0 db
