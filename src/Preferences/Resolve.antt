-- ===== src/Preferences/Resolve.antt =====
-- `PreferencesService.resolve_for_message`: the mode, the tools and the generation preferences of a
-- message, in the form that `MessageService` takes. A failing database is part of what is handed in.
mod Choices
pub mod Rules
use conversation_service.Prelude.{
  Bool, true, false, not, ◌&&◌, Option, none, some, List, [], ◌∷◌, if◌then◌else◌, is_some,
}
use conversation_service.Model.{Uuid, Text}
use conversation_service.Strings.{codes}
use conversation_service.State.{CustomModeSnapshot}
use conversation_service.Text.{is_empty}
use conversation_service.Errors.{Result, ok, raised, storage, custom_mode_unavailable}
use conversation_service.CustomModes.{parse_custom_ref, is_custom_ref}
use conversation_service.CustomModes.Repository.{CustomModeRecord, find_mode}
use conversation_service.CustomModes.Service.{snapshot_of}
use conversation_service.MessageService.{Resolved}
use conversation_service.Preferences.{UserPreferences, default_preferences, generation_preferences}
use conversation_service.Preferences.Rows.{Database, from_row}
use conversation_service.Preferences.Service.{ref_of_mode}

-- Whether the reads of the two tables succeed.
pub record Reads : Type 0 where
  pub preferences : Bool
  pub modes : Bool

abbrev pub is_filled : Option Text → Bool
is_filled none = false
is_filled (some m) = not (is_empty m)

-- A choice for a message, and whether it came from the saved defaults.
abbrev pub Choice : Type 0 → Type 0
Choice A = Option A × Bool

abbrev pub choose_mode : Option Text → Option Text → Choice Text
choose_mode (some m) default = (some m, false)
choose_mode none default = if is_filled default then (default, true) else (none, false)

abbrev no_tools : List Text → Bool
no_tools [] = true
no_tools (t ∷ ts) = false

abbrev pub choose_tools : Option (List Text) → List Text → Choice (List Text)
choose_tools (some tools) defaults = (some tools, false)
choose_tools none defaults = if no_tools defaults then (none, false) else (some defaults, true)

-- The mode that the event carries, whether it is a default, and the custom mode.
pub record ModeChoice : Type 0 where
  pub mode : Option Text
  pub applied : Bool
  pub custom_mode : Option CustomModeSnapshot

-- The built-in path that a custom mode runs on.
abbrev pub execution_mode : CustomModeSnapshot → Text
execution_mode snapshot = if snapshot.smart then codes "smart" else codes "default"

abbrev pub with_record : Choice Text → Bool → Option CustomModeRecord → Result ModeChoice
with_record c explicit none =
    if explicit
    then raised custom_mode_unavailable
    else ok (record { mode = none; applied = false; custom_mode = none })
with_record c explicit (some r) = ok (record {
  mode = some (execution_mode (snapshot_of r));
  applied = c.1;
  custom_mode = some (snapshot_of r);
})

abbrev pub with_mode : Choice (List Text) → UserPreferences → Result ModeChoice → Result Resolved
with_mode tools prefs (raised e) = raised e
with_mode tools prefs (ok m) = ok (record {
  mode = m.mode;
  selected_tools = tools.0;
  defaults_applied = record { mode = m.applied; tools = tools.1 };
  generation = some (generation_preferences prefs);
  custom_mode = m.custom_mode;
})

module _ (lower : Text → Text) (reads : Reads) (db : Database) where
  unfoldable pub load_preferences : Option Uuid → UserPreferences
  unfolding from_row
  load_preferences none = default_preferences
  load_preferences (some user) =
      if reads.preferences then from_row lower (db.preferences user) else default_preferences

  abbrev pub resolve_custom : Option Uuid → Choice Text → Bool → Uuid → Result ModeChoice
  resolve_custom none c explicit ref = raised custom_mode_unavailable
  resolve_custom (some user) c explicit ref =
      if reads.modes
      then with_record c explicit (find_mode user ref false db.modes)
      else raised storage

  abbrev pub resolve_ref : Option Uuid → Choice Text → Bool → Option Uuid → Result ModeChoice
  resolve_ref user c explicit none = ok (record { mode = c.0; applied = c.1; custom_mode = none })
  resolve_ref user c explicit (some ref) = resolve_custom user c explicit ref

  unfoldable pub resolve_mode : Option Uuid → Choice Text → Bool → Result ModeChoice
  unfolding is_custom_ref parse_custom_ref
  resolve_mode user c explicit =
      if is_filled c.0 && is_custom_ref c.0 && not (is_some (ref_of_mode c.0))
      then raised custom_mode_unavailable
      else resolve_ref user c explicit (ref_of_mode c.0)

  unfoldable pub resolve_for_message :
      Option Uuid → Option Text → Option (List Text) → Result Resolved
  unfolding load_preferences resolve_mode generation_preferences
  resolve_for_message user mode selected_tools =
      let prefs = load_preferences user in
      with_mode (choose_tools selected_tools prefs.default_tools) prefs
        (resolve_mode user (choose_mode mode prefs.default_mode) (is_some mode))
