-- ===== src/Preferences/Resolve/Rules.antt =====
-- The rules by which a message gets its mode and tools: its own choice, else the saved default; and
-- the two reasons for which the service raises instead.
use conversation_service.Prelude.{
  ◌≡◌, refl, sym, subst, inl, inr, Bool, true, false, not, ◌&&◌, Option, none, some, List, [], ◌∷◌,
  arith, if◌then◌else◌, is_some,
}
use conversation_service.Model.{Uuid, Text}
use conversation_service.Text.{strip}
use conversation_service.Errors.{Result, ok, raised}
use conversation_service.CustomModes.{is_custom_ref}
use conversation_service.MessageService.{Resolved}
use conversation_service.Preferences.{
  UserPreferences, default_preferences, generation_preferences, clean_mode, check_mode,
}
use conversation_service.Preferences.Modes.{IsChecked, check_mode-IsChecked}
use conversation_service.Preferences.Rows.{
  UserPreferenceRecord, Database, from_row, to_dict, tolerated,
}
use conversation_service.Preferences.Service.{ref_of_mode}
use conversation_service.Preferences.Resolve.{
  Reads, ModeChoice, choose_mode, choose_tools, is_filled, load_preferences, resolve_mode,
  with_mode, resolve_for_message,
}
use conversation_service.Preferences.Resolve.Choices.{
  IsPlain, Follows, IsReference, Refused, Ruled, resolve_mode-Ruled,
}

-- A default that is stored can be read: it is Auto, a built-in id or a reference.
IsDefault : Option Text → Type 0
IsDefault none = Unit
IsDefault (some m) = IsChecked m

tolerated-IsDefault :
    (v : Text) (r : Result (Option Text)) → check_mode v ≡ r → IsDefault (tolerated none r)
unfolding IsDefault
tolerated-IsDefault v (raised e) h = tt
tolerated-IsDefault v (ok none) h = tt
tolerated-IsDefault v (ok (some m)) h =
    let (same, checked) = check_mode-IsChecked v m h in subst IsChecked (sym same) checked

clean_mode-IsDefault :
    (lower : Text → Text) (o : Option Text) → IsDefault (tolerated none (clean_mode lower o))
unfolding IsDefault clean_mode
clean_mode-IsDefault lower none = tt
clean_mode-IsDefault lower (some v) =
    tolerated-IsDefault (lower (strip v)) (check_mode (lower (strip v))) refl

from_row-IsDefault :
    (lower : Text → Text) (o : Option UserPreferenceRecord)
    → IsDefault ((from_row lower o).default_mode)
unfolding from_row IsDefault
from_row-IsDefault lower none = tt
from_row-IsDefault lower (some row) = clean_mode-IsDefault lower ((to_dict row).default_mode)

either-IsDefault :
    (b : Bool) (p q : UserPreferences)
    → IsDefault p.default_mode
    → IsDefault q.default_mode
    → IsDefault ((if b then p else q).default_mode)
either-IsDefault true p q hp hq = hp
either-IsDefault false p q hp hq = hq

module _ (lower : Text → Text) (reads : Reads) (db : Database) where
  load_preferences-IsDefault :
      (user : Option Uuid) → IsDefault ((load_preferences lower reads db user).default_mode)
  unfolding load_preferences IsDefault
  load_preferences-IsDefault none = tt
  load_preferences-IsDefault (some user) =
      either-IsDefault reads.preferences (from_row lower (db.preferences user)) default_preferences
        (from_row-IsDefault lower (db.preferences user)) tt

valid_default :
    (m : Text)
    → IsChecked m
    → (is_filled (some m) && is_custom_ref (some m) && not (is_some (ref_of_mode (some m)))) ≡ true
    → ⊥
valid_default [] checked h = cc (checked.filled)
valid_default (c ∷ m) checked h = ground arith

abbrev mode_choice : Resolved → ModeChoice
mode_choice r = record {
  mode = r.mode;
  applied = r.defaults_applied.mode;
  custom_mode = r.custom_mode;
}

-- The mode by the documented order: the message's own, else the default, else Auto.
abbrev ModeRule : Database → Option Uuid → Option Text → Option Text → ModeChoice → Type 0
ModeRule db user (some own) default m = Follows db user (some own, false) true m
ModeRule db user none (some default) m = Follows db user (some default, true) false m
ModeRule db user none none m = IsPlain none false m

-- The tools, where an empty list of the message counts as its own.
abbrev ToolsRule : Option (List Text) → List Text → Resolved → Type 0
ToolsRule (some own) defaults r = (r.selected_tools ≡ some own) × (r.defaults_applied.tools ≡ false)
ToolsRule none [] r = (r.selected_tools ≡ none) × (r.defaults_applied.tools ≡ false)
ToolsRule none (t ∷ ts) r = (r.selected_tools ≡ some (t ∷ ts)) × (r.defaults_applied.tools ≡ true)

abbrev OwnReference : Option Text → Type 0
OwnReference mode = (m : Text) × (mode ≡ some m) × IsReference (some m)

-- The mode that counts: the message's own, else the default.
abbrev pub chosen : Option Text → Option Text → Option Text
chosen (some own) default = some own
chosen none default = default

abbrev pub Resolution :
    Bool
    → Database
    → UserPreferences
    → Option Uuid
    → Option Text
    → Option (List Text)
    → Result Resolved
    → Type 0
Resolution readable db prefs user mode tools (ok r) =
    ModeRule db user mode prefs.default_mode (mode_choice r)
    × ToolsRule tools prefs.default_tools r
    × (r.generation ≡ some (generation_preferences prefs))
Resolution readable db prefs user mode tools (raised e) =
    Refused readable (chosen mode prefs.default_mode) (OwnReference mode) e

-- The rule for the mode alone.
abbrev ModeResolution :
    Bool → Database → Option Uuid → Option Text → Option Text → Result ModeChoice → Type 0
ModeResolution readable db user mode default (ok m) = ModeRule db user mode default m
ModeResolution readable db user mode default (raised e) =
    Refused readable (chosen mode default) (OwnReference mode) e

own_resolution :
    (readable : Bool) (db : Database) (user : Option Uuid) (m : Text) (default : Option Text)
    (r : Result ModeChoice)
    → Ruled readable db user (some m, false) true (OwnReference (some m)) r
    → ModeResolution readable db user (some m) default r
own_resolution readable db user m default (ok c) h = h
own_resolution readable db user m default (raised e) h = h

default_resolution :
    (readable : Bool) (db : Database) (user : Option Uuid) (d : Text) (r : Result ModeChoice)
    → Ruled readable db user (some d, true) false (OwnReference none) r
    → ModeResolution readable db user none (some d) r
default_resolution readable db user d (ok c) h = h
default_resolution readable db user d (raised e) h = h

module _ (lower : Text → Text) (reads : Reads) (db : Database) where
  resolve_mode-own :
      (user : Option Uuid) (m : Text) (default : Option Text)
      → ModeResolution reads.modes db user
          (some m)
          default
          (resolve_mode lower reads db user (some m, false) true)
  resolve_mode-own user m default = own_resolution reads.modes db user m default _ (
      resolve_mode-Ruled lower reads db (OwnReference (some m)) user (some m, false) true
        (λ r why. (m, refl, inr r)) λ h. (m, refl, inl (ground arith)))

  resolve_mode-default :
      (user : Option Uuid) (default : Option Text)
      → IsDefault default
      → (user ≡ none → default ≡ none)
      → ModeResolution reads.modes db user none default
          (resolve_mode lower reads db user (choose_mode none default) false)
  unfolding IsDefault resolve_mode
  resolve_mode-default user none checked anonymous = (refl, refl, refl)
  resolve_mode-default user (some d) checked anonymous = rw checked.filled (
      default_resolution reads.modes db user d _ (
        resolve_mode-Ruled lower reads db (OwnReference none) user (some d, true) false
          (λ r why. elim why [ inl e ↦ cc | inr e ↦ cc (anonymous e) ])
          λ h. absurd (valid_default d checked h)))

tools_rule :
    (tools : Option (List Text)) (defaults : List Text) (r : Resolved)
    → r.selected_tools ≡ (choose_tools tools defaults).0
    → r.defaults_applied.tools ≡ (choose_tools tools defaults).1
    → ToolsRule tools defaults r
tools_rule (some own) defaults r p q = (p, q)
tools_rule none [] r p q = (p, q)
tools_rule none (t ∷ ts) r p q = (p, q)

with_mode-Resolution :
    (readable : Bool) (db : Database) (prefs : UserPreferences) (user : Option Uuid)
    (mode : Option Text) (tools : Option (List Text)) (r : Result ModeChoice)
    → ModeResolution readable db user mode prefs.default_mode r
    → Resolution readable db prefs user mode tools
        (with_mode (choose_tools tools prefs.default_tools) prefs r)
with_mode-Resolution readable db prefs user mode tools (raised e) h = h
with_mode-Resolution readable db prefs user mode tools (ok m) h =
    (h, tools_rule tools prefs.default_tools _ refl refl, refl)

module _ (lower : Text → Text) (reads : Reads) (db : Database) where
  anonymous_default :
      (user : Option Uuid)
      → user ≡ none
      → (load_preferences lower reads db user).default_mode ≡ none
  unfolding load_preferences
  anonymous_default none e = refl
  anonymous_default (some user) e = cc

  resolve_mode-Resolution :
      (user : Option Uuid) (mode default : Option Text)
      → IsDefault default
      → (user ≡ none → default ≡ none)
      → ModeResolution reads.modes db user mode default
          (resolve_mode lower reads db user (choose_mode mode default) (is_some mode))
  resolve_mode-Resolution user none default checked anonymous =
      resolve_mode-default lower reads db user default checked anonymous
  resolve_mode-Resolution user (some m) default checked anonymous =
      resolve_mode-own lower reads db user m default

  -- A message gets its own mode, else its user's default, else Auto. A mode that names a custom mode
  -- runs on the active one of its user; a default that names none falls back to Auto, and a choice of
  -- the message never does. The tools are the message's own, an empty list included, else the
  -- defaults, and the flags tell which of both are defaults. The resolution is refused in two cases
  -- only: for a reference that the message itself chose, or when the mode that counts, the message's
  -- own or the saved default, names a custom mode and the custom modes cannot be read. So a saved
  -- default that is a custom mode can make a message fail, in the second case. The preferences are the
  -- built-in ones when there is no user or they cannot be read.
  pub resolve_for_message-Resolution :
      (user : Option Uuid) (mode : Option Text) (tools : Option (List Text))
      → Resolution reads.modes db
          (load_preferences lower reads db user)
          user
          mode
          tools
          (resolve_for_message lower reads db user mode tools)
  unfolding resolve_for_message
  resolve_for_message-Resolution user mode tools =
      let prefs = load_preferences lower reads db user in
      with_mode-Resolution reads.modes db prefs user mode tools _ (
        resolve_mode-Resolution user mode prefs.default_mode
          (load_preferences-IsDefault lower reads db user) (anonymous_default user))
