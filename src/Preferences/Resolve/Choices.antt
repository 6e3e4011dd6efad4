-- ===== src/Preferences/Resolve/Choices.antt =====
-- What becomes of a chosen mode: it runs as it is or on the custom mode that it names, it is dropped,
-- or it is refused.
use conversation_service.Prelude.{
  ◌≡◌, refl, ap, ◌⊎◌, inl, inr, Bool, true, false, not, ◌&&◌, Option, none, some, Bool-cases,
  if◌then◌else◌, is_some,
}
use conversation_service.Model.{Uuid, Text}
use conversation_service.Errors.{Error, Result, ok, raised, storage, custom_mode_unavailable}
use conversation_service.CustomModes.{is_custom_ref}
use conversation_service.CustomModes.Repository.{CustomModeRecord, find_mode}
use conversation_service.CustomModes.Service.{snapshot_of}
use conversation_service.Preferences.Rows.{Database}
use conversation_service.Preferences.Service.{ref_of_mode}
use conversation_service.Preferences.Resolve.{
  Reads, Choice, ModeChoice, is_filled, with_record, execution_mode, resolve_ref, resolve_mode,
}

-- The mode runs on the active custom mode of the user that the reference names.
pub record Runs (db : Database) (user : Option Uuid) (reference : Option Text) (m : ModeChoice)
    : Type 0 where
  pub owner : Uuid
  pub owned : user ≡ some owner
  pub id : Uuid
  pub named : ref_of_mode reference ≡ some id
  pub row : CustomModeRecord
  pub active : find_mode owner id false db.modes ≡ some row
  pub snapshot : m.custom_mode ≡ some (snapshot_of row)
  pub path : m.mode ≡ some (execution_mode (snapshot_of row))

abbrev pub IsPlain : Option Text → Bool → ModeChoice → Type 0
IsPlain mode applied m = (m.mode ≡ mode) × (m.applied ≡ applied) × (m.custom_mode ≡ none)

-- The reference names no active custom mode of the user.
abbrev pub IsGone : Database → Option Uuid → Option Text → Type 0
IsGone db user reference =
    (owner id : Uuid) × (user ≡ some owner)
    × (ref_of_mode reference ≡ some id)
    × (find_mode owner id false db.modes ≡ none)

-- A choice is run, as it is if it names no custom mode, and else on that custom mode; only a default
-- that is gone is dropped.
abbrev pub Follows : Database → Option Uuid → Choice Text → Bool → ModeChoice → Type 0
Follows db user c explicit m =
    ((ref_of_mode c.0 ≡ none) × IsPlain c.0 c.1 m)
    ⊎ ((explicit ≡ false) × IsGone db user c.0 × IsPlain none false m)
    ⊎ ((m.applied ≡ c.1) × Runs db user c.0 m)

abbrev pub IsReference : Option Text → Type 0
IsReference mode = (is_custom_ref mode ≡ true) ⊎ (is_some (ref_of_mode mode) ≡ true)

-- Why a mode is refused: the custom mode that it names cannot be looked up, or `Bad` holds.
abbrev pub Refused : Bool → Option Text → Type 0 → Error → Type 0
Refused readable reference Bad e =
    ((e ≡ storage) × (readable ≡ false) × (is_some (ref_of_mode reference) ≡ true))
    ⊎ ((e ≡ custom_mode_unavailable) × Bad)

abbrev pub Ruled :
    Bool → Database → Option Uuid → Choice Text → Bool → Type 0 → Result ModeChoice → Type 0
Ruled readable db user c explicit Bad (ok m) = Follows db user c explicit m
Ruled readable db user c explicit Bad (raised e) = Refused readable c.0 Bad e

module _ (lower : Text → Text) (reads : Reads) (db : Database) (Bad : Type 0) where
  with_record-Ruled :
      (readable : Bool) (owner id : Uuid) (c : Choice Text) (explicit : Bool)
      (o : Option CustomModeRecord)
      → ref_of_mode c.0 ≡ some id
      → find_mode owner id false db.modes ≡ o
      → (explicit ≡ true → Bad)
      → Ruled readable db
          (some owner)
          c
          explicit
          Bad
          (if readable then with_record c explicit o else raised storage)
  with_record-Ruled false owner id c explicit o named at bad = inl (refl, refl, ap is_some named)
  with_record-Ruled true owner id c true none named at bad = inr (refl, bad refl)
  with_record-Ruled true owner id c false none named at bad =
      inr (inl (refl, (owner, id, refl, named, at), (refl, refl, refl)))
  with_record-Ruled true owner id c explicit (some r) named at bad = inr (
      inr (
        refl,
        record {
          owner = owner;
          owned = refl;
          id = id;
          named = named;
          row = r;
          active = at;
          snapshot = refl;
          path = refl;
        },
      ))

  resolve_ref-Ruled :
      (user : Option Uuid) (c : Choice Text) (explicit : Bool) (o : Option Uuid)
      → ref_of_mode c.0 ≡ o
      → (is_some o ≡ true → (explicit ≡ true) ⊎ (user ≡ none) → Bad)
      → Ruled reads.modes db user c explicit Bad (resolve_ref lower reads db user c explicit o)
  resolve_ref-Ruled user c explicit none named bad = inl (named, (refl, refl, refl))
  resolve_ref-Ruled none c explicit (some id) named bad = inr (refl, bad refl (inr refl))
  resolve_ref-Ruled (some owner) c explicit (some id) named bad =
      with_record-Ruled reads.modes owner id c explicit (find_mode owner id false db.modes) named
        refl λ e. bad refl (inl e)

  pub resolve_mode-Ruled :
      (user : Option Uuid) (c : Choice Text) (explicit : Bool)
      → (is_some (ref_of_mode c.0) ≡ true → (explicit ≡ true) ⊎ (user ≡ none) → Bad)
      → ((is_filled c.0 && is_custom_ref c.0 && not (is_some (ref_of_mode c.0))) ≡ true → Bad)
      → Ruled reads.modes db user c explicit Bad (resolve_mode lower reads db user c explicit)
  unfolding resolve_mode
  resolve_mode-Ruled user c explicit bad invalid =
      elim (Bool-cases (is_filled c.0 && is_custom_ref c.0 && not (is_some (ref_of_mode c.0)))) [
        | inl y ↦ rw y (inr (refl, invalid y))
        | inr n ↦ rw n (resolve_ref-Ruled user c explicit (ref_of_mode c.0) refl bad)
      ]
