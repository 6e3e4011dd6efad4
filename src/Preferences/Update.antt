-- ===== src/Preferences/Update.antt =====
-- An update of the preferences, and what others commit meanwhile.
use conversation_service.Prelude.{
  ℕ, zero, suc, ◌+◌, ◌≡◌, refl, sym, subst, ap, ◌∙◌, true, false, Option, none, some, arith,
  Bool-cases, inl, inr,
}
use conversation_service.Model.{Uuid, Time, Text}
use conversation_service.Errors.{Error, Result, ok, raised, Method}
use conversation_service.Preferences.{UserPreferences}
use conversation_service.Preferences.Rows.{
  UserPreferenceRecord, Database, from_row, version_of, columns, put_row, meets, is_known, save,
}
use conversation_service.Preferences.Patch.{
  Yields, Yields-bind, PreferencesUpdate, merge, validate_document,
}
use conversation_service.Preferences.Service.{
  Catalog, PreferencesResponse, Plan, Others, ref_of_mode, get, plan, is_stale, after_save,
  after_plan, attempt, retries, update, validate_catalog, own_mode,
}

module _ (others : Others) where
  -- What the others made of a database in any number of commits.
  pub data Foreign (db : Database) : Database → Type 0 where
    here : Foreign db db
    loading : {d : Database} (k : ℕ) → Foreign db d → Foreign db (others.before_load k d)
    saving : {d : Database} (k : ℕ) → Foreign db d → Foreign db (others.before_save k d)

-- Others give a changed document another version, as every save does. A reset and a new save in
-- between would not.
abbrev pub KeepsVersions : Others → Uuid → Type 0
KeepsVersions others user =
    (k : ℕ) (d : Database)
    → version_of ((others.before_save k d).preferences user) ≡ version_of (d.preferences user)
    → (others.before_save k d).preferences user ≡ d.preferences user

module _ (lower : Text → Text) (user : Uuid) (patch : PreferencesUpdate) (now : Time) where
  -- The one step of a successful update, from the database `d` to `final`.
  pub record Applied (d final : Database) (r : PreferencesResponse) : Type 0 where
    pub merged : UserPreferences
    pub valid :
        validate_document lower (merge (from_row lower (d.preferences user)) patch) ≡ ok merged
    pub fresh : is_stale patch.version (version_of (d.preferences user)) ≡ false
    pub written :
        final
        ≡ put_row user
            (some (
              columns merged
                (ref_of_mode merged.default_mode)
                (version_of (d.preferences user) + 1)
                now))
            d
    pub answer : r ≡ get lower user final

  abbrev pub Outcome : Others → Database → Result PreferencesResponse × Database → Type 0
  Outcome others db (ok r, final) = (d : Database) × Foreign others db d × Applied d final r
  Outcome others db (raised e, final) = Foreign others db final

  -- What a plan was made from.
  record Planned (d : Database) (p : Plan) : Type 0 where
    valid :
        validate_document lower (merge (from_row lower (d.preferences user)) patch) ≡ ok p.merged
    fresh : is_stale patch.version (version_of (d.preferences user)) ≡ false
    custom : p.custom_id ≡ ref_of_mode p.merged.default_mode
    based : p.stored_version ≡ version_of (d.preferences user)

own_mode_same :
    (user : Uuid) (ref ref' : Option Uuid) (d : Database)
    → own_mode user ref d ≡ ok ref'
    → ref' ≡ ref
own_mode_same user ref ref' d e = ground arith

module _ (lower : Text → Text) (user : Uuid) (patch : PreferencesUpdate) (now : Time)
    (catalog : Option Catalog) where
  plan-Planned :
      (d : Database) → Yields (Planned lower user patch now d) (plan lower catalog user patch d)
  unfolding plan
  plan-Planned d = elim (Bool-cases (is_stale patch.version (version_of (d.preferences user)))) [
    | inl stale ↦ rw stale tt
    | inr fresh ↦ rw fresh (
        Yields-bind (Planned lower user patch now d)
          (validate_document lower (merge (from_row lower (d.preferences user)) patch)) _
          λ merged valid.
            Yields-bind (Planned lower user patch now d) (validate_catalog catalog merged patch) _
              λ checked c.
                Yields-bind (Planned lower user patch now d)
                  (own_mode user (ref_of_mode merged.default_mode) d) _
                  λ ref owned. (record {
                    valid = valid;
                    fresh = fresh;
                    custom = own_mode_same user (ref_of_mode merged.default_mode) ref d owned;
                    based = refl;
                  }))
  ]

meets_version :
    (expected : ℕ) (row : Option UserPreferenceRecord)
    → meets expected row ≡ true
    → version_of row ≡ expected
meets_version expected none h = ground arith
meets_version expected (some row) h = ground arith

-- A version that met the row of `d'` and was read in `d` names one row, which the save replaces.
module _ (lower : Text → Text) (user : Uuid) (patch : PreferencesUpdate) (now : Time) where
  columns-Applied :
      (d d' : Database) (p : Plan)
      → Planned lower user patch now d p
      → d'.preferences user ≡ d.preferences user
      → (let final =
            put_row user (some (columns p.merged p.custom_id (p.stored_version + 1) now)) d' in
          Applied lower user patch now d' final (get lower user final))
  columns-Applied d d' p planned same = record {
    merged = p.merged;
    valid =
        subst (λ r. validate_document lower (merge (from_row lower r) patch) ≡ ok p.merged)
          (sym same) planned.valid;
    fresh = subst (λ r. is_stale patch.version (version_of r) ≡ false) (sym same) planned.fresh;
    written =
        ap (λ id. put_row user (some (columns p.merged id (p.stored_version + 1) now)) d')
          planned.custom
        ∙ ap
            (λ v.
              put_row user (some (columns p.merged (ref_of_mode p.merged.default_mode) (v + 1) now))
                d')
            (planned.based ∙ ap version_of (sym same));
    answer = refl;
  }

module _ (lower : Text → Text) (user : Uuid) (patch : PreferencesUpdate) (now : Time)
    (catalog : Option Catalog) (others : Others) where
  abbrev Saved :
      Database → (Error → Method Database PreferencesResponse) → Result ℕ × Database → Type 0
  Saved db again m =
      Outcome lower user patch now others db
        (after_save lower catalog others now user again m.0 m.1)

  -- The save of a plan made from `d`, when the row may have changed since.
  after_save-Outcome :
      (db d d' : Database) (p : Plan) (again : Error → Method Database PreferencesResponse)
      → Foreign others db d'
      → Planned lower user patch now d p
      → (version_of (d'.preferences user) ≡ version_of (d.preferences user)
          → d'.preferences user ≡ d.preferences user)
      → ((e : Error) (s : Database)
          → Foreign others db s
          → Outcome lower user patch now others db (again e s))
      → Saved db again (save user p.merged p.custom_id p.stored_version now d')
  unfolding after_save save
  after_save-Outcome db d d' p again foreign planned same retried =
      elim (Bool-cases (meets p.stored_version (d'.preferences user))) [
        | inl m ↦ elim (Bool-cases (is_known p.custom_id d'.modes)) [
          | inl k ↦
              rw (m, k)
                (
                  d',
                  foreign,
                  columns-Applied lower user patch now d d' p planned (
                      same
                        (meets_version p.stored_version (d'.preferences user) m ∙ planned.based)),
                )
          | inr k ↦ rw (m, k) foreign
        ]
        | inr m ↦ rw m (retried _ d' foreign)
      ]

  module _ (keeps : KeepsVersions others user) where
    after_plan-Outcome :
        (db d : Database) (k : ℕ) (again : Error → Method Database PreferencesResponse)
        (r : Result Plan)
        → Foreign others db d
        → Yields (Planned lower user patch now d) r
        → ((e : Error) (s : Database)
            → Foreign others db s
            → Outcome lower user patch now others db (again e s))
        → Outcome lower user patch now others db
            (after_plan lower catalog others now user k again r d)
    unfolding after_plan
    after_plan-Outcome db d k again (raised e) foreign planned retried = foreign
    after_plan-Outcome db d k again (ok p) foreign planned retried =
        after_save-Outcome db d (others.before_save k d) p again (saving k foreign) planned
          (keeps k d) retried

    attempt-Outcome :
        (left k : ℕ) (db d : Database)
        → Foreign others db d
        → Outcome lower user patch now others db
            (attempt lower catalog others now user patch left k d)
    unfolding attempt
    attempt-Outcome zero k db d foreign =
        after_plan-Outcome db (others.before_load k d) k _ _ (loading k foreign)
          (plan-Planned lower user patch now catalog (others.before_load k d)) λ e s h. h
    attempt-Outcome (suc left) k db d foreign =
        after_plan-Outcome db (others.before_load k d) k _ _ (loading k foreign)
          (plan-Planned lower user patch now catalog (others.before_load k d))
          λ e s h. attempt-Outcome left (k + 1) db s h

    -- An update that returns took one step, on the document that was stored at that moment: what it
    -- wrote is the patch merged into that document and validated, under the next version, a version
    -- that the patch names is the stored one, and the answer is the document after the step. An
    -- update that raises leaves only what others committed. This supposes that others who change
    -- the document between a load and a save change its version too.
    pub update-Outcome :
        (db : Database)
        → Outcome lower user patch now others db (update lower catalog others now user patch db)
    unfolding update
    update-Outcome db = attempt-Outcome (retries patch.version) 0 db db here
