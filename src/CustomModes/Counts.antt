-- ===== src/CustomModes/Counts.antt =====
-- How each statement on the custom modes changes the number of active ones.
use conversation_service.Prelude.{
  ℕ, ◌+◌, ◌≤◌, ◌≡◌, refl, sym, subst, Bool, true, false, Option, none, some, [], ◌∷◌, arith, ◌==◌,
  ==_iff, Bool-cases, Option-cases, inl, inr, keep, head?, length, if◌then◌else◌,
}
use conversation_service.Model.{Uuid, Time, Text}
use conversation_service.Errors.{Result, ok, raised, Method, continue}
use conversation_service.CustomModes.Repository.{
  CustomModeRecord, CustomModeTable, NewMode, Changes, is_current, belongs_to, active_count,
  new_record, flush, accepts, is_full, create_counted, is_updated, changed, rewrite, others,
  update_row, update, archive_record, archived_row, archive, archive_existing, updated_row, refused,
  find_mode,
}

-- A statement that adds no active mode.
abbrev pub AddsNone : CustomModeTable → CustomModeTable → Type 0
AddsNone t u = (owner : Uuid) → active_count owner u ≤ active_count owner t

pub at_most : {a b c : ℕ} → a ≤ b → b ≤ c → a ≤ c
at_most p q = omega arith

-- One more row on both sides, counted on the left only if it is on the right.
count_cons :
    (b c : Bool) (x y : CustomModeRecord) (t u : CustomModeTable)
    → (b ≡ true → c ≡ true)
    → length t ≤ length u
    → length (if b then x ∷ t else t) ≤ length (if c then y ∷ u else u)
count_cons b true x y t u imp h = ground arith
count_cons true false x y t u imp h = cc (imp refl)
count_cons false false x y t u imp h = h

-- What a statement makes of the rows that it selects gives no owner a further active mode.
abbrev Spares : (CustomModeRecord → CustomModeRecord) → Type 0
Spares f = (o : Uuid) (r : CustomModeRecord) → belongs_to o (f r) ≡ true → belongs_to o r ≡ true

module _ (p : CustomModeRecord → Bool) (f : CustomModeRecord → CustomModeRecord)
    (spares : Spares f) where
  selected-Spares : Spares (λ r. if p r then f r else r)
  selected-Spares o r =
      elim (p r) as (λ b. belongs_to o (if b then f r else r) ≡ true → belongs_to o r ≡ true) [
        | true ↦ spares o r
        | false ↦ λ h. h
      ]

  rewrite-AddsNone : (t : CustomModeTable) → AddsNone t (rewrite p f t)
  rewrite-AddsNone [] o = omega arith
  rewrite-AddsNone (r ∷ t) o =
      count_cons (belongs_to o (if p r then f r else r)) (belongs_to o r) (if p r then f r else r) r
        (keep (belongs_to o) (rewrite p f t)) (keep (belongs_to o) t) (selected-Spares o r)
        (rewrite-AddsNone t o)

  update_row-AddsNone :
      (mode_id : Uuid) (t : CustomModeTable) → AddsNone t ((update_row p f mode_id t).1)
  unfolding update_row
  update_row-AddsNone mode_id t = elim (Option-cases (head? (keep p t))) [
    | inl e ↦ rw (e, update_row) (λ o. omega arith)
    | inr (r, e) ↦ elim (Bool-cases (accepts (f r) (others mode_id t))) [
      | inl y ↦ rw (e, update_row, y) (rewrite-AddsNone t)
      | inr n ↦ rw (e, update_row, n) (λ o. omega arith)
    ]
  ]

changed-Spares :
    (normalize_name : Text → Text) (c : Changes) (now : Time)
    → Spares (changed normalize_name c now)
changed-Spares normalize_name c now o r h = h

archive_record-Spares : (now : Time) → Spares (archive_record now)
archive_record-Spares now o r h = ground arith

-- A method that leaves the table as it is, after one that added no active mode.
reads-AddsNone :
    {A B : Type 0} (t : CustomModeTable) (m : Result A × CustomModeTable)
    (f : A → Method CustomModeTable B)
    → ((a : A) (s : CustomModeTable) → (f a s).1 ≡ s)
    → AddsNone t (m.1)
    → AddsNone t ((continue m.0 f m.1).1)
reads-AddsNone t (ok a, s) f same h = subst (AddsNone t) (sym (same a s)) h
reads-AddsNone t (raised e, s) f same h = h

refused_same : (o : Option CustomModeRecord) (s : CustomModeTable) → (refused o s).1 ≡ s
refused_same none s = refl
refused_same (some r) s = refl

updated_row_same :
    (owner mode_id : Uuid) (o : Option CustomModeRecord) (s : CustomModeTable)
    → (updated_row owner mode_id o s).1 ≡ s
updated_row_same owner mode_id none s = refused_same (find_mode owner mode_id false s) s
updated_row_same owner mode_id (some r) s = refl

archived_row_same :
    (owner mode_id : Uuid) (o : Option CustomModeRecord) (s : CustomModeTable)
    → (archived_row owner mode_id o s).1 ≡ s
archived_row_same owner mode_id none s = refl
archived_row_same owner mode_id (some r) s = refl

pub update-AddsNone :
    (normalize_name : Text → Text) (owner mode_id : Uuid) (c : Changes) (expected : Option ℕ)
    (now : Time) (t : CustomModeTable)
    → AddsNone t ((update normalize_name owner mode_id c expected now t).1)
unfolding update
update-AddsNone normalize_name owner mode_id c expected now t =
    reads-AddsNone t
      (update_row (is_updated owner mode_id expected) (changed normalize_name c now) mode_id t)
      (updated_row owner mode_id) (updated_row_same owner mode_id)
      (update_row-AddsNone (is_updated owner mode_id expected) (changed normalize_name c now)
        (changed-Spares normalize_name c now) mode_id t)

archive_existing-AddsNone :
    (owner mode_id : Uuid) (now : Time) (o : Option CustomModeRecord) (t : CustomModeTable)
    → AddsNone t ((archive_existing owner mode_id now o t).1)
archive_existing-AddsNone owner mode_id now none t = λ o. omega arith
archive_existing-AddsNone owner mode_id now (some r) t = elim (Bool-cases (is_current r)) [
  | inl y ↦ rw y (
      reads-AddsNone t (update_row (is_updated owner mode_id none) (archive_record now) mode_id t)
        (archived_row owner mode_id) (archived_row_same owner mode_id)
        (update_row-AddsNone (is_updated owner mode_id none) (archive_record now)
          (archive_record-Spares now) mode_id t))
  | inr n ↦ rw n (λ o. omega arith)
]

pub archive-AddsNone :
    (owner mode_id : Uuid) (now : Time) (t : CustomModeTable)
    → AddsNone t ((archive owner mode_id now t).1)
unfolding archive
archive-AddsNone owner mode_id now t =
    archive_existing-AddsNone owner mode_id now (find_mode owner mode_id true t) t

count-flush :
    (normalize_name : Text → Text) (owner o : Uuid) (m : NewMode) (t : CustomModeTable)
    → active_count o ((flush (new_record normalize_name owner m) t).1)
      ≤ active_count o t + (if owner == o then 1 else 0)
unfolding flush
count-flush normalize_name owner o m t =
    elim (Bool-cases (accepts (new_record normalize_name owner m) t)) [
      | inl y ↦ rw y (ground arith)
      | inr n ↦ rw n (ground arith)
    ]

-- A creation keeps to the limit, when no mode was added since it counted.
pub create_counted-limited :
    (normalize_name : Text → Text) (max_per_user n : ℕ) (owner o : Uuid) (m : NewMode)
    (t : CustomModeTable)
    → active_count owner t ≤ n
    → active_count o t ≤ max_per_user
    → active_count o ((create_counted normalize_name max_per_user owner m n t).1) ≤ max_per_user
unfolding create_counted
create_counted-limited normalize_name max_per_user n owner o m t counted limited =
    let flushed = count-flush normalize_name owner o m t in
    elim (Bool-cases (is_full max_per_user n)) [
      | inl y ↦ rw y limited
      | inr room ↦ rw room (elim (Bool-cases (owner == o)) [
        | inl e ↦
            let here = subst (λ x. active_count x t ≤ n) ((==_iff owner o).0 e) counted in
            ground (arith, flushed, here)
        | inr e ↦ ground (arith, flushed)
      ])
    ]

-- A creation adds no mode to another owner.
pub create_counted_other :
    (normalize_name : Text → Text) (max_per_user n : ℕ) (owner o : Uuid) (m : NewMode)
    (t : CustomModeTable)
    → (owner == o) ≡ false
    → active_count o ((create_counted normalize_name max_per_user owner m n t).1) ≤ active_count o t
unfolding create_counted
create_counted_other normalize_name max_per_user n owner o m t e =
    elim (Bool-cases (is_full max_per_user n)) [
      | inl y ↦ rw y (omega arith)
      | inr room ↦ rw room (ground (arith, count-flush normalize_name owner o m t))
    ]
