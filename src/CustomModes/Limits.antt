-- ===== src/CustomModes/Limits.antt =====
-- The number of active custom modes of an owner, when requests interleave.
use conversation_service.Prelude.{
  ℕ, ◌≤◌, ◌≡◌, subst, ◌⊎◌, false, Option, none, some, [], arith, ◌==◌, ==_iff, Bool-cases, inl, inr,
  if◌then◌else◌,
}
use conversation_service.Model.{Uuid, Time, Text}
use conversation_service.CustomModes.Repository.{
  CustomModeTable, NewMode, Changes, active_count, create_counted, update, archive,
}
use conversation_service.CustomModes.Counts.{
  AddsNone, at_most, update-AddsNone, archive-AddsNone, create_counted-limited,
  create_counted_other,
}

-- The table, and the counts that the creations under way have read under the locks of their owners.
pub record World : Type 0 where
  pub table : CustomModeTable
  pub counted : Uuid → Option ℕ

abbrev pub hold : (Uuid → Option ℕ) → Uuid → Option ℕ → Uuid → Option ℕ
hold h owner n o = if owner == o then n else h o

module _ (normalize_name : Text → Text) (max_per_user : ℕ) where
  -- A creation takes the lock and counts, and later writes or fails and gives the lock back; the
  -- other requests are one statement each.
  pub data Step : World → World → Type 0 where
    counts :
        {w : World} (owner : Uuid)
        → w.counted owner ≡ none
        → Step w (record w { counted = hold w.counted owner (some (active_count owner w.table)) })
    creates :
        {w : World} (owner n : ℕ) (m : NewMode)
        → w.counted owner ≡ some n
        → Step w (record {
          table = (create_counted normalize_name max_per_user owner m n w.table).1;
          counted = hold w.counted owner none;
        })
    aborts : {w : World} (owner : Uuid) → Step w (record w { counted = hold w.counted owner none })
    updates :
        {w : World} (owner mode_id : Uuid) (changes : Changes) (expected : Option ℕ) (now : Time)
        → Step w (record w {
          table = (update normalize_name owner mode_id changes expected now w.table).1;
        })
    archives :
        {w : World} (owner mode_id : Uuid) (now : Time)
        → Step w (record w { table = (archive owner mode_id now w.table).1 })

  pub data Reachable : World → Type 0 where
    empty : Reachable (record { table = []; counted = λ o. none })
    next : {v w : World} → Reachable v → Step v w → Reachable w

-- The active modes of every owner are within the limit, and no more than a creation has counted.
pub record IsWithin (max_per_user : ℕ) (w : World) : Type 0 where
  pub limited : (owner : Uuid) → active_count owner w.table ≤ max_per_user
  pub current : (owner n : ℕ) → w.counted owner ≡ some n → active_count owner w.table ≤ n

-- A statement that adds no active mode keeps the limits.
spared-IsWithin :
    {max_per_user : ℕ} {w : World} {t : CustomModeTable}
    → AddsNone w.table t
    → IsWithin max_per_user w
    → IsWithin max_per_user (record w { table = t })
spared-IsWithin adds h = record {
  limited = λ o. at_most (adds o) (h.limited o);
  current = λ o n e. at_most (adds o) (h.current o n e);
}

-- What is held after a lock was given back, and after it was taken with a count.
released :
    (h : Uuid → Option ℕ) (owner o k : ℕ)
    → hold h owner none o ≡ some k
    → ((owner == o) ≡ false) × (h o ≡ some k)
released h owner o k e = ground arith

taken :
    (h : Uuid → Option ℕ) (owner o k n : ℕ)
    → hold h owner (some k) o ≡ some n
    → ((owner ≡ o) × (k ≡ n)) ⊎ (h o ≡ some n)
taken h owner o k n e = elim (Bool-cases (owner == o)) [
  | inl y ↦ inl ((==_iff owner o).0 y, ground arith)
  | inr other ↦ inr (ground arith)
]

module _ (normalize_name : Text → Text) (max_per_user : ℕ) where
  Step-IsWithin :
      {v w : World}
      → Step normalize_name max_per_user v w
      → IsWithin max_per_user v
      → IsWithin max_per_user w
  Step-IsWithin {v = v} (counts owner free) h = record {
    limited = h.limited;
    current = λ o n e. elim (taken v.counted owner o (active_count owner v.table) n e) [
      | inl (same, count) ↦ subst (λ x. active_count x v.table ≤ n) same (omega (arith, count))
      | inr before ↦ h.current o n before
    ];
  }
  Step-IsWithin {v = v} (creates owner n m e) h = record {
    limited = λ o.
        create_counted-limited normalize_name max_per_user n owner o m v.table (h.current owner n e)
          (h.limited o);
    current = λ o k e'.
        let (other, before) = released v.counted owner o k e' in
        at_most (create_counted_other normalize_name max_per_user n owner o m v.table other)
          (h.current o k before);
  }
  Step-IsWithin {v = v} (aborts owner) h = record {
    limited = h.limited;
    current = λ o n e. h.current o n (released v.counted owner o n e).1;
  }
  Step-IsWithin {v = v} (updates owner mode_id c expected now) h =
      spared-IsWithin (update-AddsNone normalize_name owner mode_id c expected now v.table) h
  Step-IsWithin {v = v} (archives owner mode_id now) h =
      spared-IsWithin (archive-AddsNone owner mode_id now v.table) h

  -- No owner ever has more active custom modes than `max_per_user`, however creations, updates and
  -- archivings of all owners interleave: a creation counts under the lock of its owner and writes
  -- later, and every other request is one statement.
  pub Reachable-IsWithin :
      {w : World} → Reachable normalize_name max_per_user w → IsWithin max_per_user w
  Reachable-IsWithin empty = record { limited = λ o. omega arith; current = λ o n e. cc }
  Reachable-IsWithin (next r s) = Step-IsWithin s (Reachable-IsWithin r)
