-- ===== src/Messages/Table.antt =====
-- A partition of `messages_by_conversation`: its rows by falling message id.
use conversation_service.Prelude.{
  ◌≡◌, refl, ◌∙◌, Option, none, some, List, [], ◌∷◌, arith, ltb, ◌==◌, if◌then◌else◌, Option-cases,
  inl, inr,
}
use conversation_service.Model.{Uuid}
use conversation_service.State.{Row}

unfoldable pub find : Uuid → List Row → Option Row
find m [] = none
find m (r ∷ rs) = if r.message_id == m then some r else find m rs

place : Row → List Row → List Row
place r [] = r ∷ []
place r (s ∷ ss) =
    let rest = place r ss in if ltb s.message_id r.message_id then r ∷ s ∷ ss else s ∷ rest

replace : Row → List Row → List Row
replace r [] = []
replace r (s ∷ ss) =
    let rest = replace r ss in if s.message_id == r.message_id then r ∷ ss else s ∷ rest

-- A write of the row with id `m`, from the row that is there.
unfoldable pub upsert : Uuid → (Option Row → Row) → List Row → List Row
unfolding place replace
upsert m f rs = elim (find m rs) [ none ↦ place (f none) rs | some r ↦ replace (f (some r)) rs ]

find-place :
    (r : Row) (j : Uuid) (rs : List Row)
    → find r.message_id rs ≡ none
    → find j (place r rs) ≡ (if r.message_id == j then some r else find j rs)
unfolding find place
find-place r j [] h = refl
find-place r j (s ∷ ss) h = ground (arith, find-place r j ss)

find-replace :
    (r : Row) {old : Row} (j : Uuid) (rs : List Row)
    → find r.message_id rs ≡ some old
    → find j (replace r rs) ≡ (if r.message_id == j then some r else find j rs)
unfolding find replace
find-replace r j [] h = cc
find-replace r {old} j (s ∷ ss) h = ground (arith, find-replace r {old = old} j ss)

pub find-upsert :
    (m j : Uuid) (f : Option Row → Row) (rs : List Row)
    → ((o : Option Row) → (f o).message_id ≡ m)
    → find j (upsert m f rs) ≡ (if m == j then some (f (find m rs)) else find j rs)
unfolding upsert
find-upsert m j f rs ids = elim (Option-cases (find m rs)) [
  | inl e ↦ rw (e, upsert) (find-place (f none) j rs (rw (ids none) e) ∙ rw (ids none))
  | inr (r, e) ↦
      rw (e, upsert)
        (find-replace (f (some r)) {old = r} j rs (rw (ids (some r)) e) ∙ rw (ids (some r)))
]
