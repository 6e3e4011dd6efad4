-- ===== src/SourceEdits/Limit.antt =====
-- How many edited blocks a conversation gets.
use conversation_service.Prelude.{
  and_left, and_right, ℕ, ◌+◌, ◌≤◌, ◌≡◌, refl, sym, subst, ◌∙◌, Bool, true, false, not, Option,
  none, some, List, [], ◌∷◌, ◌++◌, arith, ltb, ◌==◌, ==_iff, Bool-cases, inl, inr, keep, any,
}
use mathlib.Core.List.{map}
use conversation_service.Model.{Uuid, Time, Text}
use conversation_service.SourceEdits.{
  SourceEdit, EditKey, in_conversation, count, insert_edit, updates, rewrite_where, update_edit,
  new_edit, saved_edit, save_edit, removal, delete_edit, is_edit, EditRequest, save_request,
  delete_request, written_edit, run_edit, run_edits,
}

-- The limit holds in every conversation.
abbrev pub IsWithin : ℕ → List SourceEdit → Type 0
IsWithin cap t = (owner conversation : Uuid) → count owner conversation t ≤ cap

count-append :
    (o c : Uuid) (e : SourceEdit) (t : List SourceEdit)
    → count o c (t ++ e ∷ []) ≡ count o c t + count o c (e ∷ [])
count-append o c e [] = omega arith
count-append o c e (f ∷ t) = ground (arith, count-append o c e t)

count-rewrite :
    (o c : Uuid) (k : EditKey) (content : Text) (expected : ℕ) (now : Time) (t : List SourceEdit)
    → count o c (map (rewrite_where k content expected now) t) ≡ count o c t
count-rewrite o c k content expected now [] = refl
count-rewrite o c k content expected now (e ∷ t) =
    let rest = count-rewrite o c k content expected now t in
    elim (Bool-cases (updates k content expected e)) [
      | inl y ↦ rw y (ground (arith, rest))
      | inr n ↦ rw n (ground (arith, rest))
    ]

count-keep-le :
    (o c : Uuid) (p : SourceEdit → Bool) (t : List SourceEdit) → count o c (keep p t) ≤ count o c t
count-keep-le o c p [] = omega arith
count-keep-le o c p (e ∷ t) = ground (arith, count-keep-le o c p t)

at_most : {a b c : ℕ} → a ≤ b → b ≤ c → a ≤ c
at_most p q = omega arith

count-one : (o c : Uuid) (e : SourceEdit) → count o c (e ∷ []) ≤ 1
count-one o c e = ground arith

count-other : (o c : Uuid) (e : SourceEdit) → in_conversation o c e ≡ false → count o c (e ∷ []) ≡ 0
count-other o c e n = rw n refl

fits :
    (k : EditKey) (new : SourceEdit) (cap extra counted : ℕ) (t : List SourceEdit) {o c : Uuid}
    → k.owner ≡ o
    → k.conversation ≡ c
    → ltb counted cap ≡ true
    → count k.owner k.conversation t ≤ counted + extra
    → count o c (t ++ new ∷ []) ≤ cap + extra
fits k new cap extra counted t {o} {c} o-eq c-eq room few =
    let here : count o c t ≤ counted + extra =
      subst (λ x. count x c t ≤ counted + extra) o-eq
        (subst (λ x. count k.owner x t ≤ counted + extra) c-eq few) in
    ground (arith, here, count-append o c new t, count-one o c new)

-- A row appended where the snapshot had room.
appended :
    (k : EditKey) (new : SourceEdit) (cap extra counted : ℕ) (t : List SourceEdit) (o c : Uuid)
    → new.owner_id ≡ k.owner
    → new.conversation_id ≡ k.conversation
    → ltb counted cap ≡ true
    → count k.owner k.conversation t ≤ counted + extra
    → count o c t ≤ cap + extra
    → count o c (t ++ new ∷ []) ≤ cap + extra
appended k new cap extra counted t o c o-eq c-eq room few within =
    elim (Bool-cases (in_conversation o c new)) [
      | inl y ↦
          let owner_is =
            (==_iff new.owner_id o).0 (and_left (new.owner_id == o) (new.conversation_id == c) y) in
          let conversation_is =
            (==_iff new.conversation_id c).0
              (and_right (new.owner_id == o) (new.conversation_id == c) y) in
          fits k new cap extra counted t (sym o-eq ∙ owner_is) (sym c-eq ∙ conversation_is) room few
      | inr n ↦ omega (arith, count-append o c new t, count-other o c new n, within)
    ]

insert_edit-IsWithin :
    (k : EditKey) (new : SourceEdit) (cap extra counted : ℕ) (t : List SourceEdit)
    → new.owner_id ≡ k.owner
    → new.conversation_id ≡ k.conversation
    → count k.owner k.conversation t ≤ counted + extra
    → IsWithin (cap + extra) t
    → IsWithin (cap + extra) ((insert_edit k new cap counted t).1)
unfolding insert_edit
insert_edit-IsWithin k new cap extra counted t o-eq c-eq few within =
    elim (Bool-cases (ltb counted cap)) [
      | inl y ↦ elim (Bool-cases (any (is_edit k) t)) [
        | inl b ↦ rw (y, b) within
        | inr f ↦
            rw (y, f) (λ o c. appended k new cap extra counted t o c o-eq c-eq y few (within o c))
      ]
      | inr n ↦ rw n within
    ]

update_edit-IsWithin :
    (cap : ℕ) (k : EditKey) (content : Text) (expected : ℕ) (now : Time) (t : List SourceEdit)
    → IsWithin cap t
    → IsWithin cap ((update_edit k content expected now t).1)
unfolding update_edit
update_edit-IsWithin cap k content expected now t within o c =
    subst (λ n. n ≤ cap) (sym (count-rewrite o c k content expected now t)) (within o c)

module _ (cap extra : ℕ) (during between : List SourceEdit → List SourceEdit)
    (few : (t : List SourceEdit) (o c : Uuid) → count o c (during t) ≤ count o c t + extra)
    (during_kept : (t : List SourceEdit)
      → IsWithin (cap + extra) t
      → IsWithin (cap + extra) (during t))
    (kept : (t : List SourceEdit)
      → IsWithin (cap + extra) t
      → IsWithin (cap + extra) (between t)) where
  written_edit-IsWithin :
      (k : EditKey) (content : Text) (expected : ℕ) (language format sha : Text) (now : Time)
      (t : List SourceEdit)
      → IsWithin (cap + extra) t
      → IsWithin
          (cap + extra)
          ((written_edit during k content expected language format sha cap now t).1)
  unfolding written_edit
  written_edit-IsWithin k content expected language format sha now t within =
      elim (Bool-cases (expected == 0)) [
        | inl y ↦ rw y (
            insert_edit-IsWithin k (new_edit k content language format sha now) cap extra
              (count k.owner k.conversation t) (during t) refl refl (few t k.owner k.conversation)
              (during_kept t within))
        | inr n ↦ rw n (
            update_edit-IsWithin (cap + extra) k content expected now (during t)
              (during_kept t within))
      ]

  saved_edit-IsWithin :
      (k : EditKey) (content : Text) (expected : ℕ) (w : Option SourceEdit × List SourceEdit)
      → IsWithin (cap + extra) (w.1)
      → IsWithin (cap + extra) ((saved_edit between k content expected w).1)
  saved_edit-IsWithin k content expected (some row, t) within = within
  saved_edit-IsWithin k content expected (none, t) within = kept t within

  delete_edit-IsWithin :
      (k : EditKey) (expected : ℕ) (t : List SourceEdit)
      → IsWithin (cap + extra) t
      → IsWithin (cap + extra) ((delete_edit between k expected t).1)
  unfolding delete_edit
  delete_edit-IsWithin k expected t within = elim (Bool-cases (any (removal k expected) t)) [
    | inl y ↦
        rw y (λ o c. at_most (count-keep-le o c (λ e. not (removal k expected e)) t) (within o c))
    | inr n ↦ rw n (kept t within)
  ]

  run_edit-IsWithin :
      (r : EditRequest) (t : List SourceEdit)
      → IsWithin (cap + extra) t
      → IsWithin (cap + extra) (run_edit between during cap r t)
  unfolding run_edit save_edit delete_edit
  run_edit-IsWithin (save_request k content expected language format sha now) t within =
      saved_edit-IsWithin k content expected
        (written_edit during k content expected language format sha cap now t)
        (written_edit-IsWithin k content expected language format sha now t within)
  run_edit-IsWithin (delete_request k expected) t within = delete_edit-IsWithin k expected t within

  -- Saving and discarding edits, in any order and number, with whatever others commit in between,
  -- never takes a conversation more than `extra` above `max_per_conversation`, when others commit at
  -- most `extra` new edits of a conversation between the count of a save and its insert, and never
  -- take a conversation above that bound themselves. With no such commit, `extra` is 0 and
  -- the bound is the limit itself.
  pub run_edits-IsWithin :
      (rs : List EditRequest) (t : List SourceEdit)
      → IsWithin (cap + extra) t
      → IsWithin (cap + extra) (run_edits between during cap rs t)
  unfolding run_edits
  run_edits-IsWithin [] t within = within
  run_edits-IsWithin (r ∷ rs) t within =
      run_edits-IsWithin rs (run_edit between during cap r t) (run_edit-IsWithin r t within)
