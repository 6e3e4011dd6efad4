-- ===== src/Branches/Inherit.antt =====
-- The number and the size of the messages that a branch inherits.
use conversation_service.Prelude.{
  ℕ, suc, ◌+◌, ◌-◌, ◌*◌, ◌≤◌, ◌≡◌, refl, sym, subst, ap, false, not, ◌&&◌, ◌||◌, List, [], ◌∷◌,
  arith, ltb, leb, ◌==◌, Bool-cases, inl, inr, length, contains, Unique, All,
}
use mathlib.Core.List.{reverse, map}
use conversation_service.Model.{Uuid, Message}
use conversation_service.Text.{length-clip-le}
use conversation_service.State.{Inherited}
use conversation_service.Errors.{Result, ok, raised}
use conversation_service.Branches.Chain.{Result-cases}
use conversation_service.Branches.{
  Reads, Segment, Lineage, inherited_max_messages, inherited_max_message_chars, inherited_max_chars,
  segment_messages, Picked, text_of, overflows, add, pick, pick_segments, inherited, none_picked,
  or_nothing, inherited_history,
}

abbrev ids : List Message → List Uuid
ids ms = map (λ m. m.message_id) ms

abbrev total : List Message → ℕ
total [] = 0
total (m ∷ ms) = length (text_of m) + total ms

-- What has been picked so far.
record Fits (p : Picked) : Type 0 where
  count : length p.messages ≤ inherited_max_messages
  left : total p.messages + p.chars ≡ inherited_max_chars
  met : p.seen ≡ ids p.messages
  distinct : Unique (ids p.messages)

add-Fits :
    (m : Message) (p : Picked)
    → contains m.message_id p.seen ≡ false
    → overflows m p ≡ false
    → Fits p
    → Fits (add m p)
add-Fits m p new room fits = record {
  count = ground (arith, fits.count);
  left = fits_left p.messages fits.left room;
  met = ap (◌∷◌ m.message_id) fits.met;
  distinct = (subst (λ s. contains m.message_id s ≡ false) fits.met new, fits.distinct);
}
  where
    fits_left :
        (ms : List Message)
        → total ms + p.chars ≡ inherited_max_chars
        → (leb inherited_max_messages (length ms)
            || (not (length ms == 0) && ltb p.chars (length (text_of m))))
          ≡ false
        → length (text_of m) + total ms + (p.chars - length (text_of m)) ≡ inherited_max_chars
    fits_left [] e free = omega (arith, e, length-clip-le inherited_max_message_chars m.content)
    fits_left (k ∷ ms) e free = ground (arith, e, free)

pick-Fits : (ms : List Message) (p : Picked) → Fits p → Fits (pick ms p).1
unfolding pick
pick-Fits [] p fits = fits
pick-Fits (m ∷ ms) p fits = elim (Bool-cases (contains m.message_id p.seen)) [
  | inl y ↦ rw y (pick-Fits ms p fits)
  | inr new ↦ elim (Bool-cases (overflows m p)) [
    | inl full ↦ rw (new, full) fits
    | inr room ↦ rw (new, room) (pick-Fits ms (add m p) (add-Fits m p new room fits))
  ]
]

abbrev chars_of : List Inherited → ℕ
chars_of [] = 0
chars_of (m ∷ ms) = length m.content + chars_of ms

abbrev message_ids : List Inherited → List Uuid
message_ids ms = map (λ m. m.message_id) ms

-- At most 16 messages of at most 2000 characters, 12000 in all, and no message twice.
pub record IsBounded (ms : List Inherited) : Type 0 where
  pub count : length ms ≤ inherited_max_messages
  pub short : All (λ m. length m.content ≤ inherited_max_message_chars) ms
  pub chars : chars_of ms ≤ inherited_max_chars
  pub distinct : Unique (message_ids ms)

module _ (reads : Reads) where
  length-inherited : (ms : List Message) → length (map (inherited reads) ms) ≡ length ms
  length-inherited [] = refl
  length-inherited (m ∷ ms) = ap suc (length-inherited ms)

  chars_of-inherited : (ms : List Message) → chars_of (map (inherited reads) ms) ≡ total ms
  chars_of-inherited [] = refl
  chars_of-inherited (m ∷ ms) = ap (λ k. length (text_of m) + k) (chars_of-inherited ms)

  message_ids-inherited : (ms : List Message) → message_ids (map (inherited reads) ms) ≡ ids ms
  message_ids-inherited [] = refl
  message_ids-inherited (m ∷ ms) = ap (◌∷◌ m.message_id) (message_ids-inherited ms)

  short-All :
      (ms : List Message)
      → All (λ m. length m.content ≤ inherited_max_message_chars) (map (inherited reads) ms)
  short-All [] = tt
  short-All (m ∷ ms) = (length-clip-le inherited_max_message_chars m.content, short-All ms)

  inherited-IsBounded : (p : Picked) → Fits p → IsBounded (map (inherited reads) p.messages)
  inherited-IsBounded p fits = record {
    count = omega (arith, fits.count, length-inherited p.messages);
    short = short-All p.messages;
    chars = omega (arith, fits.left, chars_of-inherited p.messages);
    distinct = subst Unique (sym (message_ids-inherited p.messages)) fits.distinct;
  }

  AllFit : Result Picked → Type 0
  AllFit (raised e) = Unit
  AllFit (ok p) = Fits p

  pick_segments-AllFit :
      (segments : List Segment) (p : Picked) → Fits p → AllFit (pick_segments reads segments p)
  unfolding pick_segments AllFit
  pick_segments-AllFit [] p fits = fits
  pick_segments-AllFit (seg ∷ segments) p fits =
      elim (Result-cases (segment_messages reads seg (inherited_max_messages * 2))) [
        | inr (e, got) ↦ rw (got, pick_segments) tt
        | inl (ms, got) ↦
            let now = pick-Fits ms p fits in
            elim (Bool-cases (pick ms p).0) [
              | inl y ↦ rw (got, y, pick_segments) now
              | inr n ↦ rw (got, n, pick_segments) (pick_segments-AllFit segments (pick ms p).1 now)
            ]
      ]

  or_nothing-IsBounded : (r : Result Picked) → AllFit r → IsBounded (or_nothing reads r)
  unfolding AllFit
  or_nothing-IsBounded (raised e) fit = record {
    count = omega arith;
    short = tt;
    chars = omega arith;
    distinct = tt;
  }
  or_nothing-IsBounded (ok p) fit = inherited-IsBounded p fit

  -- For any lineage, and whatever the message repository answers or raises: the inherited history
  -- has at most 16 messages, each of at most 2000 characters and together of at most 12000, and no
  -- message twice.
  pub inherited_history-IsBounded : (l : Lineage) → IsBounded (inherited_history reads l)
  unfolding inherited_history
  inherited_history-IsBounded l =
      or_nothing-IsBounded (pick_segments reads (reverse l.segments) (none_picked reads)) (
        pick_segments-AllFit (reverse l.segments) (none_picked reads)
          (record { count = omega arith; left = refl; met = refl; distinct = tt }))
