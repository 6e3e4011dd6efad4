-- ===== src/Preferences/Cleaning.antt =====
-- Cleaning a text or a list of tools, once and again.
use conversation_service.Prelude.{
  ℕ, ◌≡◌, refl, sym, subst, ap, ◌∙◌, true, not, [], ◌∷◌, ◌++◌, arith, keep, All, Bool-cases, inl,
  inr, if◌then◌else◌,
}
use mathlib.Core.List.{reverse, reverse-append, reverse-reverse}
use conversation_service.Model.{Text}
use conversation_service.Text.{is_space, strip, lstrip}
use conversation_service.Errors.{ok}
use conversation_service.Preferences.{is_control, clean_instructions, short}
use conversation_service.Preferences.Modes.{NoSpace, All-reverse_aux}

-- A text that does not start with white space.
NoLead : Text → Type 0
NoLead [] = Unit
NoLead (c ∷ s) = NoSpace c

lstrip-NoLead : (s : Text) → NoLead (lstrip s)
unfolding lstrip NoLead
lstrip-NoLead [] = tt
lstrip-NoLead (c ∷ s) = elim (Bool-cases (is_space c)) [
  | inl y ↦ rw y (lstrip-NoLead s)
  | inr n ↦ rw n n
]

lstrip_lead : (s : Text) → NoLead s → lstrip s ≡ s
unfolding lstrip NoLead
lstrip_lead [] h = refl
lstrip_lead (c ∷ s) h = rw h refl

-- The white space that `lstrip` takes off.
lead : Text → Text
lead [] = []
lead (c ∷ s) = let rest = lead s in if is_space c then c ∷ rest else []

lead-append : (s : Text) → s ≡ lead s ++ lstrip s
unfolding lead lstrip
lead-append [] = refl
lead-append (c ∷ s) = elim (Bool-cases (is_space c)) [
  | inl y ↦ rw y (ap (◌∷◌ c) (lead-append s))
  | inr n ↦ rw n refl
]

NoLead-append : (s t : Text) → NoLead (s ++ t) → NoLead s
unfolding NoLead
NoLead-append [] t h = tt
NoLead-append (c ∷ s) t h = h

strip-NoLead : (s : Text) → NoLead (strip s)
unfolding strip
strip-NoLead s =
    let a = lstrip s in
    let whole : a ≡ reverse (lstrip (reverse a)) ++ reverse (lead (reverse a)) =
      sym (reverse-reverse a)
      ∙ (ap reverse (lead-append (reverse a))
          ∙ reverse-append (lead (reverse a)) (lstrip (reverse a))) in
    NoLead-append (reverse (lstrip (reverse a))) (reverse (lead (reverse a)))
      (subst NoLead whole (lstrip-NoLead s))

pub strip-strip : (s : Text) → strip (strip s) ≡ strip s
unfolding strip
strip-strip s =
    ap (λ t. reverse (lstrip (reverse t))) (lstrip_lead (strip s) (strip-NoLead s))
    ∙ (ap (λ t. reverse (lstrip t)) (reverse-reverse (lstrip (reverse (lstrip s))))
        ∙ ap reverse (lstrip_lead _ (lstrip-NoLead (reverse (lstrip s)))))

module _ (P : ℕ → Type 0) where
  All-lstrip : (s : Text) → All P s → All P (lstrip s)
  unfolding lstrip
  All-lstrip [] h = tt
  All-lstrip (c ∷ s) h = ground (arith, All-lstrip s h.1)

  All-strip : (s : Text) → All P s → All P (strip s)
  unfolding strip
  All-strip s h =
      All-reverse_aux P _ [] (All-lstrip _ (All-reverse_aux P _ [] (All-lstrip s h) tt)) tt

abbrev Printed : ℕ → Type 0
Printed c = not (is_control c) ≡ true

keep-Printed : (s : Text) → All Printed (keep (λ c. not (is_control c)) s)
keep-Printed [] = tt
keep-Printed (c ∷ s) = ground (arith, keep-Printed s)

keep_all : (s : Text) → All Printed s → keep (λ c. not (is_control c)) s ≡ s
keep_all [] h = refl
keep_all (c ∷ s) h = rw h.0 (ap (◌∷◌ c) (keep_all s h.1))

short_same : (s d : Text) → short s ≡ ok d → d ≡ s
short_same s d e = ground arith

pub clean_instructions_again :
    (v d : Text) → clean_instructions v ≡ ok d → clean_instructions d ≡ ok d
unfolding clean_instructions
clean_instructions_again v d e =
    let kept = keep (λ c. not (is_control c)) v in
    let same : d ≡ strip kept = short_same (strip kept) d e in
    let clean = All-strip Printed kept (keep-Printed v) in
    subst (λ x. clean_instructions x ≡ ok x) (sym same)
      (ap short (ap strip (keep_all (strip kept) clean) ∙ strip-strip kept) ∙ (e ∙ ap ok same))
