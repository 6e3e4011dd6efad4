-- ===== src/Preferences/Modes.antt =====
-- What a mode is once it has been validated: a built-in id, or the reference of a custom mode.
use conversation_service.Prelude.{
  ℕ, ◌≡◌, refl, sym, subst, ap, ◌∙◌, Bool, true, false, Option, none, some, [], ◌∷◌, arith, ◌==◌,
  All, ==_iff, Bool-cases, inl, inr, is_some, ◌⊎◌, if◌then◌else◌,
}
use mathlib.Core.List.{map, reverse, reverse-reverse, reverse_aux}
use conversation_service.Model.{Text}
use conversation_service.Text.{is_space, strip, lstrip, is_empty}
use conversation_service.Errors.{ok, raised, value_error}
use conversation_service.CustomModes.{
  custom_prefix, literal, parse_custom_ref, is_custom_ref, lower,
}
use conversation_service.Preferences.{check_mode, is_mode_id, is_mode_char, means_auto, all_chars}

abbrev pub NoSpace : ℕ → Type 0
NoSpace c = is_space c ≡ false

lstrip_fixed : (s : Text) → All NoSpace s → lstrip s ≡ s
unfolding lstrip
lstrip_fixed [] h = refl
lstrip_fixed (c ∷ s) h = rw h.0 refl

pub All-reverse_aux : (P : ℕ → Type 0) (s t : Text) → All P s → All P t → All P (reverse_aux s t)
All-reverse_aux P [] t h k = k
All-reverse_aux P (c ∷ s) t h k = All-reverse_aux P s (c ∷ t) h.1 (h.0, k)

-- A text without white space is left as it is.
pub strip_fixed : (s : Text) → All NoSpace s → strip s ≡ s
unfolding strip
strip_fixed s h =
    ap (λ t. reverse (lstrip (reverse t))) (lstrip_fixed s h)
    ∙ (ap reverse (lstrip_fixed (reverse s) (All-reverse_aux NoSpace s [] h tt))
        ∙ reverse-reverse s)

abbrev IsModeChar : ℕ → Type 0
IsModeChar c = is_mode_char c ≡ true

pub all_chars-All : (p : ℕ → Bool) (s : Text) → all_chars p s ≡ true → All (λ c. p c ≡ true) s
all_chars-All p [] h = tt
all_chars-All p (c ∷ s) h = ground (arith, all_chars-All p s)

module _ {P Q : ℕ → Type 0} (imp : (c : ℕ) → P c → Q c) where
  pub All_mono : (s : Text) → All P s → All Q s
  All_mono [] h = tt
  All_mono (c ∷ s) h = (imp c h.0, All_mono s h.1)

pub mode_char-NoSpace : (c : ℕ) → IsModeChar c → NoSpace c
unfolding is_space
mode_char-NoSpace c h = ground arith

lower_char : (c : ℕ) → IsModeChar c → IsModeChar (lower c)
lower_char c h = ground arith

All-map-lower : (s : Text) → All IsModeChar s → All IsModeChar (map lower s)
All-map-lower [] h = tt
All-map-lower (c ∷ s) h = (lower_char c h.0, All-map-lower s h.1)

literal_cons :
    (b : Bool) (r : Option Text)
    → is_some (if b then r else none) ≡ true
    → (b ≡ true) × (is_some r ≡ true)
literal_cons true r e = (refl, e)
literal_cons false r e = cc

-- A text that starts with `p` has the characters of `p`.
literal-All : (p s : Text) → is_some (literal p s) ≡ true → All IsModeChar s → All IsModeChar p
literal-All [] s e h = tt
literal-All (c ∷ p) [] e h = cc
literal-All (c ∷ p) (d ∷ s) e h =
    let (same, rest) = literal_cons (c == d) (literal p s) e in
    (subst IsModeChar (sym ((==_iff c d).0 same)) h.0, literal-All p s rest h.1)

prefix_colon : All IsModeChar custom_prefix → ⊥
prefix_colon (a, (b, (c, (d, (e, (f, (g, u))))))) = cc g

pub mode_id-All : (m : Text) → is_mode_id m ≡ true → All IsModeChar m
unfolding is_mode_id
mode_id-All m h = all_chars-All is_mode_char m (ground arith)

-- A built-in id is no reference to a custom mode.
pub mode_id_builtin : (m : Text) → is_mode_id m ≡ true → is_custom_ref (some m) ≡ false
unfolding is_custom_ref
mode_id_builtin m h =
    let chars = mode_id-All m h in
    elim (Bool-cases (is_some (literal custom_prefix (map lower (strip m))))) [
      | inl y ↦ absurd (
          prefix_colon (
            literal-All custom_prefix (map lower (strip m)) y (
              All-map-lower (strip m) (
                subst (All IsModeChar) (sym (strip_fixed m (All_mono mode_char-NoSpace m chars)))
                  chars))))
      | inr n ↦ n
    ]

-- What validation makes of a mode: the mode itself, never empty, and a reference that can be read or
-- else a built-in id.
pub record IsChecked (m : Text) : Type 0 where
  pub filled : is_empty m ≡ false
  pub reference :
      (is_some (parse_custom_ref (some m)) ≡ true)
      ⊎ ((is_mode_id m ≡ true) × (is_custom_ref (some m) ≡ false))

auto_empty : (v : Text) → means_auto v ≡ false → is_empty v ≡ false
auto_empty [] h = cc
auto_empty (c ∷ v) h = refl

-- What the tests of `check_mode` were when it accepted a mode.
accepted :
    (a b c d : Bool) (v m : Text)
    → (if a
        then ok none
        else if b
        then if c then ok (some v) else raised value_error
        else if d
        then ok (some v)
        else raised value_error)
      ≡ ok (some m)
    → (a ≡ false) × (m ≡ v) × ((c ≡ true) ⊎ (d ≡ true))
accepted true b c d v m e = cc
accepted false true true d v m e = (refl, cc, inl refl)
accepted false true false d v m e = cc
accepted false false c true v m e = (refl, cc, inr refl)
accepted false false c false v m e = cc

pub check_mode-IsChecked : (v m : Text) → check_mode v ≡ ok (some m) → (m ≡ v) × IsChecked v
unfolding check_mode
check_mode-IsChecked v m e =
    let (named, same, known) =
      accepted (means_auto v) (is_some (literal custom_prefix v))
        (is_some (parse_custom_ref (some v))) (is_mode_id v) v m e in
    (
      same,
      record {
        filled = auto_empty v named;
        reference = elim known [ inl p ↦ inl p | inr p ↦ inr (p, mode_id_builtin v p) ];
      },
    )
