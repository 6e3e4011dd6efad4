-- ===== src/Preferences/Tools.antt =====
-- Cleaning a list of tools, once and again.
use conversation_service.Prelude.{
  ℕ, ◌≡◌, refl, sym, subst, ap, ◌∙◌, Bool, true, false, List, [], ◌∷◌, ◌++◌, arith, any, Bool-cases,
  inl, inr, if◌then◌else◌,
}
use mathlib.Core.List.{append_assoc, append-nil}
use conversation_service.Model.{Text}
use conversation_service.Text.{is_space, strip, text_eq}
use conversation_service.Errors.{Result, ok, raised, value_error}
use conversation_service.Preferences.{
  clean_tools, collect_tools, few, add_tool, is_tool_id, is_alnum, is_tool_char,
}
use conversation_service.Preferences.Modes.{NoSpace, All_mono, all_chars-All, strip_fixed}

alnum-NoSpace : (c : ℕ) → is_alnum c ≡ true → NoSpace c
unfolding is_space
alnum-NoSpace c h = ground arith

tool_char-NoSpace : (c : ℕ) → is_tool_char c ≡ true → NoSpace c
unfolding is_space
tool_char-NoSpace c h = ground arith

strip-tool_id : (t : Text) → is_tool_id t ≡ true → strip t ≡ t
unfolding is_tool_id
strip-tool_id [] h = cc
strip-tool_id (c ∷ s) h = strip_fixed (c ∷ s) (
  alnum-NoSpace c (ground arith),
  All_mono tool_char-NoSpace s (all_chars-All is_tool_char s (ground arith)),
)

-- Tools that the loop adds one after another to `cleaned`.
abbrev Fresh : List Text → List Text → Type 0
Fresh cleaned [] = Unit
Fresh cleaned (t ∷ ts) =
    (is_tool_id t ≡ true) × (any (text_eq t) cleaned ≡ false) × Fresh (cleaned ++ t ∷ []) ts

collect-Fresh :
    (cleaned ts : List Text) → Fresh cleaned ts → collect_tools cleaned ts ≡ ok (cleaned ++ ts)
unfolding collect_tools
collect-Fresh cleaned [] h = ap ok (sym (append-nil cleaned))
collect-Fresh cleaned (t ∷ ts) h =
    rw (strip-tool_id t h.0, h.0, h.1)
      (collect-Fresh (cleaned ++ t ∷ []) ts h.2 ∙ ap ok (append_assoc cleaned (t ∷ []) ts))

Fresh-append :
    (base ts : List Text) (t : Text)
    → Fresh base ts
    → is_tool_id t ≡ true
    → any (text_eq t) (base ++ ts) ≡ false
    → Fresh base (ts ++ t ∷ [])
Fresh-append base [] t h valid new =
    (valid, subst (λ xs. any (text_eq t) xs ≡ false) (append-nil base) new, tt)
Fresh-append base (u ∷ ts) t h valid new = (
  h.0,
  h.1,
  Fresh-append (base ++ u ∷ []) ts t h.2 valid
      (subst (λ xs. any (text_eq t) xs ≡ false) (sym (append_assoc base (u ∷ []) ts)) new),
)

added-Fresh :
    (cleaned : List Text) (t : Text)
    → Fresh [] cleaned
    → is_tool_id t ≡ true
    → Fresh [] (add_tool t cleaned)
added-Fresh cleaned t h valid = elim (Bool-cases (any (text_eq t) cleaned)) [
  | inl y ↦ rw y h
  | inr n ↦ rw n (Fresh-append [] cleaned t h valid n)
]

accepted :
    (b : Bool) (r : Result (List Text)) (ts : List Text)
    → (if b then r else raised value_error) ≡ ok ts
    → (b ≡ true) × (r ≡ ok ts)
accepted true r ts e = (refl, e)
accepted false r ts e = cc

collected-Fresh :
    (cleaned v ts : List Text) → Fresh [] cleaned → collect_tools cleaned v ≡ ok ts → Fresh [] ts
unfolding collect_tools
collected-Fresh cleaned [] ts h e = subst (Fresh []) (cc) h
collected-Fresh cleaned (raw ∷ v) ts h e =
    let (valid, rest) =
      accepted (is_tool_id (strip raw)) (collect_tools (add_tool (strip raw) cleaned) v) ts e in
    collected-Fresh (add_tool (strip raw) cleaned) v ts (added-Fresh cleaned (strip raw) h valid)
      rest

few_same : (r : Result (List Text)) (ts : List Text) → few r ≡ ok ts → r ≡ ok ts
few_same (raised e) ts h = cc
few_same (ok c) ts h = ground arith

pub clean_tools_again : (v ts : List Text) → clean_tools v ≡ ok ts → clean_tools ts ≡ ok ts
unfolding clean_tools
clean_tools_again v ts e =
    let collected = few_same (collect_tools [] v) ts e in
    ap few (collect-Fresh [] ts (collected-Fresh [] v ts tt collected))
    ∙ (ap few (sym collected) ∙ e)
