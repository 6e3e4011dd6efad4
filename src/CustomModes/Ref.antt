-- ===== src/CustomModes/Ref.antt =====
-- The reference of a custom mode, written and read.
use conversation_service.Prelude.{
  ℕ, zero, suc, ◌+◌, ◌*◌, ◌/◌, ◌%◌, ◌^◌, ◌<◌, ◌≡◌, refl, sym, subst, ap, ◌∙◌, true, false, some,
  List, [], ◌∷◌, ◌++◌, arith, take, drop, length, All, All-append, All-take,
}
use mathlib.Core.List.{reverse, reverse-append, reverse-reverse}
use conversation_service.Model.{Uuid, Text}
use conversation_service.Text.{is_space, strip, lstrip}
use conversation_service.CustomModes.{
  custom_prefix, hex_digit, is_hex, hex_value, hex, from_hex, uuid_str, custom_ref, digits, groups,
  uuid_of, match_ref, parse_custom_ref,
}

abbrev IsHex : ℕ → Type 0
IsHex c = is_hex c ≡ true

hex_digit-IsHex : (d : ℕ) → d < 16 → is_hex (hex_digit d) ≡ true
hex_digit-IsHex d h = ground arith

hex_value-hex_digit : (d : ℕ) → d < 16 → hex_value (hex_digit d) ≡ d
hex_value-hex_digit d h = ground arith

not_space : (c : ℕ) → is_hex c ≡ true → is_space c ≡ false
unfolding is_space
not_space c h = ground arith

hex-IsHex : (n x : ℕ) → All IsHex (hex n x)
unfolding hex
hex-IsHex zero x = tt
hex-IsHex (suc n) x =
    All-append IsHex (hex n (x / 16)) (hex_digit (x % 16) ∷ []) (hex-IsHex n (x / 16))
      (hex_digit-IsHex (x % 16) (omega arith), tt)

from_hex-append :
    (acc : ℕ) (s : Text) (c : ℕ) → from_hex acc (s ++ c ∷ []) ≡ from_hex acc s * 16 + hex_value c
unfolding from_hex
from_hex-append acc [] c = refl
from_hex-append acc (d ∷ s) c = from_hex-append (acc * 16 + hex_value d) s c

from_hex-hex : (n x : ℕ) → x < 16 ^ n → from_hex 0 (hex n x) ≡ x
unfolding hex from_hex
from_hex-hex zero x h = omega arith
from_hex-hex (suc n) x h =
    from_hex-append 0 (hex n (x / 16)) (hex_digit (x % 16))
    ∙ (ap (λ k. k * 16 + hex_value (hex_digit (x % 16))) (from_hex-hex n (x / 16) (omega arith))
        ∙ (ap (λ k. x / 16 * 16 + k) (hex_value-hex_digit (x % 16) (omega arith)) ∙ omega arith))

digits-append : (g rest : Text) → All IsHex g → digits (length g) (g ++ rest) ≡ some (g, rest)
unfolding digits
digits-append [] rest h = refl
digits-append (c ∷ g) rest h = rw (h.0, digits-append g rest h.1) refl

-- One group of the pattern, and what follows it.
digits_group :
    (n : ℕ) (g rest : Text) → length g ≡ n → All IsHex g → digits n (g ++ rest) ≡ some (g, rest)
digits_group n g rest size ok =
    subst (λ k. digits k (g ++ rest) ≡ some (g, rest)) size (digits-append g rest ok)

groups_next :
    (n : ℕ) (ns : List ℕ) (g rest h : Text)
    → length g ≡ n
    → All IsHex g
    → groups ns 12 rest ≡ some h
    → groups (n ∷ ns) 12 (g ++ 45 ∷ rest) ≡ some (g ++ h)
unfolding groups
groups_next n ns g rest h size ok tail =
    rw (digits_group n g (45 ∷ rest) size ok, tail, groups) refl

append_nil : (g : Text) → g ++ [] ≡ g
append_nil [] = refl
append_nil (c ∷ g) = ap (◌∷◌ c) (append_nil g)

groups_last : (g : Text) → length g ≡ 12 → All IsHex g → groups [] 12 g ≡ some g
unfolding groups
groups_last g size ok =
    let read : digits 12 g ≡ some (g, []) =
      subst (λ s. digits 12 s ≡ some (g, [])) (append_nil g) (digits_group 12 g [] size ok) in
    rw (read, groups) refl

All-drop : (n : ℕ) (s : Text) → All IsHex s → All IsHex (drop n s)
All-drop zero s h = h
All-drop (suc n) [] h = tt
All-drop (suc n) (c ∷ s) h = All-drop n s h.1

-- The five groups of 32 digits.
abbrev slice : ℕ → ℕ → Uuid → Text
slice n from id = take n (drop from (hex 32 id))

slice-IsHex : (n from : ℕ) (id : Uuid) → All IsHex (slice n from id)
slice-IsHex n from id =
    All-take IsHex n (drop from (hex 32 id)) (All-drop from (hex 32 id) (hex-IsHex 32 id))

lengths :
    (id : Uuid)
    → (length (take 8 (hex 32 id)) ≡ 8)
      × (length (slice 4 8 id) ≡ 4)
      × (length (slice 4 12 id) ≡ 4)
      × (length (slice 4 16 id) ≡ 4)
      × (length (drop 20 (hex 32 id)) ≡ 12)
unfolding hex
lengths id = (refl, refl, refl, refl, refl)

joined :
    (id : Uuid)
    → take 8 (hex 32 id) ++ slice 4 8 id ++ slice 4 12 id ++ slice 4 16 id ++ drop 20 (hex 32 id)
      ≡ hex 32 id
unfolding hex
joined id = refl

groups-uuid_str : (id : Uuid) → groups (8 ∷ 4 ∷ 4 ∷ 4 ∷ []) 12 (uuid_str id) ≡ some (hex 32 id)
unfolding uuid_str
groups-uuid_str id =
    let (l1, l2, l3, l4, l5) = lengths id in
    let h = hex 32 id in
    groups_next 8 (4 ∷ 4 ∷ 4 ∷ []) (take 8 h) _ _ l1 (slice-IsHex 8 0 id) (
      groups_next 4 (4 ∷ 4 ∷ []) (slice 4 8 id) _ _ l2 (slice-IsHex 4 8 id) (
        groups_next 4 (4 ∷ []) (slice 4 12 id) _ _ l3 (slice-IsHex 4 12 id) (
          groups_next 4 [] (slice 4 16 id) _ _ l4 (slice-IsHex 4 16 id)
            (groups_last (drop 20 h) l5 (All-drop 20 h (hex-IsHex 32 id))))))
    ∙ ap some (joined id)

-- A text that neither starts nor ends with white space.
strip_id :
    (c d : ℕ) (m : Text)
    → is_space c ≡ false
    → is_space d ≡ false
    → strip (c ∷ m ++ d ∷ []) ≡ c ∷ m ++ d ∷ []
unfolding strip lstrip
strip_id c d m hc hd =
    let turned : reverse (c ∷ m ++ d ∷ []) ≡ d ∷ reverse (c ∷ m) =
      reverse-append (c ∷ m) (d ∷ []) in
    let left : lstrip (c ∷ m ++ d ∷ []) ≡ c ∷ m ++ d ∷ [] = rw (hc, lstrip) refl in
    let right : lstrip (d ∷ reverse (c ∷ m)) ≡ d ∷ reverse (c ∷ m) = rw (hd, lstrip) refl in
    ap (λ s. reverse (lstrip (reverse s))) left
    ∙ (ap (λ s. reverse (lstrip s)) turned
        ∙ (ap reverse (right ∙ sym turned) ∙ reverse-reverse (c ∷ m ++ d ∷ [])))

-- The reference up to its last digit, without its first character.
abbrev middle : Uuid → Text
middle id =
    117
    ∷ 115
    ∷ 116
    ∷ 111
    ∷ 109
    ∷ 58
    ∷ (take 8 (hex 32 id)
        ++ 45 ∷ slice 4 8 id
        ++ 45 ∷ slice 4 12 id
        ++ 45 ∷ slice 4 16 id
        ++ 45 ∷ drop 20 (hex 31 (id / 16)))

custom_ref_ends : (id : Uuid) → custom_ref id ≡ 99 ∷ middle id ++ hex_digit (id % 16) ∷ []
unfolding custom_ref hex
custom_ref_ends id = refl

pub strip-custom_ref : (id : Uuid) → strip (custom_ref id) ≡ custom_ref id
unfolding is_space
strip-custom_ref id =
    ap strip (custom_ref_ends id)
    ∙ (strip_id 99 (hex_digit (id % 16)) (middle id) refl
          (not_space (hex_digit (id % 16)) (hex_digit-IsHex (id % 16) (omega arith)))
        ∙ sym (custom_ref_ends id))

match_ref-prefix :
    (u h : Text)
    → groups (8 ∷ 4 ∷ 4 ∷ 4 ∷ []) 12 u ≡ some h
    → match_ref (custom_prefix ++ u) ≡ some (uuid_of h)
unfolding match_ref
match_ref-prefix u h e = rw (e, match_ref) refl

custom_ref_prefix : (id : Uuid) → custom_ref id ≡ custom_prefix ++ uuid_str id
unfolding custom_ref
custom_ref_prefix id = refl

-- The reference that is written for a custom mode reads back as the id of the mode, for every UUID.
pub parse_custom_ref-custom_ref :
    (id : Uuid) → id < 2 ^ 128 → parse_custom_ref (some (custom_ref id)) ≡ some id
unfolding parse_custom_ref
parse_custom_ref-custom_ref id bound =
    ap match_ref (strip-custom_ref id ∙ custom_ref_prefix id)
    ∙ (match_ref-prefix (uuid_str id) (hex 32 id) (groups-uuid_str id)
        ∙ ap some (from_hex-hex 32 id bound))
