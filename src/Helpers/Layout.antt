-- ===== src/Helpers/Layout.antt =====
-- The layout of a `uuidv7` id.
use Prim.Native.Nat.{bit_and, bit_or}
use conversation_service.Prelude.{
  ℕ, zero, suc, ◌+◌, ◌*◌, ◌/◌, ◌%◌, ◌^◌, ◌<◌, ◌≡◌, refl, sym, subst, Bool, true, Bool-cases, inl,
  inr, ◌&&◌, some, arith, ◌==◌, ==_iff,
}
use conversation_service.Model.{Uuid}
use conversation_service.Helpers.{uuidv7}

-- Whether two functions give the same for every byte under `bytes`.
agree : (ℕ → ℕ) → (ℕ → ℕ) → ℕ → Bool
agree f g zero = true
agree f g (suc b) = agree f g b && (f b == g b)

agree-≡ : (f g : ℕ → ℕ) (bytes b : ℕ) → agree f g bytes ≡ true → b < bytes → f b ≡ g b
unfolding agree
agree-≡ f g zero b same lt = absurd (omega arith)
agree-≡ f g (suc n) b same lt = elim (Bool-cases (b == n)) [
  | inl e ↦
      let here : f n ≡ g n = (==_iff (f n) (g n)).0 (ground arith) in
      subst (λ x. f x ≡ g x) (sym ((==_iff b n).0 e)) here
  | inr e ↦ ground (arith, agree-≡ f g n b, ==_iff b n)
]

abbrev versioned : ℕ → ℕ
versioned b = bit_or (bit_and b 0x0F) 0x70

abbrev varied : ℕ → ℕ
varied b = bit_or (bit_and b 0x3F) 0x80

version_byte : (b : ℕ) → b < 256 → versioned b ≡ b % 16 + 112
unfolding agree
version_byte b h = agree-≡ versioned (λ x. x % 16 + 112) 256 b refl h

variant_byte : (b : ℕ) → b < 256 → varied b ≡ b % 64 + 128
unfolding agree
variant_byte b h = agree-≡ varied (λ x. x % 64 + 128) 256 b refl h

-- The number that the bytes stand for, from its three groups of fields.
packed : ℕ → (ℕ → ℕ) → ℕ
packed t r =
    (((((((((t * 256 + (r 0 % 16 + 112)) * 256 + r 2) * 256 + (r 1 % 64 + 128)) * 256 + r 3) * 256
                        + r 4)
                      * 256
                    + r 5)
                  * 256
                + r 6)
              * 256
            + r 7)
          * 256
        + r 8)
      * 256
    + r 9

uuidv7-packed :
    (t : ℕ) (rand : ℕ → ℕ)
    → t < 2 ^ 48
    → ((i : ℕ) → rand i < 256)
    → uuidv7 t rand ≡ some (packed t rand)
unfolding uuidv7 packed
uuidv7-packed t rand h bytes =
    rw (version_byte (rand 0) (bytes 0), variant_byte (rand 1) (bytes 1)) (ground arith)

-- An id minted at a time of less than 48 bits from ten random bytes: its first 48 bits are the
-- time, its version is 7, its variant is 2, and it has at most 128 bits.
pub uuidv7_layout :
    (t : ℕ) (rand : ℕ → ℕ)
    → t < 2 ^ 48
    → ((i : ℕ) → rand i < 256)
    → (id : Uuid) × (uuidv7 t rand ≡ some id)
      × (id / 2 ^ 80 ≡ t)
      × (id / 2 ^ 76 % 16 ≡ 7)
      × (id / 2 ^ 62 % 4 ≡ 2)
      × (id < 2 ^ 128)
unfolding packed
uuidv7_layout t r h bytes =
    let b0 = bytes 0 in
    let b1 = bytes 1 in
    let b2 = bytes 2 in
    let b3 = bytes 3 in
    let b4 = bytes 4 in
    let b5 = bytes 5 in
    let b6 = bytes 6 in
    let b7 = bytes 7 in
    let b8 = bytes 8 in
    let b9 = bytes 9 in
    (packed t r, uuidv7-packed t r h bytes, omega arith, omega arith, omega arith, omega arith)
