-- ===== src/Errors/Ensures.antt =====
-- What a method ensures of its value and of the state after it: one predicate for a return and
-- one for a raise.
use conversation_service.Prelude.{◌≡◌, refl, Bool, true, false, if◌then◌else◌, Option, none, some}
use conversation_service.Errors.{Error, Result, ok, raised, Method, continue, except}

abbrev pub After {ℓ} :
    {S A : Type ℓ} → (A → S → Type ℓ) → (Error → S → Type ℓ) → Result A × S → Type ℓ
After P E (ok a, s) = P a s
After P E (raised e, s) = E e s

pub record Ensures {ℓ} {S A : Type ℓ} (P : A → S → Type ℓ) (E : Error → S → Type ℓ)
    (m : Result A × S) : Type ℓ where
  pub after : After P E m

pub Ensures-continue {ℓ} :
    {S A B : Type ℓ} {P : A → S → Type ℓ} {E : Error → S → Type ℓ} {Q : B → S → Type ℓ}
    {F : Error → S → Type ℓ} {m : Result A × S} {f : A → Method S B}
    → Ensures P E m
    → ((a : A) (s : S) → P a s → Ensures Q F (f a s))
    → ((e : Error) (s : S) → E e s → F e s)
    → Ensures Q F (continue m.0 f m.1)
Ensures-continue {m = (ok a, s)} p good bad = good a s p.after
Ensures-continue {m = (raised e, s)} p good bad = record { after = bad e s p.after }

pub Ensures-except {ℓ} :
    {S A : Type ℓ} {P Q : A → S → Type ℓ} {E F : Error → S → Type ℓ} {m : Result A × S}
    {handler : Error → Method S A}
    → Ensures P E m
    → ((a : A) (s : S) → P a s → Q a s)
    → ((e : Error) (s : S) → E e s → Ensures Q F (handler e s))
    → Ensures Q F (except m handler)
Ensures-except {m = (ok a, s)} p good bad = record { after = good a s p.after }
Ensures-except {m = (raised e, s)} p good bad = bad e s p.after

pub Ensures-if {ℓ} :
    {S A : Type ℓ} {P : A → S → Type ℓ} {E : Error → S → Type ℓ} (b : Bool) {x y : Result A × S}
    → (b ≡ true → Ensures P E x)
    → (b ≡ false → Ensures P E y)
    → Ensures P E (if b then x else y)
Ensures-if true x y = x refl
Ensures-if false x y = y refl

pub Ensures-value {ℓ} :
    {S A : Type ℓ} (r : Result A) (s : S) → Ensures (λ a v. v ≡ s) (λ e v. v ≡ s) (r, s)
Ensures-value (ok a) s = record { after = refl }
Ensures-value (raised e) s = record { after = refl }

-- A test between two methods.
pub Ensures-test {ℓ} :
    {S A : Type ℓ} {P : A → S → Type ℓ} {E : Error → S → Type ℓ} (b : Bool) (m n : Method S A)
    (s : S)
    → (b ≡ true → Ensures P E (m s))
    → (b ≡ false → Ensures P E (n s))
    → Ensures P E ((if b then m else n) s)
Ensures-test true m n s f g = f refl
Ensures-test false m n s f g = g refl

pub Ensures-map {ℓ} :
    {S A : Type ℓ} {P Q : A → S → Type ℓ} {E F : Error → S → Type ℓ} {m : Result A × S}
    → Ensures P E m
    → ((a : A) (s : S) → P a s → Q a s)
    → ((e : Error) (s : S) → E e s → F e s)
    → Ensures Q F m
Ensures-map {m = (ok a, s)} p good bad = record { after = good a s p.after }
Ensures-map {m = (raised e, s)} p good bad = record { after = bad e s p.after }

-- A predicate of the state alone, whichever way the method ended.
pub Ensures-state {ℓ} :
    {S A : Type ℓ} (P : S → Type ℓ) (m : Result A × S) → Ensures (λ a s. P s) (λ e s. P s) m → P m.1
Ensures-state P (ok a, s) p = p.after
Ensures-state P (raised e, s) p = p.after

-- The method does not raise.
abbrev pub Returns : {S A : Type 0} → Result A × S → Type 0
Returns {S} {A} m = Ensures {S = S} {A = A} (λ a s. Unit) (λ e s. ⊥) m

pub Ensures-Returns :
    {S A : Type 0} {P : A → S → Type 0} {E : Error → S → Type 0} {m : Result A × S}
    → Ensures P E m
    → Returns m
    → Ensures P (λ e s. ⊥) m
Ensures-Returns {m = (ok a, s)} p r = record { after = p.after }
Ensures-Returns {m = (raised e, s)} p r = record { after = r.after }

-- A match on an optional value between two methods.
pub Ensures-option {ℓ} :
    {S A C : Type ℓ} {P : A → S → Type ℓ} {E : Error → S → Type ℓ} (o : Option C) (n : Method S A)
    (f : C → Method S A) (s : S)
    → (o ≡ none → Ensures P E (n s))
    → ((c : C) → o ≡ some c → Ensures P E (f c s))
    → Ensures P E ((elim o as (λ x. Method S A) [ none ↦ n | some c ↦ f c ]) s)
Ensures-option none n f s p q = p refl
Ensures-option (some c) n f s p q = q c refl

pub Ensures-any {ℓ} :
    {S A : Type ℓ} {P : S → Type ℓ} {m : Result A × S} → P m.1 → Ensures (λ a s. P s) (λ e s. P s) m
Ensures-any {m = (ok a, s)} p = record { after = p }
Ensures-any {m = (raised e, s)} p = record { after = p }
