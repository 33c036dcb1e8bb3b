-- ===== src/Base/Results.antt =====
-- Calls that return or raise.
use mathlib.Core.Path.{◌≡◌, refl}

pub data Result {ℓ κ} (E : Type ℓ) (A : Type κ) : Type (ℓ ⊔ κ) where
  ok : A → Result E A
  raise : E → Result E A

infixl 5 ◌>>=◌
abbrev pub ◌>>=◌ {ℓ κ μ} :
    {A : Type κ} {B : Type μ} {E : Type ℓ} → Result E A → (A → Result E B) → Result E B
raise error >>= next = raise error
ok value >>= next = next value

-- Inversion of a bind that returned.
pub >>=-eq-ok {ℓ κ μ} :
    {A : Type κ} {B : Type μ} {E : Type ℓ} (call : Result E A) (next : A → Result E B) {b : B}
    → (call >>= next) ≡ ok b
    → (value : A) × (call ≡ ok value) × (next value ≡ ok b)
>>=-eq-ok (raise error) next returned = cc
>>=-eq-ok (ok value) next returned = (value, refl, returned)

pub ok-injective {ℓ κ} :
    {E : Type ℓ} {A : Type κ} {a b : A} → ◌≡◌ {A = Result E A} (ok a) (ok b) → a ≡ b
ok-injective same = cc
