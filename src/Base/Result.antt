-- ===== src/Base/Result.antt =====
-- Results of code that can throw or refuse, with the `do` notation.
use mathlib.Core.Path.{◌≡◌, refl}
use mathlib.Core.Logic.{◌⊎◌, inl, inr}
use mathlib.Core.Bool.{Bool, true, false}

pub data Result {ℓ κ} (E : Type ℓ) (A : Type κ) : Type (ℓ ⊔ κ) where
  err : E → Result E A
  ok : A → Result E A

infixl 5 ◌>>=◌ ◌>>◌
abbrev pub ◌>>=◌ {ℓ κ μ} :
    {E : Type ℓ} {A : Type κ} {B : Type μ} → Result E A → (A → Result E B) → Result E B
answer >>= next = elim answer [ err problem ↦ err problem | ok value ↦ next value ]

abbrev pub ◌>>◌ {ℓ κ} : {E : Type ℓ} {B : Type κ} → Result E (Unit {0}) → Result E B → Result E B
check >> next = elim check [ err problem ↦ err problem | ok _ ↦ next ]

-- `if (!test) throw error`.
abbrev pub require {ℓ} : {E : Type ℓ} → Bool → E → Result E (Unit {0})
require test problem = elim test [ true ↦ ok tt | false ↦ err problem ]

-- A chain that succeeds has a first part that does.
pub >>=-eq-ok {ℓ κ μ} :
    {E : Type ℓ} {A : Type κ} {B : Type μ} (answer : Result E A) (next : A → Result E B) {out : B}
    → (answer >>= next) ≡ ok out
    → (value : A) × (answer ≡ ok value) × (next value ≡ ok out)
>>=-eq-ok (err problem) next e = cc
>>=-eq-ok (ok value) next e = (value, refl, e)

pub Result-cases {ℓ κ} :
    {E : Type ℓ} {A : Type κ} (r : Result E A)
    → ((problem : E) × (r ≡ err problem)) ⊎ ((value : A) × (r ≡ ok value))
Result-cases (err problem) = inl (problem, refl)
Result-cases (ok value) = inr (value, refl)
