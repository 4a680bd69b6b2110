-- ===== src/Base/Errors.antt =====
-- Results of fallible code: a value or an error.
use mathlib.Core.Path.{◌≡◌, refl}
use mathlib.Core.Bool.{Bool, true, false}

pub data Result {ℓ} (E : Type 0) (A : Type ℓ) : Type ℓ where
  ok : A → Result E A
  err : E → Result E A

-- `if !holds { return e }`
abbrev pub guard : {E : Type 0} → Bool → E → Result E (Unit {0})
guard false e = err e
guard true _ = ok tt

infixl 5 ◌>>=◌ ◌>>◌
abbrev pub ◌>>=◌ {ℓ κ} :
    {E : Type 0} {A : Type ℓ} {B : Type κ} → Result E A → (A → Result E B) → Result E B
err e >>= next = err e
ok value >>= next = next value

abbrev pub ◌>>◌ {ℓ} : {E : Type 0} {B : Type ℓ} → Result E (Unit {0}) → Result E B → Result E B
checked >> rest = checked >>= λ _. rest

-- A chain that succeeds has a first part that does, and goes on from its value.
pub >>=-eq-ok {ℓ κ} :
    {E : Type 0} {A : Type ℓ} {B : Type κ} (first : Result E A) (next : A → Result E B) {end : B}
    → (first >>= next) ≡ ok end
    → (value : A) × (first ≡ ok value) × (next value ≡ ok end)
>>=-eq-ok (err e) next same = cc
>>=-eq-ok (ok value) next same = (value, refl, same)
