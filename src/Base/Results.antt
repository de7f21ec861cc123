-- ===== src/Base/Results.antt =====
-- A result or an error, with `do`.
use mathlib.Core.Path.{◌≡◌, refl}
use mathlib.Core.Logic.{◌⊎◌, inl, inr}
use mathlib.Core.Bool.{Bool, true, false}

pub data Result {ℓ κ} (E : Type ℓ) (A : Type κ) : Type (ℓ ⊔ κ) where
  err : E → Result E A
  ok : A → Result E A

infixl 5 ◌>>=◌
abbrev pub ◌>>=◌ {ℓ κ ι} :
    {E : Type ℓ} {A : Type κ} {B : Type ι} → Result E A → (A → Result E B) → Result E B
err e >>= next = err e
ok a >>= next = next a

-- The next step, whatever the answer of the first.
infixl 5 ◌>>◌
abbrev pub ◌>>◌ {ℓ κ} : {E : Type ℓ} {B : Type κ} → Result E (Unit {0}) → Result E B → Result E B
first >> rest = first >>= λ done. rest

-- What a step that came through shows of the steps that it is made of.
pub >>=-eq-ok {ℓ κ ι} :
    {E : Type ℓ} {A : Type κ} {B : Type ι} (r : Result E A) (next : A → Result E B) {out : B}
    → (r >>= next) ≡ ok out
    → (a : A) × (r ≡ ok a) × (next a ≡ ok out)
>>=-eq-ok (err e) next through = cc
>>=-eq-ok (ok a) next through = (a, refl, through)

-- Where an error comes from.
pub >>=-eq-err {ℓ κ ι} :
    {E : Type ℓ} {A : Type κ} {B : Type ι} (r : Result E A) (next : A → Result E B) {e : E}
    → (r >>= next) ≡ err e
    → (r ≡ err e) ⊎ ((a : A) × (r ≡ ok a) × (next a ≡ err e))
>>=-eq-err (err e) next failed = inl cc
>>=-eq-err (ok a) next failed = inr (a, refl, failed)

-- An early return on a test.
abbrev pub unless {ℓ} : {E : Type ℓ} → Bool → E → Result E (Unit {0})
unless false e = ok tt
unless true e = err e

pub ok_inj {ℓ κ} : {E : Type ℓ} {A : Type κ} {a b : A} → ◌≡◌ {A = Result E A} (ok a) (ok b) → a ≡ b
ok_inj h = cc
