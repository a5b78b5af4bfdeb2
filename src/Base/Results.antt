-- ===== src/Base/Results.antt =====
-- Go's (value, error) pair, with `do` blocks over it.
use mathlib.Core.Path.{◌≡◌, refl}
use mathlib.Core.Logic.{◌⊎◌, inl, inr}
use mathlib.Core.Bool.{Bool, true, false}

pub data Result {ℓ} (E : Type 0) (A : Type ℓ) : Type ℓ where
  err : E → Result E A
  ok : A → Result E A

-- `if bad { return fault }`
abbrev pub fail_if : {E : Type 0} → Bool → E → Result E (Unit {0})
fail_if false fault = ok tt
fail_if true fault = err fault

abbrev pub is_ok {ℓ} : {E : Type 0} {A : Type ℓ} → Result E A → Bool
is_ok (err fault) = false
is_ok (ok value) = true

pub fail_if-ok :
    {E : Type 0} (bad : Bool) (fault : E) (u : Unit {0}) → fail_if bad fault ≡ ok u → bad ≡ false
fail_if-ok true fault u h = cc
fail_if-ok false fault u h = refl

pub Result-cases {ℓ} :
    {E : Type 0} {A : Type ℓ} (r : Result E A) → ((a : A) × (r ≡ ok a)) ⊎ ((e : E) × (r ≡ err e))
Result-cases (err fault) = inr (fault, refl)
Result-cases (ok value) = inl (value, refl)

module _ {ℓ κ} {E : Type 0} {A : Type ℓ} {B : Type κ} where
  -- `value, err := r; if err != nil { return err }; next(value)`
  infixl 5 ◌>>=◌
  abbrev pub ◌>>=◌ : Result E A → (A → Result E B) → Result E B
  err fault >>= next = err fault
  ok value >>= next = next value

  -- What a success of the whole says of its two parts.
  pub >>=-parts :
      (r : Result E A) (next : A → Result E B) {b : B}
      → (r >>= next) ≡ ok b
      → (value : A) × (r ≡ ok value) × (next value ≡ ok b)
  >>=-parts (err fault) next done = cc
  >>=-parts (ok value) next done = (value, refl, done)

module _ {ℓ} {E : Type 0} {B : Type ℓ} where
  infixl 5 ◌>>◌
  abbrev pub ◌>>◌ : Result E (Unit {0}) → Result E B → Result E B
  check >> rest = check >>= (λ _. rest)
