-- ===== src/Base/Results.antt =====
-- How a call of the program ends: with a value, or in undefined behaviour.
use mathlib.Core.Path.{◌≡◌, refl}
use mathlib.Core.Logic.{◌≢◌, ◌⊎◌, inl, inr}
use mathlib.Core.Bool.{Bool, true, false}

-- `fault` is a read outside the memory that is read from, a null dereference or a division by zero:
-- the language gives the program no meaning from there on.
pub data Result {ℓ} (A : Type ℓ) : Type ℓ where
  done : A → Result A
  fault : Result A

infixl 5 ◌>>=◌
abbrev pub ◌>>=◌ {ℓ κ} : {A : Type ℓ} {B : Type κ} → Result A → (A → Result B) → Result B
done a >>= f = f a
fault >>= f = fault

-- The only way on is through `true`.
abbrev pub check : Bool → Result (Unit {0})
check true = done tt
check false = fault

infixl 5 ◌>>◌
abbrev pub ◌>>◌ {ℓ} : {B : Type ℓ} → Result (Unit {0}) → Result B → Result B
m >> k = m >>= λ _. k

pub Result-cases {ℓ} : {A : Type ℓ} (r : Result A) → (r ≡ fault) ⊎ ((a : A) × (r ≡ done a))
Result-cases (done a) = inr (a, refl)
Result-cases fault = inl refl

pub >>=-eq-done {ℓ κ} :
    {A : Type ℓ} {B : Type κ} (m : Result A) (f : A → Result B) {b : B}
    → (m >>= f) ≡ done b
    → (a : A) × (m ≡ done a) × (f a ≡ done b)
>>=-eq-done (done a) f h = (a, refl, h)
>>=-eq-done fault f h = cc

pub done-ne-fault {ℓ} : {A : Type ℓ} {r : Result A} {a : A} → r ≡ done a → r ≢ fault
done-ne-fault e f = cc

pub done-injective {ℓ} : {A : Type ℓ} {a b : A} → done a ≡ done b → a ≡ b
done-injective e = cc
