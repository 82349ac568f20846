-- ===== src/Prelude/Outcome.antt =====
-- What a call of the program comes to: a value, or the way in which the process stops.
-- `assert` is active: no build file of the repository defines NDEBUG.
use mathlib.Core.Path.{◌≡◌, refl}
use mathlib.Core.Logic.{◌⊎◌, inl, inr}
use mathlib.Core.Bool.{Bool, true, false}

-- `aborted`: a failed `assert`; `length_error`: the exception of std::vector;
-- `bad_function_call`: the exception of an empty std::function;
-- `undefined`: undefined behaviour of C++ (an access out of bounds, a null pointer, ...).
pub data Fault : Type 0 where
  aborted length_error bad_function_call undefined : Fault

pub data Result {ℓ} (A : Type ℓ) : Type ℓ where
  ok : A → Result A
  err : Fault → Result A

-- What stands after a call runs only if the call returns.
infixl 5 ◌>>=◌
abbrev pub ◌>>=◌ {ℓ κ} : {A : Type ℓ} {B : Type κ} → Result A → (A → Result B) → Result B
err fault >>= rest = err fault
ok value >>= rest = rest value

infixl 5 ◌>>◌
abbrev pub ◌>>◌ {ℓ} : {A : Type ℓ} → Result (Unit {0}) → Result A → Result A
first >> rest = first >>= λ _. rest

-- `assert(test)`.
abbrev pub check : Bool → Result (Unit {0})
check true = ok tt
check false = err aborted

-- What the code takes for granted, with undefined behaviour where it does not hold.
abbrev pub require : Bool → Result (Unit {0})
require true = ok tt
require false = err undefined

-- The call does not return.
abbrev pub Fails {ℓ} : {A : Type ℓ} → Result A → Type ℓ
Fails {A} r = (e : Fault) × (r ≡ err e)

-- Every value that the call returns satisfies `P`.
abbrev pub Ensures {ℓ κ} : {A : Type ℓ} → (A → Type κ) → Result A → Type κ
Ensures P (ok a) = P a
Ensures P (err e) = Unit

pub Result-cases {ℓ} : {A : Type ℓ} (r : Result A) → ((a : A) × (r ≡ ok a)) ⊎ Fails r
Result-cases (ok a) = inl (a, refl)
Result-cases (err e) = inr (e, refl)

pub Ensures-ok {ℓ κ} :
    {A : Type ℓ} (P : A → Type κ) (r : Result A) {a : A} → r ≡ ok a → Ensures P r → P a
Ensures-ok P r e h = rw e at h

pub Ensures-Fails {ℓ κ} : {A : Type ℓ} (P : A → Type κ) {r : Result A} → Fails r → Ensures P r
Ensures-Fails P (e, h) = rw h tt
