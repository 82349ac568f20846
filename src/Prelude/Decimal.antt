-- ===== src/Prelude/Decimal.antt =====
-- Decimal numerals, as `std::to_string` prints them: lists of ASCII codes.
use Prim.Native.Nat.{ℕ, zero, suc, ◌+◌, ◌-◌, ◌*◌, ◌/◌, ◌%◌, ◌≤◌, ◌<◌}
use mathlib.Core.Path.{◌≡◌, refl, sym, ap, ◌∙◌}
use mathlib.Core.List.{List, [], ◌∷◌, ◌++◌}
use mathlib.Core.Logic.{inl, inr}
use native.Mathlib.Omega.{arith}
use m_server.Prelude.Order.{ltb, if◌then◌else◌, Bool-cases}
use m_server.Prelude.Lists.{All, replicate}

-- The digits of `n`, given more fuel than `n`.
digits : ℕ → ℕ → List ℕ
digits zero n = []
digits (suc fuel) n =
    let rest = digits fuel (n / 10) ++ (48 + n % 10) ∷ [] in
    if ltb n 10 then (48 + n) ∷ [] else rest

pub to_string : ℕ → List ℕ
unfolding digits
to_string n = digits (suc n) n

-- The number that a numeral stands for, behind one that stands for `acc`.
unfoldable pub value_from : ℕ → List ℕ → ℕ
value_from acc [] = acc
value_from acc (c ∷ cs) = value_from (acc * 10 + (c - 48)) cs

value_from-append :
    (acc : ℕ) (xs ys : List ℕ) → value_from acc (xs ++ ys) ≡ value_from (value_from acc xs) ys
unfolding value_from
value_from-append acc [] ys = refl
value_from-append acc (x ∷ xs) ys = value_from-append (acc * 10 + (x - 48)) xs ys

value_from-digits : (fuel n : ℕ) → n < fuel → value_from 0 (digits fuel n) ≡ n
unfolding digits value_from
value_from-digits zero n h = absurd (omega arith)
value_from-digits (suc fuel) n h = ground (
  arith,
  value_from-append 0 (digits fuel (n / 10)) ((48 + n % 10) ∷ []),
  value_from-digits fuel (n / 10),
)

-- A numeral stands for the number that was printed.
pub value_from-to_string : (n : ℕ) → value_from 0 (to_string n) ≡ n
unfolding to_string
value_from-to_string n = value_from-digits (suc n) n (omega arith)

pub to_string_injective : (m n : ℕ) → to_string m ≡ to_string n → m ≡ n
to_string_injective m n e =
    sym (value_from-to_string m) ∙ ap (value_from 0) e ∙ value_from-to_string n

-- Zeros in front change nothing.
pub value_from-zeros : (k : ℕ) (xs : List ℕ) → value_from 0 (replicate k 48 ++ xs) ≡ value_from 0 xs
unfolding value_from
value_from-zeros zero xs = refl
value_from-zeros (suc k) xs = value_from-zeros k xs

abbrev pub IsDigit : ℕ → Type 0
IsDigit c = (48 ≤ c) × (c < 58)

All-append {ℓ} :
    {A : Type 0} (P : A → Type ℓ) (xs ys : List A) → All P xs → All P ys → All P (xs ++ ys)
All-append P [] ys h k = k
All-append P (x ∷ xs) ys h k = (h.0, All-append P xs ys h.1 k)

digits-All : (fuel n : ℕ) → All IsDigit (digits fuel n)
unfolding digits
digits-All zero n = tt
digits-All (suc fuel) n = elim (Bool-cases (ltb n 10)) [
  | inl e ↦ rw e ((ground arith, ground arith), tt)
  | inr e ↦ rw e (
      All-append IsDigit (digits fuel (n / 10)) ((48 + n % 10) ∷ []) (digits-All fuel (n / 10))
        ((omega arith, omega arith), tt))
]

pub to_string-All : (n : ℕ) → All IsDigit (to_string n)
unfolding to_string
to_string-All n = digits-All (suc n) n
