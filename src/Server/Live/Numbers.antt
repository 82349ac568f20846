-- ===== src/Server/Live/Numbers.antt =====
-- tcp_server.cc: lists of the numbers of live connections.
use m_server.Prelude.{
  ℕ, suc, ◌<◌, ◌≡◌, ◌≢◌, refl, List, [], ◌∷◌, ◌++◌, true, false, ◌⊎◌, inl, inr, Bool-cases, All,
  ◌==◌, arith, ==_iff, if◌then◌else◌,
}
use m_server.Server.Live.{remove, has, Distinct}

pub has-append : (i j : ℕ) (js : List ℕ) → i ≢ j → has i js ≡ false → has i (js ++ j ∷ []) ≡ false
has-append i j [] d h = ground arith
has-append i j (k ∷ js) d h = ground (arith, has-append i j js d)

pub Distinct-append :
    (n : ℕ) (js : List ℕ) → All (λ j. j < n) js → Distinct js → Distinct (js ++ n ∷ [])
Distinct-append n [] a d = (refl, tt)
Distinct-append n (j ∷ js) a d =
    (has-append j n js (omega (arith, a.0)) d.0, Distinct-append n js a.1 d.1)

pub has-remove : (i j : ℕ) (js : List ℕ) → has i js ≡ false → has i (remove j js) ≡ false
has-remove i j [] h = refl
has-remove i j (k ∷ js) h = ground (arith, has-remove i j js)

pub Distinct-remove : (i : ℕ) (js : List ℕ) → Distinct js → Distinct (remove i js)
Distinct-remove i [] d = tt
Distinct-remove i (j ∷ js) d = elim (Bool-cases (j == i)) [
  | inl e ↦ rw e d.1
  | inr e ↦ rw e (has-remove j i js d.0, Distinct-remove i js d.1)
]

pub Below-append : (n : ℕ) (js : List ℕ) → All (λ j. j < n) js → All (λ j. j < suc n) (js ++ n ∷ [])
Below-append n [] a = (omega arith, tt)
Below-append n (j ∷ js) a = (omega (arith, a.0), Below-append n js a.1)

pub Below-remove : (n i : ℕ) (js : List ℕ) → All (λ j. j < n) js → All (λ j. j < n) (remove i js)
Below-remove n i [] a = tt
Below-remove n i (j ∷ js) a = elim (Bool-cases (j == i)) [
  | inl e ↦ rw e a.1
  | inr e ↦ rw e (a.0, Below-remove n i js a.1)
]

pub absent_split : (i j : ℕ) (js : List ℕ) → has i (j ∷ js) ≡ false → (j ≢ i) × (has i js ≡ false)
absent_split i j js h = (λ e. ground arith, ground arith)

pub present_split :
    (i j : ℕ) (js : List ℕ)
    → has i (j ∷ js) ≡ true
    → ((j ≡ i) × (remove i (j ∷ js) ≡ js))
      ⊎ ((j ≢ i) × (has i js ≡ true) × (remove i (j ∷ js) ≡ j ∷ remove i js))
present_split i j js h = elim (Bool-cases (j == i)) [
  | inl e ↦ inl ((==_iff j i).0 e, rw e refl)
  | inr e ↦ inr (λ f. ground arith, ground arith, rw e refl)
]

pub has-append_eq :
    (i j : ℕ) (js : List ℕ) → has i (js ++ j ∷ []) ≡ (if j == i then true else has i js)
has-append_eq i j [] = ground arith
has-append_eq i j (k ∷ js) = ground (arith, has-append_eq i j js)

pub has-remove_ne : (i j : ℕ) (js : List ℕ) → j ≢ i → has i (remove j js) ≡ has i js
has-remove_ne i j [] d = refl
has-remove_ne i j (k ∷ js) d = ground (arith, has-remove_ne i j js)

pub has-remove_self : (i : ℕ) (js : List ℕ) → Distinct js → has i (remove i js) ≡ false
has-remove_self i [] d = refl
has-remove_self i (k ∷ js) d = elim (Bool-cases (k == i)) [
  | inl e ↦ let same : k ≡ i = (==_iff k i).0 e in rw e (rw (← same) d.0)
  | inr e ↦ rw e (rw e (has-remove_self i js d.1))
]
