-- ===== src/Latch/Waiting.antt =====
-- latch.cc: when `wait` returns.
use native.Mathlib.Decide.{dec_lt}
use m_server.Prelude.{
  ℕ, zero, suc, ◌+◌, ◌-◌, ◌<◌, ◌≤◌, ◌≡◌, refl, ap, ◌∙◌, true, false, ◌==◌, leb, Bool-cases, inl,
  inr, arith,
}
use m_server.Prelude.Int.{sub_ℕ}
use m_server.Latch.{
  Latch, pred, is_zero, new, test, count_down, Step, waits, counts_down, wakes, tests, Reach, here,
  next,
}

pred_sub : (a b : ℕ) → pred (sub_ℕ a b) ≡ sub_ℕ a (suc b)
unfolding pred
pred_sub a b = elim (Bool-cases (leb b a)) [
  | inl e ↦ elim (Bool-cases (leb (suc b) a)) [
    | inl f ↦ let k : a - b ≡ suc (a - suc b) = ground arith in rw e (rw f (rw k refl))
    | inr f ↦
        let k : a - b ≡ 0 = ground arith in
        let j : suc b - a - 1 ≡ 0 = ground arith in rw e (rw f (rw k (rw j refl)))
  ]
  | inr e ↦
      let f : leb (suc b) a ≡ false = ground arith in
      let k : suc b - a - 1 ≡ suc (b - a - 1) = ground arith in rw e (rw f (rw k refl))
]

is_zero_sub : (a b : ℕ) → is_zero (sub_ℕ a b) ≡ (a == b)
is_zero_sub a b = ground arith

-- The count is what was not counted down yet; no thread returns before it was 0, and none sleeps
-- while it is.
record Inv (n : ℕ) (l : Latch) : Type 0 where
  counted : l.count ≡ sub_ℕ n l.downs
  early : 0 < l.passed → n ≤ l.downs
  woken : l.downs ≡ n → l.asleep ≡ 0

test-Inv : (n : ℕ) (l : Latch) → Inv n l → Inv n (test l)
unfolding test
test-Inv n l v =
    let at_zero : is_zero l.count ≡ (n == l.downs) = ap is_zero v.counted ∙ is_zero_sub n l.downs in
    elim (Bool-cases (n == l.downs)) [
      | inl e ↦
          rw (at_zero ∙ e)
            (record { counted = v.counted; early = λ h. ground arith; woken = v.woken })
      | inr e ↦
          rw (at_zero ∙ e)
            (record { counted = v.counted; early = v.early; woken = λ h. absurd (ground arith) })
    ]

count_down-Inv : (n : ℕ) (l : Latch) → Inv n l → Inv n (count_down l)
unfolding count_down
count_down-Inv n l v =
    let counted : pred l.count ≡ sub_ℕ n (suc l.downs) = ap pred v.counted ∙ pred_sub n l.downs in
    let at_zero : is_zero (pred l.count) ≡ (n == suc l.downs) =
      ap is_zero counted ∙ is_zero_sub n (suc l.downs) in
    let early : 0 < l.passed → n ≤ suc l.downs = λ h. omega (arith, v.early h) in
    elim (Bool-cases (n == suc l.downs)) [
      | inl e ↦ rw (at_zero ∙ e) (record { counted = counted; early = early; woken = λ h. refl })
      | inr e ↦
          rw (at_zero ∙ e)
            (record { counted = counted; early = early; woken = λ h. absurd (ground arith) })
    ]

Step-Inv : {n : ℕ} {l m : Latch} → Inv n l → Step l m → Inv n m
Step-Inv {n} {l} v waits = test-Inv n l v
Step-Inv {n} {l} v counts_down = count_down-Inv n l v
Step-Inv {n} {l} v (wakes k e) = record {
  counted = v.counted;
  early = v.early;
  woken = λ h. absurd (omega (arith, v.woken h));
}
Step-Inv {n} {l} v (tests k e) =
    test-Inv n (record l { awake = k })
      (record { counted = v.counted; early = v.early; woken = v.woken })

Reach-Inv : {n : ℕ} {l : Latch} → Reach (new n) l → Inv n l
Reach-Inv here = record { counted = ground arith; early = λ h. ground arith; woken = λ h. refl }
Reach-Inv (next r st) = Step-Inv (Reach-Inv r) st

-- In whatever order the threads take their steps, `wait` on a latch of count `n` has not returned to
-- any of them before `count_down` was called `n` times.
pub passed-early : {n : ℕ} {l : Latch} → Reach (new n) l → l.downs < n → l.passed ≡ 0
passed-early {n} {l} r h = elim (dec_lt 0 l.passed) [
  | yes p ↦ absurd (omega (arith, (Reach-Inv r).early p, h))
  | no q ↦ omega arith
]

awake-test : (k : ℕ) (l : Latch) → (test (record l { awake = k })).awake ≡ k
unfolding test
awake-test k l = ground arith

-- Tests by all the threads that are awake.
pub test_all : ℕ → Latch → Latch
test_all zero l = l
test_all (suc k) l = test_all k (test (record l { awake = k }))

Reach-test_all :
    {n : ℕ} (k : ℕ) (l : Latch) → Reach (new n) l → l.awake ≡ k → Reach (new n) (test_all k l)
unfolding test_all
Reach-test_all zero l r e = r
Reach-test_all (suc k) l r e =
    Reach-test_all k (test (record l { awake = k })) (next r (tests k e)) (awake-test k l)

test_all_lem :
    (k : ℕ) (l : Latch)
    → is_zero l.count ≡ true
    → l.awake ≡ k
    → let t = test_all k l in
      (t.awake ≡ 0) × (t.passed ≡ l.passed + k) × (t.asleep ≡ l.asleep) × (t.downs ≡ l.downs)
unfolding test_all test
test_all_lem zero l z e = (e, omega arith, refl, refl)
test_all_lem (suc k) l z e =
    let m = test (record l { awake = k }) in
    let passes : m ≡ record l { awake = k; passed = suc l.passed } = rw z refl in
    let (a, p, b, d) = test_all_lem k m (rw passes z) (awake-test k l) in
    (
      a,
      p ∙ ap (λ (x : Latch). x.passed + k) passes ∙ omega arith,
      b ∙ ap (λ (x : Latch). x.asleep) passes,
      d ∙ ap (λ (x : Latch). x.downs) passes,
    )

-- Once `count_down` was called `n` times on a latch of count `n`, no thread sleeps in `wait`, and
-- when each of those that are awake has tested the condition, a run of the latch, `wait` has returned
-- to them all.
pub wait_returns :
    {n : ℕ} {l : Latch}
    → Reach (new n) l
    → l.downs ≡ n
    → let t = test_all l.awake l in
      Reach (new n) t
      × (l.asleep ≡ 0)
      × (t.asleep ≡ 0)
      × (t.awake ≡ 0)
      × (t.passed ≡ l.passed + l.awake)
wait_returns {n} {l} r h =
    let v = Reach-Inv r in
    let z : is_zero l.count ≡ true = ap is_zero v.counted ∙ is_zero_sub n l.downs ∙ ground arith in
    let (awake, passed, asleep, downs) = test_all_lem l.awake l z refl in
    (Reach-test_all l.awake l r refl, v.woken h, asleep ∙ v.woken h, awake, passed)

shut : {n : ℕ} {l : Latch} → Inv n l → n < l.downs → is_zero l.count ≡ false
shut {n} {l} v h = ap is_zero v.counted ∙ is_zero_sub n l.downs ∙ ground arith

step_shut :
    {n : ℕ} {l m : Latch} → Inv n l → n < l.downs → Step l m → (n < m.downs) × (m.passed ≡ l.passed)
unfolding test count_down
step_shut v h waits = rw (shut v h) (h, refl)
step_shut v h counts_down = ground arith
step_shut v h (wakes k e) = (h, refl)
step_shut v h (tests k e) = rw (shut v h) (h, refl)

run_shut :
    {n : ℕ} {l m : Latch}
    → Reach (new n) l
    → n < l.downs
    → Reach l m
    → Reach (new n) m × (n < m.downs) × (m.passed ≡ l.passed)
run_shut r h here = (r, h, refl)
run_shut r h (next s st) =
    let (t, lt, same) = run_shut r h s in
    let (lt', same') = step_shut (Reach-Inv t) lt st in (next t st, lt', same' ∙ same)

-- A latch that was counted down more often than its count is shut for good: from then on no `wait`
-- returns.
pub wait_shut :
    {n : ℕ} {l m : Latch} → Reach (new n) l → n < l.downs → Reach l m → m.passed ≡ l.passed
wait_shut {n} {l} {m} r h s = (run_shut r h s).2
