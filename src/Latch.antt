-- ===== src/Latch.antt =====
-- src/base/include/latch.hh and src/base/source/latch.cc: a latch, and the threads that wait for it,
-- in every order of their steps. An `int` that overflows is left out.
pub mod Waiting
use m_server.Prelude.{ℕ, zero, suc, ◌+◌, ◌≡◌, Bool, true, false, ◌==◌, if◌then◌else◌}
use m_server.Prelude.Int.{ℤ, pos, negsuc}

-- `count_--`.
unfoldable pub pred : ℤ → ℤ
pred (pos zero) = negsuc 0
pred (pos (suc n)) = pos n
pred (negsuc n) = negsuc (suc n)

abbrev pub is_zero : ℤ → Bool
is_zero (pos n) = n == 0
is_zero (negsuc n) = false

-- Of the threads in `wait`, `asleep` are in `cond_.wait`, and `awake` have been woken and have still
-- to test the condition. `passed` counts the returns of `wait`, `downs` the calls of `count_down`.
pub record Latch : Type 0 where
  pub count : ℤ
  pub asleep : ℕ
  pub awake : ℕ
  pub passed : ℕ
  pub downs : ℕ

-- The constructor.
abbrev pub new : ℕ → Latch
new count = record { count = pos count; asleep = 0; awake = 0; passed = 0; downs = 0 }

-- A test of the condition in `wait`, under the lock: the thread returns, or it sleeps.
unfoldable pub test : Latch → Latch
test l =
    if is_zero l.count
    then record l { passed = suc l.passed }
    else record l { asleep = suc l.asleep }

-- `notify_all` wakes every thread that sleeps.
unfoldable pub count_down : Latch → Latch
unfolding pred
count_down l =
    let counted = record l { count = pred l.count; downs = suc l.downs } in
    if is_zero counted.count
    then record counted { asleep = 0; awake = l.awake + l.asleep }
    else counted

-- One step: a thread calls `wait`; one calls `count_down`; one that sleeps wakes of itself, as a
-- condition variable allows; one that is awake tests again.
pub data Step (l : Latch) : Latch → Type 0 where
  waits : Step l (test l)
  counts_down : Step l (count_down l)
  wakes : (n : ℕ) → l.asleep ≡ suc n → Step l (record l { asleep = n; awake = suc l.awake })
  tests : (n : ℕ) → l.awake ≡ suc n → Step l (test (record l { awake = n }))

-- The states that can follow `l`.
pub data Reach (l : Latch) : Latch → Type 0 where
  here : Reach l l
  next : {s t : Latch} → Reach l s → Step s t → Reach l t
