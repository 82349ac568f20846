-- ===== src/Timers/Queue/Order.antt =====
-- timer_queue.cc: the order and the contents of the map of timers.
use mathlib.Core.List.{Perm}
use mathlib.Core.List.Perm
use m_server.Prelude.{
  ℕ, ◌≤◌, ◌<◌, ◌≡◌, refl, [], ◌∷◌, ◌++◌, true, ltb, Bool-cases, inl, inr, ◌↔◌, arith, map, All,
}
use m_server.Timers.Timer.{Timer}
use m_server.Timers.Queue.{
  TimerMap, TimerQueue, multimap_insert, is_first, insert, before, from, pop_expired,
}

-- The keys rise from `low` on, and each is the expiration of its timer.
abbrev pub Sorted : ℕ → TimerMap → Type 0
Sorted low [] = Unit {0}
Sorted low ((k, t) ∷ m) = (low ≤ k) × (t.expiration ≡ k) × Sorted k m

abbrev pub IsValid : TimerQueue → Type 0
IsValid q = Sorted 0 q.timers

-- An entry of the map.
abbrev pub keyed : Timer → ℕ × Timer
keyed t = (t.expiration, t)

Sorted-insert :
    (low : ℕ) (t : Timer) (m : TimerMap)
    → Sorted low m
    → low ≤ t.expiration
    → Sorted low (multimap_insert t.expiration t m)
unfolding multimap_insert
Sorted-insert low t [] s h = (h, refl, tt)
Sorted-insert low t ((k, u) ∷ m) s h = ground (arith, Sorted-insert k t m s.2)

insert-perm : (k : ℕ) (t : Timer) (m : TimerMap) → Perm (multimap_insert k t m) ((k, t) ∷ m)
unfolding multimap_insert
insert-perm k t [] = Perm.rfl
insert-perm k t ((j, u) ∷ m) = elim (Bool-cases (ltb k j)) [
  | inl e ↦ rw e Perm.rfl
  | inr e ↦ rw e (Perm.trans (Perm.cons (j, u) (insert-perm k t m)) (Perm.swap (k, t) (j, u) m))
]

above-low : (n low : ℕ) (m : TimerMap) → Sorted low m → n < low → All (λ e. n < e.0) m
above-low n low [] s h = tt
above-low n low ((k, t) ∷ m) s h = (omega arith, above-low n k m s.2 (omega arith))

is_first_iff :
    (n low : ℕ) (m : TimerMap) → Sorted low m → (is_first n m ≡ true) ↔ All (λ e. n < e.0) m
unfolding is_first
is_first_iff n low [] s = (λ e. tt, λ a. refl)
is_first_iff n low ((k, t) ∷ m) s = (
  λ e. let lt : n < k = ground arith in (lt, above-low n k m s.2 lt),
  λ a. let lt : n < k = a.0 in ground arith,
)

-- `insert` into an ordered map keeps the order, adds the timer and nothing else, and reports
-- exactly whether it expires before every other timer.
pub insert_lem :
    (t : Timer) (q : TimerQueue)
    → IsValid q
    → IsValid (insert t q).1
      × Perm (insert t q).1.timers (keyed t ∷ q.timers)
      × (((insert t q).0 ≡ true) ↔ All (λ e. t.expiration < e.0) q.timers)
unfolding insert
insert_lem t q v = (
  Sorted-insert 0 t q.timers v (omega arith),
  insert-perm t.expiration t q.timers,
  is_first_iff t.expiration 0 q.timers v,
)

pub Sorted-weaken : (a b : ℕ) (m : TimerMap) → a ≤ b → Sorted b m → Sorted a m
Sorted-weaken a b [] h s = tt
Sorted-weaken a b ((k, t) ∷ m) h s = (omega arith, s.1, s.2)

Sorted-from : (now low : ℕ) (m : TimerMap) → Sorted low m → Sorted low (from now m)
unfolding from
Sorted-from now low [] s = tt
Sorted-from now low ((k, t) ∷ m) s =
    ground (arith, Sorted-from now k m s.2, Sorted-weaken low k (from now m))

from_low : (now low : ℕ) (m : TimerMap) → Sorted low m → now ≤ low → All (λ e. now ≤ e.0) m
from_low now low [] s h = tt
from_low now low ((k, t) ∷ m) s h = (omega arith, from_low now k m s.2 (omega arith))

from-All : (now low : ℕ) (m : TimerMap) → Sorted low m → All (λ e. now ≤ e.0) (from now m)
unfolding from
from-All now low [] s = tt
from-All now low ((k, t) ∷ m) s = ground (arith, from-All now k m s.2, from_low now k m s.2)

before-All :
    (now low : ℕ) (m : TimerMap) → Sorted low m → All (λ t. t.expiration < now) (before now m)
unfolding before
before-All now low [] s = tt
before-All now low ((k, t) ∷ m) s = ground (arith, before-All now k m s.2)

split-append :
    (now low : ℕ) (m : TimerMap) → Sorted low m → map keyed (before now m) ++ from now m ≡ m
unfolding before from
split-append now low [] s = refl
split-append now low ((k, t) ∷ m) s = ground (arith, split-append now k m s.2)

-- `pop_expired` splits an ordered map in two, in order: the timers that expire before `now`, which
-- it returns, and those that do not, which stay.
pub pop_expired_lem :
    (now : ℕ) (q : TimerQueue)
    → IsValid q
    → let (expired, q') = pop_expired now q in
      (map keyed expired ++ q'.timers ≡ q.timers)
      × All (λ t. t.expiration < now) expired
      × All (λ e. now ≤ e.0) q'.timers
      × IsValid q'
unfolding pop_expired
pop_expired_lem now q v = (
  split-append now 0 q.timers v,
  before-All now 0 q.timers v,
  from-All now 0 q.timers v,
  Sorted-from now 0 q.timers v,
)
