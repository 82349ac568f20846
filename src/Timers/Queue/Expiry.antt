-- ===== src/Timers/Queue/Expiry.antt =====
-- timer_queue.cc, `handle_read`: which timers are in the map after the timer descriptor has fired.
use mathlib.Core.List.{Mem, Memᴰ, Perm, perm_middle, mem-append_left, mem-map_of_mem}
use mathlib.Core.List.Memᴰ
use mathlib.Core.List.Perm
use mathlib.Core.Logic.{∥∥₁_map}
use m_server.Prelude.{
  ℕ, ◌+◌, ◌≡◌, refl, ap, sym, subst, ◌∙◌, List, [], ◌∷◌, ◌++◌, true, false, Bool-cases, inl, inr,
  if◌then◌else◌, arith, map, ltb, ◌≤◌,
}
use m_server.Timers.Timer.{Timer, restart}
use m_server.Timers.Queue.{
  TimerMap, TimerQueue, multimap_erase, insert, before, from, pop_expired, Op, add, cancel,
  add_timer_in_loop, reset_expieration_from_now, cancel_timer_in_loop, perform, run_all,
  reset_timers, rearm, handle_read,
}
use m_server.Timers.Queue.Order.{Sorted, IsValid, keyed, Sorted-weaken, insert_lem, pop_expired_lem}

Sorted-erase :
    (k sequence low : ℕ) (m : TimerMap) → Sorted low m → Sorted low (multimap_erase k sequence m)
unfolding multimap_erase
Sorted-erase k sequence low [] s = tt
Sorted-erase k sequence low ((j, u) ∷ m) s =
    ground (arith, Sorted-erase k sequence j m s.2, Sorted-weaken low j m)

timers-reset :
    (now expir : ℕ) (q : TimerQueue) → (reset_expieration_from_now now expir q).timers ≡ q.timers
unfolding reset_expieration_from_now
timers-reset now expir q = refl

add-IsValid :
    (now : ℕ) (t : Timer) (q : TimerQueue) → IsValid q → IsValid (add_timer_in_loop now t q)
unfolding add_timer_in_loop
add-IsValid now t q v = elim (Bool-cases (insert t q).0) [
  | inl e ↦ rw e (rw (timers-reset now t.expiration (insert t q).1) (insert_lem t q v).0)
  | inr e ↦ rw e (insert_lem t q v).0
]

perform-IsValid : (ops : List Op) (q : TimerQueue) → IsValid q → IsValid (perform ops q)
unfolding perform cancel_timer_in_loop
perform-IsValid [] q v = v
perform-IsValid (add now t ∷ ops) q v = perform-IsValid ops _ (add-IsValid now t q v)
perform-IsValid (cancel t ∷ ops) q v =
    perform-IsValid ops _ (Sorted-erase t.expiration t.sequence 0 q.timers v)

run_all-IsValid :
    (effects : Timer → List Op) (ts : List Timer) (q : TimerQueue)
    → IsValid q
    → IsValid (run_all effects ts q)
unfolding run_all
run_all-IsValid effects [] q v = v
run_all-IsValid effects (t ∷ ts) q v =
    run_all-IsValid effects ts _ (perform-IsValid (effects t) q v)

-- Of a timer, so that the test is rewritten and the timer is not.
module _ (now : ℕ) (t : Timer) (ts : List Timer) (q : TimerQueue) where
  reset_timers-repeating :
      t.reapeat ≡ true
      → reset_timers now (t ∷ ts) q ≡ reset_timers now ts (insert (restart now t) q).1
  unfolding reset_timers
  reset_timers-repeating e =
      ap (λ b. reset_timers now ts (if b then (insert (restart now t) q).1 else q)) e

  reset_timers-once : t.reapeat ≡ false → reset_timers now (t ∷ ts) q ≡ reset_timers now ts q
  unfolding reset_timers
  reset_timers-once e =
      ap (λ b. reset_timers now ts (if b then (insert (restart now t) q).1 else q)) e

reset_timers-IsValid :
    (now : ℕ) (ts : List Timer) (q : TimerQueue) → IsValid q → IsValid (reset_timers now ts q)
reset_timers-IsValid now [] q v = unfold reset_timers in v
reset_timers-IsValid now (t ∷ ts) q v = elim (Bool-cases t.reapeat) [
  | inl e ↦
      subst IsValid (sym (reset_timers-repeating now t ts q e))
        (reset_timers-IsValid now ts _ (insert_lem (restart now t) q v).0)
  | inr e ↦ subst IsValid (sym (reset_timers-once now t ts q e)) (reset_timers-IsValid now ts q v)
]

pub timers-rearm : (now : ℕ) (m : TimerMap) (q : TimerQueue) → (rearm now m q).timers ≡ q.timers
unfolding rearm
timers-rearm now [] q = refl
timers-rearm now ((k, t) ∷ m) q = timers-reset now k q

-- The repeating ones of a list of timers, each set to expire its interval after `now`.
pub renewed : ℕ → List Timer → List Timer
renewed now [] = []
renewed now (t ∷ ts) =
    if t.reapeat
    then record t { expiration = now + t.interval } ∷ renewed now ts
    else renewed now ts

restart_lem :
    (now : ℕ) (t : Timer)
    → t.reapeat ≡ true
    → restart now t ≡ record t { expiration = now + t.interval }
unfolding restart
restart_lem now t e = ap (λ b. if b then record t { expiration = now + t.interval } else t) e

renewed-repeating :
    (now : ℕ) (t : Timer) (ts : List Timer)
    → t.reapeat ≡ true
    → renewed now (t ∷ ts) ≡ restart now t ∷ renewed now ts
unfolding renewed
renewed-repeating now t ts e =
    ap
      (λ b.
        if b then record t { expiration = now + t.interval } ∷ renewed now ts else renewed now ts)
      e
    ∙ ap (λ u. u ∷ renewed now ts) (sym (restart_lem now t e))

renewed-once :
    (now : ℕ) (t : Timer) (ts : List Timer)
    → t.reapeat ≡ false
    → renewed now (t ∷ ts) ≡ renewed now ts
unfolding renewed
renewed-once now t ts e =
    ap
      (λ b.
        if b then record t { expiration = now + t.interval } ∷ renewed now ts else renewed now ts)
      e

reset_timers-perm :
    (now : ℕ) (ts : List Timer) (q : TimerQueue)
    → IsValid q
    → Perm (reset_timers now ts q).timers (map keyed (renewed now ts) ++ q.timers)
reset_timers-perm now [] q v = unfold reset_timers renewed in Perm.rfl
reset_timers-perm now (t ∷ ts) q v = elim (Bool-cases t.reapeat) [
  | inl e ↦
      let t' = restart now t in
      let (v', p, f) = insert_lem t' q v in
      let rest = map keyed (renewed now ts) in
      rw (reset_timers-repeating now t ts q e, renewed-repeating now t ts e)
        (Perm.trans (reset_timers-perm now ts (insert t' q).1 v')
          (Perm.trans (Perm.append_left rest p) (perm_middle rest q.timers)))
  | inr e ↦
      rw (reset_timers-once now t ts q e, renewed-once now t ts e) (reset_timers-perm now ts q v)
]

handle_read-pops :
    (effects : Timer → List Op) (now later : ℕ) (q : TimerQueue)
    → IsValid q
    → let expired = before now q.timers in
      let rest = record q { timers = from now q.timers } in
      Perm
        (handle_read effects now later q).timers
        (map keyed (renewed now expired) ++ (run_all effects expired rest).timers)
      × IsValid (handle_read effects now later q)
unfolding handle_read pop_expired
handle_read-pops effects now later q v =
    let (expired, rest) = pop_expired now q in
    let ran = run_all effects expired rest in
    let ran_valid = run_all-IsValid effects expired rest (pop_expired_lem now q v).3 in
    let done = reset_timers now expired ran in
    rw (timers-rearm later done.timers done)
      (reset_timers-perm now expired ran ran_valid, reset_timers-IsValid now expired ran ran_valid)

-- The timers of a map that expire before `now`, and the entries of the others.
pub expired_by : ℕ → TimerMap → List Timer
expired_by now [] = []
expired_by now ((k, t) ∷ m) =
    if ltb t.expiration now then t ∷ expired_by now m else expired_by now m

pub still_to_come : ℕ → TimerMap → TimerMap
still_to_come now [] = []
still_to_come now ((k, t) ∷ m) =
    if ltb t.expiration now then still_to_come now m else (k, t) ∷ still_to_come now m

late_expired : (now low : ℕ) (m : TimerMap) → Sorted low m → now ≤ low → expired_by now m ≡ []
unfolding expired_by
late_expired now low [] s h = refl
late_expired now low ((k, t) ∷ m) s h = ground (arith, late_expired now k m s.2)

late_to_come : (now low : ℕ) (m : TimerMap) → Sorted low m → now ≤ low → still_to_come now m ≡ m
unfolding still_to_come
late_to_come now low [] s h = refl
late_to_come now low ((k, t) ∷ m) s h = ground (arith, late_to_come now k m s.2)

before-expired : (now low : ℕ) (m : TimerMap) → Sorted low m → before now m ≡ expired_by now m
unfolding before expired_by
before-expired now low [] s = refl
before-expired now low ((k, t) ∷ m) s =
    ground (arith, before-expired now k m s.2, late_expired now k m s.2)

from-to_come : (now low : ℕ) (m : TimerMap) → Sorted low m → from now m ≡ still_to_come now m
unfolding from still_to_come
from-to_come now low [] s = refl
from-to_come now low ((k, t) ∷ m) s =
    ground (arith, from-to_come now k m s.2, late_to_come now k m s.2)

-- `handle_read` on an ordered map, whatever the callbacks do to it: they are those of the timers that
-- expire before the reading of the clock, and find the others alone in the map. It then holds what it
-- held after they ran, and each repeating timer that had expired, set to expire its interval after that
-- reading; it is still in order.
pub handle_read-perm :
    (effects : Timer → List Op) (now later : ℕ) (q : TimerQueue)
    → IsValid q
    → let expired = expired_by now q.timers in
      let rest = record q { timers = still_to_come now q.timers } in
      Perm
        (handle_read effects now later q).timers
        (map keyed (renewed now expired) ++ (run_all effects expired rest).timers)
      × IsValid (handle_read effects now later q)
handle_read-perm effects now later q v =
    let expired = before-expired now 0 q.timers v in
    let to_come = from-to_come now 0 q.timers v in
    rw (← expired) (rw (← to_come) (handle_read-pops effects now later q v))

renewed-Memᴰ :
    (now : ℕ) (t : Timer) (ts : List Timer)
    → t.reapeat ≡ true
    → Memᴰ t ts
    → Memᴰ (restart now t) (renewed now ts)
renewed-Memᴰ now t [] e m = absurd (Memᴰ.not-nil m)
renewed-Memᴰ now t (u ∷ ts) e (Memᴰ.head same) =
    rw (renewed-repeating now u ts (ap (λ v. v.reapeat) (sym same) ∙ e))
      (Memᴰ.head (ap (restart now) same))
renewed-Memᴰ now t (u ∷ ts) e (Memᴰ.tail m) = elim (Bool-cases u.reapeat) [
  | inl f ↦ rw (renewed-repeating now u ts f) (Memᴰ.tail (renewed-Memᴰ now t ts e m))
  | inr f ↦ rw (renewed-once now u ts f) (renewed-Memᴰ now t ts e m)
]

-- A repeating timer that has expired in an ordered map is back in it, its interval after the
-- reading of the clock, when `handle_read` ends, whatever the callbacks do, its own and another's
-- cancelling it included.
pub handle_read-renews :
    (effects : Timer → List Op) (now later : ℕ) (q : TimerQueue) (t : Timer)
    → IsValid q
    → Mem t (expired_by now q.timers)
    → t.reapeat ≡ true
    → Mem
        (now + t.interval, record t { expiration = now + t.interval })
        (handle_read effects now later q).timers
handle_read-renews effects now later q t v m e =
    let after = (handle_read effects now later q).timers in
    let renewal : Mem (keyed (restart now t)) after =
      Perm.subset (Perm.symm (handle_read-perm effects now later q v).0) _
        (mem-append_left _ (mem-map_of_mem keyed (∥∥₁_map m (renewed-Memᴰ now t _ e)))) in
    subst (λ u. Mem (keyed u) after) (restart_lem now t e) renewal
