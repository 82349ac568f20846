-- ===== src/Timers/Queue.antt =====
-- timer_queue.hh and timer_queue.cc. The map of timers is a list by rising expiration; the timer
-- descriptor is the list of the times that `timerfd_settime` was given, the last one first. A call
-- of `clock::now()` is an argument.
pub mod Order
pub mod Arming
pub mod Expiry
pub mod Cancel
use m_server.Prelude.{ℕ, ◌+◌, List, [], ◌∷◌, Bool, true, false, ◌&&◌, ltb, ◌==◌, if◌then◌else◌}
use m_server.Prelude.Int.{ℤ, pos, negsuc}
use m_server.Timers.Clock.{millisecond, difference, parse_time_duration}
use m_server.Timers.Timer.{Timer, restart}

abbrev pub TimerMap : Type 0
TimerMap = List (ℕ × Timer)

-- What `reset_timerfd_time` hands to the kernel, and when: seconds and nanoseconds from then.
pub record Request : Type 0 where
  pub at : ℕ
  pub sec : ℤ
  pub nano_sec : ℤ

pub record TimerQueue : Type 0 where
  pub timers : TimerMap
  pub requests : List Request

pub new : TimerQueue
new = record { timers = []; requests = [] }

-- `timers_.insert`: behind the entries of the same key.
unfoldable pub multimap_insert : ℕ → Timer → TimerMap → TimerMap
multimap_insert k t [] = (k, t) ∷ []
multimap_insert k t ((j, u) ∷ m) =
    if ltb k j then (k, t) ∷ (j, u) ∷ m else (j, u) ∷ multimap_insert k t m

-- Whether the timer comes before the first one.
unfoldable pub is_first : ℕ → TimerMap → Bool
is_first k [] = true
is_first k ((j, u) ∷ m) = ltb k j

unfoldable pub insert : Timer → TimerQueue → Bool × TimerQueue
insert t q =
    (is_first t.expiration q.timers, record q { timers = multimap_insert t.expiration t q.timers })

-- The entries before `timers_.lower_bound(now)`, and the others.
unfoldable pub before : ℕ → TimerMap → List Timer
before now [] = []
before now ((k, t) ∷ m) = if ltb k now then t ∷ before now m else []

unfoldable pub from : ℕ → TimerMap → TimerMap
from now [] = []
from now ((k, t) ∷ m) = if ltb k now then from now m else (k, t) ∷ m

unfoldable pub pop_expired : ℕ → TimerQueue → List Timer × TimerQueue
unfolding before from
pop_expired now q = (before now q.timers, record q { timers = from now q.timers })

abbrev is_zero : ℤ → Bool
is_zero (pos n) = n == 0
is_zero (negsuc n) = false

-- `nano_sec < 1e6`.
abbrev below_millisecond : ℤ → Bool
below_millisecond (pos n) = ltb n millisecond
below_millisecond (negsuc n) = true

-- With `now` what `clock::now()` returns in it.
unfoldable pub reset_expieration_from_now : ℕ → ℕ → TimerQueue → TimerQueue
reset_expieration_from_now now expir q =
    let (sec, nano_sec) = parse_time_duration (difference expir now) in
    let round_nano_sec =
      if is_zero sec && below_millisecond nano_sec then pos millisecond else nano_sec in
    record q { requests = record { at = now; sec = sec; nano_sec = round_nano_sec } ∷ q.requests }

unfoldable pub add_timer_in_loop : ℕ → Timer → TimerQueue → TimerQueue
add_timer_in_loop now t q =
    let (is_the_first, q') = insert t q in
    if is_the_first then reset_expieration_from_now now t.expiration q' else q'

-- `equal_range(k)`, and in it the entry that holds this timer.
unfoldable pub multimap_erase : ℕ → ℕ → TimerMap → TimerMap
multimap_erase k sequence [] = []
multimap_erase k sequence ((j, u) ∷ m) =
    if j == k && u.sequence == sequence then m else (j, u) ∷ multimap_erase k sequence m

-- Of a timer that still exists, as it is then.
unfoldable pub cancel_timer_in_loop : Timer → TimerQueue → TimerQueue
cancel_timer_in_loop t q = record q { timers = multimap_erase t.expiration t.sequence q.timers }

unfoldable pub reset_timers : ℕ → List Timer → TimerQueue → TimerQueue
reset_timers now [] q = q
reset_timers now (t ∷ ts) q =
    reset_timers now ts (if t.reapeat then (insert (restart now t) q).1 else q)

-- What a timer's callback may do to the queue: `run_in_loop` runs at once in the loop's thread.
pub data Op : Type 0 where
  add : ℕ → Timer → Op
  cancel : Timer → Op

unfoldable pub perform : List Op → TimerQueue → TimerQueue
perform [] q = q
perform (add now t ∷ ops) q = perform ops (add_timer_in_loop now t q)
perform (cancel t ∷ ops) q = perform ops (cancel_timer_in_loop t q)

unfoldable pub run_all : (Timer → List Op) → List Timer → TimerQueue → TimerQueue
run_all effects [] q = q
run_all effects (t ∷ ts) q = run_all effects ts (perform (effects t) q)

-- The end of `handle_read`, with what its `clock::now()` returns.
unfoldable pub rearm : ℕ → TimerMap → TimerQueue → TimerQueue
rearm now [] q = q
rearm now ((k, t) ∷ m) q = reset_expieration_from_now now k q

-- `effects` is what each callback does; `now` and `later` are the two readings of the clock.
unfoldable pub handle_read : (Timer → List Op) → ℕ → ℕ → TimerQueue → TimerQueue
handle_read effects now later q =
    let (expired, q₁) = pop_expired now q in
    let q₂ = run_all effects expired q₁ in
    let q₃ = reset_timers now expired q₂ in rearm later q₃.timers q₃
