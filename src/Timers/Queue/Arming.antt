-- ===== src/Timers/Queue/Arming.antt =====
-- timer_queue.cc, `reset_expieration_from_now`: when the timer descriptor fires.
use native.Mathlib.Decide.{dec_lt}
use m_server.Prelude.{
  ℕ, ◌+◌, ◌-◌, ◌*◌, ◌^◌, ◌≤◌, ◌<◌, ◌≡◌, refl, ap, sym, ◌∙◌, All, List, [], ◌∷◌, arith, max, ◌&&◌,
  if◌then◌else◌,
}
use m_server.Prelude.Int.{ℤ, pos, negsuc, neg}
use m_server.Timers.Clock.{second, millisecond, difference, parse_time_duration}
use m_server.Timers.Clock.Parse.{parse-parts, parse-difference_late}
use m_server.Timers.Timer.{Timer}
use m_server.Timers.Queue.Order.{IsValid, insert_lem}
use m_server.Timers.Queue.{
  TimerMap, TimerQueue, Request, insert, add_timer_in_loop, reset_expieration_from_now, rearm,
  handle_read, Op, pop_expired, run_all, reset_timers, is_zero, below_millisecond,
}

-- timerfd_settime(2) takes a time that is not negative, with nanoseconds below a second; it fires
-- then, and a time of zero would disarm the timer.
abbrev pub FiresAt : ℕ → Request → Type 0
FiresAt n r =
    (s m : ℕ) × (r.sec ≡ pos s)
    × (r.nano_sec ≡ pos m)
    × (m < second)
    × (0 < s * second + m)
    × (r.at + s * second + m ≡ n)

-- The last request of a queue.
abbrev pub Armed : ℕ → TimerQueue → Type 0
Armed n q = (r : Request) × (rs : List Request) × (q.requests ≡ r ∷ rs) × FiresAt n r

-- The request that is made of the two parts.
abbrev request : ℕ → ℤ × ℤ → Request
request now (sec, nano_sec) = record {
  at = now;
  sec = sec;
  nano_sec = if is_zero sec && below_millisecond nano_sec then pos millisecond else nano_sec;
}

requests-reset :
    (now expir : ℕ) (q : TimerQueue) (parts : ℤ × ℤ)
    → parse_time_duration (difference expir now) ≡ parts
    → (reset_expieration_from_now now expir q).requests ≡ request now parts ∷ q.requests
unfolding reset_expieration_from_now
requests-reset now expir q (sec, nano_sec) e = ap (λ parts. request now parts ∷ q.requests) e

-- The two parts of a time that is not negative.
request-FiresAt :
    (now s n t : ℕ)
    → n < second
    → now + s * second + n ≡ t
    → FiresAt (max t (now + millisecond)) (request now (pos s, pos n))
request-FiresAt now s n t lt e = elim (dec_lt (s * second + n) millisecond) [
  | yes soon ↦ (s, millisecond, refl, ground arith, omega arith, omega arith, omega arith)
  | no far ↦ (s, n, refl, ground arith, lt, omega arith, omega arith)
]

-- The two parts of a time that is less than a second past.
past-FiresAt :
    (now s n t : ℕ)
    → n < second
    → t + s * second + n ≡ now
    → 0 < n
    → now < t + second
    → FiresAt (max t (now + millisecond)) (request now (neg s, neg n))
past-FiresAt now s n t lt e p h =
    let none : s ≡ 0 = omega arith in
    rw none (0, millisecond, refl, ground arith, omega arith, omega arith, omega arith)

-- For an expiration that is less than a second past, the descriptor is set to fire at the
-- expiration, but a millisecond from now at the earliest.
pub reset-Armed :
    (now expir : ℕ) (q : TimerQueue)
    → now < expir + second
    → Armed (max expir (now + millisecond)) (reset_expieration_from_now now expir q)
reset-Armed now expir q h = elim (dec_lt expir now) [
  | no ahead ↦
      let (s, n, e, total, lt) = parse-parts expir now (omega arith) in
      (_, q.requests, requests-reset now expir q _ e, request-FiresAt now s n expir lt total)
  | yes past ↦
      let (s, n, e, total, lt) = parse-difference_late expir now past in
      (
        _,
        q.requests,
        requests-reset now expir q _ e,
        past-FiresAt now s n expir lt total (omega arith) h,
      )
]

-- An expiration that is a second past or more is asked of the descriptor as a negative number of
-- seconds.
pub reset-negative :
    (now expir : ℕ) (q : TimerQueue)
    → expir + second ≤ now
    → (r : Request) × ((reset_expieration_from_now now expir q).requests ≡ r ∷ q.requests)
      × ((s : ℕ) × (r.sec ≡ negsuc s))
reset-negative now expir q h =
    let (s, n, e, total, lt) = parse-difference_late expir now (omega arith) in
    (_, requests-reset now expir q _ e, (s - 1, ground arith))

timers-rearm : (now : ℕ) (m : TimerMap) (q : TimerQueue) → (rearm now m q).timers ≡ q.timers
unfolding rearm reset_expieration_from_now
timers-rearm now [] q = refl
timers-rearm now ((k, t) ∷ m) q = refl

rearm-Armed :
    (now k : ℕ) (t : Timer) (m : TimerMap) (q : TimerQueue) (n : TimerMap)
    → n ≡ (k, t) ∷ m
    → now < k + second
    → Armed (max k (now + millisecond)) (rearm now n q)
unfolding rearm
rearm-Armed now k t m q [] e h = cc
rearm-Armed now k t m q ((j, u) ∷ n) e h =
    let same : j ≡ k = ground arith in rw same (reset-Armed now k q h)

-- When `handle_read` ends with timers in the map, and the first is less than a second late and expires
-- less than 2^53 nanoseconds (104 days) after the last reading of the clock, the descriptor is set for
-- the first, or for a millisecond after that reading where that is later.
pub handle_read-Armed :
    (effects : Timer → List Op) (now later k : ℕ) (t : Timer) (m : TimerMap) (q : TimerQueue)
    → (handle_read effects now later q).timers ≡ (k, t) ∷ m
    → later < k + second
    → k < later + 2 ^ 53
    → Armed (max k (later + millisecond)) (handle_read effects now later q)
unfolding handle_read
handle_read-Armed effects now later k t m q e h near =
    let (expired, rest) = pop_expired now q in
    let done = reset_timers now expired (run_all effects expired rest) in
    rearm-Armed later k t m done done.timers (sym (timers-rearm later done.timers done) ∙ e) h

-- Adding to an ordered map a timer that expires before all others, and is less than a second late,
-- sets the descriptor for it, or for a millisecond from now where that is later.
pub add_timer-Armed :
    (now : ℕ) (t : Timer) (q : TimerQueue)
    → IsValid q
    → All (λ e. t.expiration < e.0) q.timers
    → now < t.expiration + second
    → Armed (max t.expiration (now + millisecond)) (add_timer_in_loop now t q)
unfolding add_timer_in_loop
add_timer-Armed now t q v first h =
    let (v', p, report) = insert_lem t q v in
    rw (report.1 first) (reset-Armed now t.expiration (insert t q).1 h)
