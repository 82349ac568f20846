-- ===== src/Reactor/Timing.antt =====
-- event_loop.cc: the timers that the functions of the loop make.
use mathlib.Core.List.{Perm}
use m_server.Prelude.{ℕ, ◌+◌, ◌*◌, ◌<◌, ◌≡◌, refl, sym, ◌∷◌, All, false, ltb, max, subst, arith}
use m_server.Timers.Clock.{second, millisecond, get_duration_from_ms}
use m_server.Timers.Timer.{Timer}
use m_server.Timers.Timer
use m_server.Timers.Queue.{TimerQueue, insert, add_timer_in_loop, reset_expieration_from_now}
use m_server.Timers.Queue.Order.{Sorted, IsValid, keyed, insert_lem}
use m_server.Timers.Queue.Arming.{Armed, add_timer-Armed}
use m_server.Reactor.{Reactor, add_timer, run_at, run_after, run_every}

timers-add_timer :
    (now : ℕ) (t : Timer) (q : TimerQueue)
    → (add_timer_in_loop now t q).timers ≡ (insert t q).1.timers
unfolding add_timer_in_loop reset_expieration_from_now
timers-add_timer now t q = ground arith

-- The map of `q'` is that of `q` and this timer, in order, and the descriptor is set for it, or for a
-- millisecond after `now` where that is later.
pub record Added (now : ℕ) (t : Timer) (q q' : TimerQueue) : Type 0 where
  pub timers : Perm q'.timers (keyed t ∷ q.timers)
  pub valid : IsValid q'
  pub armed : Armed (max t.expiration (now + millisecond)) q'

add_timer-Added :
    (now : ℕ) (t : Timer) (q : TimerQueue)
    → IsValid q
    → All (λ e. t.expiration < e.0) q.timers
    → now < t.expiration + second
    → Added now t q (add_timer_in_loop now t q)
add_timer-Added now t q v first soon =
    let (valid, perm, report) = insert_lem t q v in
    let same = timers-add_timer now t q in
    record {
      timers = subst (λ m. Perm m (keyed t ∷ q.timers)) (sym same) perm;
      valid = subst (Sorted 0) (sym same) valid;
      armed = add_timer-Armed now t q v first soon;
    }

-- On a loop with an ordered map of timers that all expire later, `run_after` and `run_every`, called
-- at `when` for a time that is less than a second past when the timer is added, add the timer that
-- they return to the map and no other, keep its order, and set the descriptor for it, or for a
-- millisecond after `now` where that is later. The timer expires the given number of milliseconds
-- after `when`; that of `run_every` repeats after as many, unless it is 0, and that of `run_after`
-- does not repeat.
pub run_every_lem :
    (when now cb ms : ℕ) (r : Reactor)
    → IsValid r.timers
    → All (λ e. when + ms * millisecond < e.0) r.timers.timers
    → now < when + ms * millisecond + second
    → let (t, after) = run_after when now cb ms r in
      let (u, every) = run_every when now cb ms r in
      Added now t r.timers after.timers
      × (t.expiration ≡ when + ms * millisecond)
      × (t.reapeat ≡ false)
      × Added now u r.timers every.timers
      × (u.expiration ≡ when + ms * millisecond)
      × (u.interval ≡ ms * millisecond)
      × (u.reapeat ≡ ltb 0 ms)
unfolding run_after run_every run_at add_timer Timer.new get_duration_from_ms
run_every_lem when now cb ms r v first soon =
    let at = when + ms * millisecond in
    (
      add_timer-Added now (Timer.new r.made cb at 0) r.timers v first soon,
      refl,
      refl,
      add_timer-Added now (Timer.new r.made cb at (ms * millisecond)) r.timers v first soon,
      refl,
      refl,
      ground arith,
    )
