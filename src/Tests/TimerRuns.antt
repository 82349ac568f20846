-- ===== src/Tests/TimerRuns.antt =====
-- Runs of src/net/source/timer_queue.cc.
use mathlib.Core.List.{Perm}
use m_server.Prelude.{◌≡◌, refl, List, [], ◌∷◌, ◌++◌, true, false, arith, map, ok, err, undefined}
use m_server.Timers.Timer.{Timer, restart}
use m_server.Timers.Queue.{
  TimerQueue, Op, cancel, add_timer_in_loop, insert, pop_expired, run_all, rearm, reset_timers,
  perform, multimap_insert, multimap_erase, cancel_timer_in_loop, reset_expieration_from_now,
  handle_read,
}
use m_server.Timers.Queue.Order.{IsValid, keyed}
use m_server.Timers.Queue.Arming.{Armed, handle_read-Armed}
use m_server.Timers.Queue.Expiry.{renewed, expired_by, still_to_come, handle_read-perm}
use m_server.Timers.Handles.{Without, cancel_timer, cancel_timer-add}
use m_server.Timers.Handles.Fired.{cancel_timer-fired}

-- Every 100 nanoseconds.
abbrev tick : Timer
tick = record { callback = 1; interval = 100; expiration = 50; reapeat = true; sequence = 1 }

abbrev once : Timer
once = record { callback = 2; interval = 0; expiration = 60; reapeat = false; sequence = 2 }

abbrev late : Timer
late = record { callback = 3; interval = 0; expiration = 5000; reapeat = false; sequence = 3 }

abbrev queue : TimerQueue
queue = record { timers = (50, tick) ∷ (60, once) ∷ (5000, late) ∷ []; requests = [] }

queue-IsValid : IsValid queue
queue-IsValid = ground arith

-- Each callback cancels its own timer.
abbrev cancels : Timer → List Op
cancels t = cancel t ∷ []

handle_read-perm_example :
    let expired = expired_by 1000 queue.timers in
    let rest = record queue { timers = still_to_come 1000 queue.timers } in
    Perm
      (handle_read cancels 1000 1001 queue).timers
      (map keyed (renewed 1000 expired) ++ (run_all cancels expired rest).timers)
    × IsValid (handle_read cancels 1000 1001 queue)
handle_read-perm_example = handle_read-perm cancels 1000 1001 queue queue-IsValid

handle_read-Armed_example : Armed 1001001 (handle_read cancels 1000 1001 queue)
unfolding handle_read pop_expired rearm reset_timers run_all perform insert multimap_insert
    cancel_timer_in_loop multimap_erase reset_expieration_from_now restart
handle_read-Armed_example =
    handle_read-Armed cancels 1000 1001 1100 (record tick { expiration = 1100 }) ((5000, late) ∷ [])
      queue refl (omega arith) (omega arith)

-- A timer with a number of its own.
abbrev extra : Timer
extra = record { callback = 4; interval = 0; expiration = 70; reapeat = false; sequence = 4 }

extra-Without : Without 4 queue.timers
extra-Without = ground arith

cancel_timer-add_example :
    (d : TimerQueue) × (cancel_timer 4 (add_timer_in_loop 10 extra queue) ≡ ok d)
    × (d.timers ≡ queue.timers)
    × (cancel_timer 4 d ≡ err undefined)
cancel_timer-add_example = cancel_timer-add extra 10 queue extra-Without

cancel_timer-fired_example :
    cancel_timer 4 (handle_read cancels 1000 1001 (add_timer_in_loop 10 extra queue))
    ≡ err undefined
cancel_timer-fired_example =
    cancel_timer-fired extra refl 1000 (omega arith) cancels 10 1001 queue extra-Without (λ u. tt)
