-- ===== src/Tests/Reactors.antt =====
-- Runs of the loop of src/net/source/event_loop.cc with its poller, its waker and its timers.
use m_server.Prelude.{Result, err, aborted, suc, ◌≡◌, List, [], ◌∷◌, ok, arith, false, true}
use m_server.EventLoop.{Call, queue}
use m_server.EventLoop
use m_server.Polling.Mask.{Mask, event_none, event_read}
use m_server.Polling.Spoller.{Spoller, PollReturn, answered}
use m_server.Timers.Timer.{Timer}
use m_server.Timers.Queue
use m_server.Reactor.{Reactor, Environment, run_after, run_every}
use m_server.Reactor.Timing.{Added, run_every_lem}
use m_server.Reactor.Start.{reading, polled}

abbrev environment : Environment
environment = record {
  now = 100;
  later = 101;
  timer_effects = λ t. [];
  functor_effects = λ n. queue (suc n) ∷ [];
  app = λ fd cb r. ok r;
}

-- The waker on 3, the timers on 4, and a handler of the application on 6.
abbrev table : Spoller
table = record {
  pollfds = polled 3 ∷ polled 4 ∷ polled 6 ∷ [];
  handles = reading 3 0 ∷ reading 4 1 ∷ reading 6 2 ∷ [];
}

abbrev reactor : Reactor
reactor = record {
  loop = record EventLoop.new { pending_functors = 7 ∷ 9 ∷ []; wakeups = 2 };
  spoller = table;
  timers = Queue.new;
  waker_fd = 3;
  timer_fd = 4;
  made = 0;
  calls = [];
}

abbrev answer : List Mask
answer = event_read ∷ event_none ∷ event_read ∷ []

-- A functor that fails.
abbrev failing : Reactor → Result Reactor
failing r = err aborted

abbrev woken : PollReturn
woken = answered (event_read ∷ event_none ∷ event_none ∷ [])

-- The handle of the waker has its event.
abbrev seen : Spoller
seen = record {
  pollfds = record (polled 3) { revents = event_read } ∷ polled 4 ∷ polled 6 ∷ [];
  handles = record (reading 3 0) { revents = event_read } ∷ reading 4 1 ∷ reading 6 2 ∷ [];
}

abbrev late : Timer
late = record { callback = 3; interval = 0; expiration = 9000000; reapeat = false; sequence = 1 }

-- A timer is set.
abbrev busy : Reactor
busy = record reactor { timers = record { timers = (9000000, late) ∷ []; requests = [] }; made = 1 }

-- 5 milliseconds, and every 5, set at 1000.
run_every_example :
    let (t, after) = run_after 1000 1200 8 5 busy in
    let (u, every) = run_every 1000 1200 8 5 busy in
    Added 1200 t busy.timers after.timers
    × (t.expiration ≡ 5001000)
    × (t.reapeat ≡ false)
    × Added 1200 u busy.timers every.timers
    × (u.expiration ≡ 5001000)
    × (u.interval ≡ 5000000)
    × (u.reapeat ≡ true)
run_every_example = run_every_lem 1000 1200 8 5 busy (ground arith) (ground arith) (omega arith)
