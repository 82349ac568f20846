-- ===== src/Reactor.antt =====
-- src/net/include/event_loop.hh, src/net/source/event_loop.cc, src/net/source/poller.cc and
-- src/net/source/poller_waker.cc: a loop with its poller, its waker and its timers. What the handlers
-- of the application do is an argument, `app`, and so is what the kernel answers.
pub mod Follows
pub mod Round
pub mod Start
pub mod Opening
pub mod Timing
use m_server.Prelude.{
  ℕ, ◌+◌, List, [], ◌∷◌, ◌++◌, Option, none, some, Bool, true, false, ◌==◌, if◌then◌else◌, Result,
  ok, err, ◌>>=◌, ◌>>◌, check,
}
use m_server.EventLoop.{Loop, Call, waker_handle_read, wakeup_loop, do_pending_functors}
use m_server.EventLoop
use m_server.Polling.Mask.{Mask}
use m_server.Polling.Handle.{
  Handle, Callback, read, bind_handler, handle_event, is_reading, Change, enable_reading,
}
use m_server.Polling.Spoller.{
  Spoller, PollReturn, find, modify, deref, register_polling, change_events, remove_handle, poll,
}
use m_server.Polling.Spoller
use m_server.Timers.Clock.{get_duration_from_ms}
use m_server.Timers.Timer.{Timer}
use m_server.Timers.Timer
use m_server.Timers.Queue.{TimerQueue, Op, add_timer_in_loop, cancel_timer_in_loop}
use m_server.Timers.Queue

-- `loop` holds the members of `event_loop` that are about functors; `waker_fd` and `timer_fd` are the
-- descriptors behind the waker and the timers. `made` counts the timers made, `calls` lists the calls
-- of the application's handlers, with the descriptor of each.
pub record Reactor : Type 0 where
  pub loop : Loop
  pub spoller : Spoller
  pub timers : TimerQueue
  pub waker_fd : ℕ
  pub timer_fd : ℕ
  pub made : ℕ
  pub calls : List (ℕ × Callback)

-- A handler that registers its descriptor, binds itself and enables reading, as `poller_waker` and
-- `timer_queue` do in their constructors.
pub watch : ℕ → Spoller → Result Spoller
watch fd s = do
  (h, s₁) ← register_polling fd s
  change_events enable_reading fd (record s₁ { handles = modify fd bind_handler s₁.handles })

-- The constructor, given the descriptors of `eventfd` and `timerfd_create`.
pub new : ℕ → ℕ → Result Reactor
unfolding watch
new waker_fd timer_fd = do
  s₁ ← watch waker_fd Spoller.new
  s₂ ← watch timer_fd s₁
  ok (record {
    loop = EventLoop.new;
    spoller = s₂;
    timers = Queue.new;
    waker_fd = waker_fd;
    timer_fd = timer_fd;
    made = 0;
    calls = [];
  })

-- `register_polling`, `update_poll_handle` through the event modifiers, and `remove_poll_handle`.
pub register_polling_handle : ℕ → Reactor → Result (Handle × Reactor)
register_polling_handle fd r = do
  (h, s) ← register_polling fd r.spoller
  ok (h, record r { spoller = s })

pub update_poll_handle : Change → ℕ → Reactor → Result Reactor
update_poll_handle c fd r = do s ← change_events c fd r.spoller; ok (record r { spoller = s })

pub remove_poll_handle : ℕ → Reactor → Result Reactor
remove_poll_handle fd r = do s ← remove_handle fd r.spoller; ok (record r { spoller = s })

-- `timer_queue::add_timer` in the loop's thread; `now` is what `clock::now()` returns in it.
pub add_timer : ℕ → ℕ → ℕ → ℕ → Reactor → Timer × Reactor
add_timer now cb at interval r =
    let t = Timer.new r.made cb at interval in
    (t, record r { made = r.made + 1; timers = add_timer_in_loop now t r.timers })

pub run_at : ℕ → ℕ → ℕ → Reactor → Timer × Reactor
unfolding add_timer
run_at now cb at r = add_timer now cb at (get_duration_from_ms 0) r

-- `when` is what the first `clock::now()` returns.
pub run_after : ℕ → ℕ → ℕ → ℕ → Reactor → Timer × Reactor
unfolding run_at
run_after when now cb delay_ms r = run_at now cb (when + get_duration_from_ms delay_ms) r

pub run_every : ℕ → ℕ → ℕ → ℕ → Reactor → Timer × Reactor
unfolding add_timer
run_every when now cb intervel_ms r =
    let interval = get_duration_from_ms intervel_ms in add_timer now cb (when + interval) interval r

pub cancel_timer : Timer → Reactor → Reactor
cancel_timer t r = record r { timers = cancel_timer_in_loop t r.timers }

-- What the round takes from outside: the readings of the clock in `timer_queue::handle_read`, what
-- the timers' callbacks and the functors do, and the application's handlers.
pub record Environment : Type 0 where
  pub now : ℕ
  pub later : ℕ
  pub timer_effects : Timer → List Op
  pub functor_effects : ℕ → List Call
  pub app : ℕ → Callback → Reactor → Result Reactor

-- The waker and the timers only read; their other handlers are the empty ones of `poll_handler`.
abbrev pub is_read : Callback → Bool
is_read read = true
is_read _ = false

module _ (env : Environment) where
  -- A callback of the handle of `fd`.
  pub call : ℕ → Callback → Reactor → Result Reactor
  call fd cb r =
      if fd == r.waker_fd
      then ok (if is_read cb then record r { loop = waker_handle_read r.loop } else r)
      else if fd == r.timer_fd
      then ok (
          if is_read cb
          then record r { timers = Queue.handle_read env.timer_effects env.now env.later r.timers }
          else r)
      else env.app fd cb (record r { calls = r.calls ++ (fd, cb) ∷ [] })

  pub call_each : ℕ → List Callback → Reactor → Result Reactor
  call_each fd [] r = ok r
  call_each fd (cb ∷ cbs) r = call fd cb r >>= call_each fd cbs

  -- `ch.handle_event(poll_time)`.
  pub dispatch : ℕ → Reactor → Result Reactor
  dispatch fd r = do h ← deref (find fd r.spoller.handles); call_each fd (handle_event h).0 r

  pub dispatch_all : List ℕ → Reactor → Result Reactor
  dispatch_all [] r = ok r
  dispatch_all (fd ∷ fds) r = dispatch fd r >>= dispatch_all fds

  -- One round of the `while` of `loop()`, where `functors` is what `do_pending_functors` does: real
  -- functors register and remove handles, and can fail.
  pub round_with : (Reactor → Result Reactor) → PollReturn → Reactor → Result Reactor
  round_with functors answer r = do
    (fds, s) ← poll answer r.spoller
    r' ← dispatch_all fds (record r { spoller = s })
    functors r'

  -- The functors only queue functors and ask to quit.
  abbrev pub queueing : Reactor → Result Reactor
  queueing r = ok (record r { loop = do_pending_functors env.functor_effects r.loop })

  pub round : PollReturn → Reactor → Result Reactor
  unfolding round_with
  round answer r = round_with queueing answer r
