-- ===== src/Reactor/Opening.antt =====
-- src/net/source/event_loop.cc with poller_waker.cc, timer_queue.cc and sys_fd.hh: the descriptors that
-- the constructor of a loop opens.
use m_server.Prelude.{
  ℕ, ◌<◌, ◌≢◌, ◌≡◌, refl, ap, List, [], ◌∷◌, ◌++◌, Option, none, some, Result, ok, err, aborted,
  arith,
}
use m_server.Polling.Spoller
use m_server.Reactor.{Reactor, watch, new}
use m_server.Reactor.Start.{one, two, watch_first, watch_second}
use m_server.EventLoop
use m_server.Timers.Queue
use m_server.Polling.Handle
use m_server.Polling.Handle.{bind_handler, changed, is_none_event}
use m_server.SysFd.{Request, asks_eventfd, asks_timerfd_create, create_fd, create_timer_fd}

-- A descriptor of -1 fails the same `assert` of `poll_handle` as 0.
abbrev descriptor : Option ℕ → ℕ
descriptor none = 0
descriptor (some fd) = fd

-- The constructor, given what `eventfd` and `timerfd_create` answer, with the calls made: the waker
-- comes first.
pub construct : Option ℕ → Option ℕ → Result Reactor × List Request
construct event_answer timer_answer =
    let waker = create_fd event_answer in
    let timer = create_timer_fd timer_answer in
    let made = new (descriptor waker.0) (descriptor timer.0) in
    elim (watch (descriptor waker.0) Spoller.new) [
      | err e ↦ (made, waker.1)
      | ok s ↦ (made, waker.1 ++ timer.1)
    ]

watch_none : watch 0 Spoller.new ≡ err aborted
unfolding watch Spoller.new Spoller.register_polling Spoller.find Handle.new
watch_none = refl

watch_second_none : (a : ℕ) → 0 < a → watch 0 (one a) ≡ err aborted
unfolding watch Spoller.register_polling Spoller.find Handle.new
watch_second_none a h = ground arith

new_none : (timer : ℕ) → new 0 timer ≡ err aborted
unfolding new
new_none timer = rw watch_none refl

new_second_none : (waker : ℕ) → 0 < waker → new waker 0 ≡ err aborted
unfolding new
new_second_none waker h = rw (watch_first waker h) (rw (watch_second_none waker h) refl)

abbrev made_on : ℕ → ℕ → Reactor
made_on waker timer = record {
  loop = EventLoop.new;
  spoller = two waker timer;
  timers = Queue.new;
  waker_fd = waker;
  timer_fd = timer;
  made = 0;
  calls = [];
}

new_both :
    (waker timer : ℕ)
    → 0 < waker
    → 0 < timer
    → waker ≢ timer
    → new waker timer ≡ ok (made_on waker timer)
unfolding new
new_both waker timer hw ht d = rw (watch_first waker hw) (rw (watch_second waker timer ht d) refl)

-- An `eventfd` that fails makes the constructor fail its `assert`, with no call for the timers; so
-- does a `timerfd_create` that fails after it, of which the code only logs that it failed. Two
-- different descriptors above 0 make the loop.
pub construct_lem :
    (waker timer : ℕ) (answer : Option ℕ)
    → 0 < waker
    → 0 < timer
    → waker ≢ timer
    → (construct none answer ≡ (err aborted, asks_eventfd ∷ []))
      × (construct (some waker) none ≡ (err aborted, asks_eventfd ∷ asks_timerfd_create ∷ []))
      × ((r : Reactor) × (construct (some waker) (some timer)
            ≡ (ok r, asks_eventfd ∷ asks_timerfd_create ∷ []))
          × (r.waker_fd ≡ waker)
          × (r.timer_fd ≡ timer))
unfolding create_fd create_timer_fd construct
construct_lem waker timer answer hw ht d =
    let calls = asks_eventfd ∷ asks_timerfd_create ∷ [] in
    let first = watch_first waker hw in
    (
      rw (watch_none, construct) (ap (λ r. (r, asks_eventfd ∷ [])) (new_none (descriptor answer))),
      rw (first, construct) (ap (λ r. (r, calls)) (new_second_none waker hw)),
      (
        made_on waker timer,
        rw (first, construct) (ap (λ r. (r, calls)) (new_both waker timer hw ht d)),
        refl,
        refl,
      ),
    )
