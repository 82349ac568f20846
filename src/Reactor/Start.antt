-- ===== src/Reactor/Start.antt =====
-- event_loop.cc: the constructor, and how a wakeup reaches the functors.
use m_server.Prelude.{ℕ, ◌<◌, ◌≡◌, ◌≢◌, refl, [], ◌∷◌, some, true, false, ok, arith}
use m_server.EventLoop
use m_server.Polling.Mask.{event_none, event_read}
use m_server.Polling.Handle.{Handle, bind_handler, changed, is_none_event}
use m_server.Polling.Handle
use m_server.Polling.Spoller.{Spoller, PollFd, find}
use m_server.Polling.Spoller
use m_server.Polling.Spoller.Aligned.{IsValid}
use m_server.Reactor.{Reactor, new, watch}
use m_server.Timers.Queue

abbrev pub reading : ℕ → ℕ → Handle
reading fd i = record {
  fd = fd;
  index = some i;
  events = event_read;
  revents = event_none;
  handling_event = false;
  read_callback = true;
  write_callback = true;
  err_callback = true;
  close_callback = true;
}

abbrev pub polled : ℕ → PollFd
polled fd = record { fd = some fd; events = event_read; revents = event_none }

abbrev pub one : ℕ → Spoller
one fd = record { pollfds = polled fd ∷ []; handles = reading fd 0 ∷ [] }

abbrev pub two : ℕ → ℕ → Spoller
two a b = record { pollfds = polled a ∷ polled b ∷ []; handles = reading a 0 ∷ reading b 1 ∷ [] }

pub watch_first : (fd : ℕ) → 0 < fd → watch fd Spoller.new ≡ ok (one fd)
unfolding watch Spoller.new Spoller.register_polling Spoller.change_events Spoller.modify
    Spoller.find bind_handler Handle.new changed is_none_event
watch_first fd h = ground arith

pub watch_second : (a b : ℕ) → 0 < b → a ≢ b → watch b (one a) ≡ ok (two a b)
unfolding watch Spoller.register_polling Spoller.change_events Spoller.modify Spoller.find
    bind_handler Handle.new changed is_none_event
watch_second a b h d = ground arith

two-IsValid : (a b : ℕ) → IsValid (two a b)
unfolding is_none_event
two-IsValid a b = ground arith

-- A loop made on two different descriptors above 0 starts with a valid table of the waker and the
-- timers, both watched for reading, and nothing to do.
pub new_lem :
    (waker_fd timer_fd : ℕ)
    → 0 < waker_fd
    → 0 < timer_fd
    → waker_fd ≢ timer_fd
    → (r : Reactor) × (new waker_fd timer_fd ≡ ok r)
      × IsValid r.spoller
      × (r.spoller.pollfds ≡ polled waker_fd ∷ polled timer_fd ∷ [])
      × (r.loop ≡ EventLoop.new)
unfolding new
new_lem w t hw ht d = (
  record {
    loop = EventLoop.new;
    spoller = two w t;
    timers = Queue.new;
    waker_fd = w;
    timer_fd = t;
    made = 0;
    calls = [];
  },
  rw (watch_first w hw, new) (rw (watch_second w t ht d) refl),
  two-IsValid w t,
  refl,
  refl,
)
