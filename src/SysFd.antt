-- ===== src/SysFd.antt =====
-- src/base/include/sys_fd.hh and src/base/source/sys_fd.cc: the descriptors of the waker and of the
-- timers, and the system call that each function makes. What the kernel answers is an argument.
use m_server.Prelude.{ℕ, List, [], ◌∷◌, Option}
use m_server.Prelude.Int.{ℤ}

-- A system call with its arguments; a descriptor of -1 is `none`. Both descriptors are asked for not to
-- block, `eventfd` with a counter of 0 and `timerfd_create` for CLOCK_MONOTONIC; `read` is of 8 bytes,
-- whose number is dropped; `timerfd_settime` is of a time in seconds and nanoseconds, without an interval.
pub data Request : Type 0 where
  asks_eventfd asks_timerfd_create : Request
  asks_read : Option ℕ → Request
  asks_timerfd_settime : Option ℕ → ℤ → ℤ → Request

unfoldable pub create_fd : Option ℕ → Option ℕ × List Request
create_fd answer = (answer, asks_eventfd ∷ [])

unfoldable pub create_timer_fd : Option ℕ → Option ℕ × List Request
create_timer_fd answer = (answer, asks_timerfd_create ∷ [])

pub none_reaturn_read : Option ℕ → List Request
none_reaturn_read fd = asks_read fd ∷ []

-- `old_time` is what the kernel gives, as seconds and nanoseconds.
pub reset_timerfd_time : Option ℕ → ℤ → ℤ → ℤ × ℤ → (ℤ × ℤ) × List Request
reset_timerfd_time fd sec nano_sec old_time = (old_time, asks_timerfd_settime fd sec nano_sec ∷ [])
