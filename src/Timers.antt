-- ===== src/Timers.antt =====
-- src/base/include/clock.hh, src/base/source/clock.cc, src/net/include/timer.hh,
-- src/net/source/timer.cc, src/net/include/timer_queue.hh, src/net/source/timer_queue.cc and
-- src/base/source/sys_fd.cc: timers, and the timer descriptor that wakes the loop for the first.
pub mod Clock
pub mod Timer
pub mod Queue
pub mod Handles
