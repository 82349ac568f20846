-- ===== src/Tests/Loops.antt =====
-- Runs of the loop of src/net/source/event_loop.cc.
use m_server.Prelude.{
  ℕ, ◌≡◌, ◌+◌, ◌<◌, refl, List, [], ◌∷◌, ◌++◌, ◌==◌, if◌then◌else◌, suc, true, false, inr,
}
use m_server.EventLoop.{Loop, Call, queue, stop}
use m_server.EventLoop.Threads.{System, init, enter, other_quits, Reach, start, follow, polling}
use m_server.EventLoop.Threads.Wakeup.{poll-Woken, Reach-order}

-- Functor 1 leaves functor 2 with the loop, functor 2 stops it.
abbrev effects : ℕ → List Call
effects n = if n == 1 then queue 2 ∷ [] else if n == 2 then stop ∷ [] else []

abbrev ready : Loop
ready = record {
  looping = true;
  quit = false;
  calling_pending_functor = false;
  pending_functors = 1 ∷ 3 ∷ [];
  wakeups = 0;
  ran = [];
}

abbrev entered : System
entered = record init {
  phase = polling;
  state = record init.state { looping = true; quit = false };
}

-- Another thread has called `quit` and not yet written to the waker.
abbrev asked : System
asked = record entered {
  state = record entered.state { quit = true };
  writers = suc entered.writers;
}

asked-Reach : Reach asked
unfolding init
asked-Reach = follow (follow start (enter refl)) other_quits

poll-Woken_example : 0 < asked.state.wakeups + asked.writers
poll-Woken_example = poll-Woken asked-Reach refl (inr refl)

Reach-order_example :
    asked.state.ran ++ (asked.batch ++ asked.state.pending_functors) ≡ asked.queued
Reach-order_example = Reach-order asked-Reach
