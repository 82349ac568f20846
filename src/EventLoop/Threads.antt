-- ===== src/EventLoop/Threads.antt =====
-- event_loop.cc and poller_waker.cc with several threads: every order in which the loop's thread and
-- the others can take their steps. What a thread does under the lock, and each write, is one step.
pub mod Wakeup
use m_server.Prelude.{ℕ, suc, ◌≡◌, ◌<◌, ◌-◌, ◌+◌, List, [], ◌∷◌, ◌++◌, Bool, true, false}
use m_server.EventLoop.{Loop, new, wakeup_loop, waker_handle_read, quit_loop, push, queue_in_loop}

-- Where the loop's thread is: before the first `loop()`, in `poll`, calling the callbacks of handles, in
-- `do_pending_functors`, or past the `while`.
pub data Phase : Type 0 where
  starting polling handling draining stopped : Phase

-- `batch` holds the functors that `do_pending_functors` took and has still to call, `writers` counts
-- the other threads that have still to call `wakeup_loop`, and `queued` lists every functor that was
-- ever queued. `unannounced` says that the loop's own thread queued a functor outside `loop()`, which
-- writes to no waker, and that none were taken since.
pub record System : Type 0 where
  pub state : Loop
  pub phase : Phase
  pub batch : List ℕ
  pub writers : ℕ
  pub queued : List ℕ
  pub unannounced : Bool

unfoldable pub init : System
init = record {
  state = new;
  phase = starting;
  batch = [];
  writers = 0;
  queued = [];
  unannounced = false;
}

-- The thread is before `loop()`, or past it.
abbrev pub IsOutside : Phase → Type 0
IsOutside starting = Unit
IsOutside stopped = Unit
IsOutside _ = ⊥

-- One step of a thread. The loop's thread:
--   `enter`, `enter_again`: the first lines of `loop()`, the first time and later;
--   `own_queues`, `own_quits`: `queue_in_loop` and `quit`, called before `loop()` or after it;
--   `wake`: `poll` returns, because of the waker, another handle or its time limit;
--   `read_waker`: the callback of the waker's handle;
--   `callback_queues`, `callback_quits`: what a callback asks;
--   `take`: `do_pending_functors` up to the end of the lock;
--   `call`: the next functor of the batch is called;
--   `functor_queues`, `functor_quits`: what the functor asks;
--   `again`, `leave`: the end of `do_pending_functors` and the test of the `while`.
-- Another thread:
--   `other_pushes`, `other_quits`: `queue_in_loop` or `quit` up to the call of `wakeup_loop`;
--   `other_wakes`: that call.
pub data Step (s : System) : System → Type 0 where
  enter :
      s.phase ≡ starting
      → Step s
          (record s { phase = polling; state = record s.state { looping = true; quit = false } })
  enter_again :
      s.phase ≡ stopped
      → Step s
          (record s { phase = polling; state = record s.state { looping = true; quit = false } })
  own_queues :
      (fc : ℕ)
      → IsOutside s.phase
      → Step s (record s {
        state = queue_in_loop true fc s.state;
        queued = s.queued ++ fc ∷ [];
        unannounced = true;
      })
  own_quits : IsOutside s.phase → Step s (record s { state = quit_loop true s.state })
  wake : s.phase ≡ polling → Step s (record s { phase = handling })
  read_waker : s.phase ≡ handling → Step s (record s { state = waker_handle_read s.state })
  callback_queues :
      (fc : ℕ)
      → s.phase ≡ handling
      → Step s (record s { state = queue_in_loop true fc s.state; queued = s.queued ++ fc ∷ [] })
  callback_quits : s.phase ≡ handling → Step s (record s { state = quit_loop true s.state })
  take :
      s.phase ≡ handling
      → Step s (record s {
        phase = draining;
        batch = s.state.pending_functors;
        state = record s.state { calling_pending_functor = true; pending_functors = [] };
        unannounced = false;
      })
  call :
      (fc : ℕ) (fcs : List ℕ)
      → s.phase ≡ draining
      → s.batch ≡ fc ∷ fcs
      → Step s (record s { batch = fcs; state = record s.state { ran = s.state.ran ++ fc ∷ [] } })
  functor_queues :
      (fc : ℕ)
      → s.phase ≡ draining
      → Step s (record s { state = queue_in_loop true fc s.state; queued = s.queued ++ fc ∷ [] })
  functor_quits : s.phase ≡ draining → Step s (record s { state = quit_loop true s.state })
  again :
      s.phase ≡ draining
      → s.batch ≡ []
      → s.state.quit ≡ false
      → Step s
          (record s { phase = polling; state = record s.state { calling_pending_functor = false } })
  leave :
      s.phase ≡ draining
      → s.batch ≡ []
      → s.state.quit ≡ true
      → Step s (record s {
        phase = stopped;
        state = record s.state { calling_pending_functor = false; looping = false };
      })
  other_pushes :
      (fc : ℕ)
      → Step s (record s {
        state = push fc s.state;
        writers = suc s.writers;
        queued = s.queued ++ fc ∷ [];
      })
  other_quits :
      Step s (record s { state = record s.state { quit = true }; writers = suc s.writers })
  other_wakes :
      0 < s.writers → Step s (record s { state = wakeup_loop s.state; writers = s.writers - 1 })

pub data Reach : System → Type 0 where
  start : Reach init
  follow : {s t : System} → Reach s → Step s t → Reach t
