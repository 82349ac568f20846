-- ===== src/EventLoop/Threads/Wakeup.antt =====
-- event_loop.cc: the waker and the order of the functors, in every order of the steps of the threads.
use m_server.Prelude.{
  ◌≡◌, ◌≢◌, ◌<◌, ◌+◌, [], ◌∷◌, ◌++◌, append_assoc, append-nil, true, false, ◌⊎◌, arith,
}
use m_server.EventLoop.{new, wakeup_loop, waker_handle_read, quit_loop, push, queue_in_loop}
use m_server.EventLoop.Threads.{
  polling, handling, draining, System, init, Step, enter, enter_again, own_queues, own_quits, wake,
  read_waker, callback_queues, callback_quits, take, call, functor_queues, functor_quits, again,
  leave, other_pushes, other_quits, other_wakes, Reach, start, follow,
}

-- The waker's descriptor is readable, or a thread is about to write to it.
abbrev pub Woken : System → Type 0
Woken s = 0 < s.state.wakeups + s.writers

pub record Inv (s : System) : Type 0 where
  pub calling : s.phase ≡ draining → s.state.calling_pending_functor ≡ true
  pub resting : s.phase ≢ draining → (s.state.calling_pending_functor ≡ false) × (s.batch ≡ [])
  pub functors :
      s.phase ≢ handling → s.unannounced ≡ false → s.state.pending_functors ≢ [] → Woken s
  pub quits : s.phase ≡ polling → s.state.quit ≡ true → Woken s
  pub order : s.state.ran ++ (s.batch ++ s.state.pending_functors) ≡ s.queued

init-Inv : Inv init
unfolding init new
init-Inv = ground arith

Step-Inv : {s t : System} → Inv s → Step s t → Inv t
unfolding wakeup_loop waker_handle_read quit_loop push queue_in_loop
Step-Inv v (enter p) = ground arith
Step-Inv v (enter_again p) = ground arith
Step-Inv {s} v (own_queues fc o) = ground (
  arith,
  append_assoc s.state.ran (s.batch ++ s.state.pending_functors) (fc ∷ []),
  append_assoc s.batch s.state.pending_functors (fc ∷ []),
)
Step-Inv v (own_quits o) = ground arith
Step-Inv v (wake p) = ground arith
Step-Inv v (read_waker p) = ground arith
Step-Inv {s} v (callback_queues fc p) = ground (
  arith,
  append_assoc s.state.ran (s.batch ++ s.state.pending_functors) (fc ∷ []),
  append_assoc s.batch s.state.pending_functors (fc ∷ []),
)
Step-Inv v (callback_quits p) = ground arith
Step-Inv {s} v (take p) = ground (arith, append-nil s.state.pending_functors)
Step-Inv {s} v (call fc fcs p e) =
    ground (arith, append_assoc s.state.ran (fc ∷ []) (fcs ++ s.state.pending_functors))
Step-Inv {s} v (functor_queues fc p) = ground (
  arith,
  append_assoc s.state.ran (s.batch ++ s.state.pending_functors) (fc ∷ []),
  append_assoc s.batch s.state.pending_functors (fc ∷ []),
)
Step-Inv v (functor_quits p) = ground arith
Step-Inv v (again p e q) = ground arith
Step-Inv v (leave p e q) = ground arith
Step-Inv {s} v (other_pushes fc) = ground (
  arith,
  append_assoc s.state.ran (s.batch ++ s.state.pending_functors) (fc ∷ []),
  append_assoc s.batch s.state.pending_functors (fc ∷ []),
)
Step-Inv v other_quits = ground arith
Step-Inv v (other_wakes w) = ground arith

Reach-Inv : {s : System} → Reach s → Inv s
Reach-Inv start = init-Inv
Reach-Inv (follow r st) = Step-Inv (Reach-Inv r) st

-- In whatever order the threads take their steps, a loop that is in `poll` with functors pending, or
-- asked to quit since it began, is woken: its waker is readable, or a thread is about to write to it.
-- For functors this asks that the loop's own thread has queued none outside `loop()` since functors were
-- last taken, which wakes nothing.
pub poll-Woken :
    {s : System}
    → Reach s
    → s.phase ≡ polling
    → ((s.unannounced ≡ false) × (s.state.pending_functors ≢ [])) ⊎ (s.state.quit ≡ true)
    → 0 < s.state.wakeups + s.writers
poll-Woken r p w = ground (arith, (Reach-Inv r).functors, (Reach-Inv r).quits)

-- In whatever order the threads take their steps, the functors called so far, those taken and those
-- pending make up, in this order, the functors that were queued: none is lost, called twice or
-- called before one that was queued earlier.
pub Reach-order :
    {s : System} → Reach s → s.state.ran ++ (s.batch ++ s.state.pending_functors) ≡ s.queued
Reach-order r = (Reach-Inv r).order
