-- ===== src/EventLoop.antt =====
-- src/net/include/event_loop.hh, src/net/source/event_loop.cc and src/net/source/poller_waker.cc:
-- the loop of one thread, and the functors that other threads and callbacks leave with it. A functor
-- or a callback is a number, and `effects` says what it asks of its own loop when it is called.
pub mod Pending
pub mod Threads
pub mod Confined
use m_server.Prelude.{
  ℕ, ◌+◌, List, [], ◌∷◌, ◌++◌, Bool, true, false, not, ◌||◌, if◌then◌else◌, Result, ok, check, ◌>>◌,
  ◌>>=◌,
}

-- `wakeups` is the counter of the waker's eventfd; `ran` lists the functors called so far.
pub record Loop : Type 0 where
  pub looping : Bool
  pub quit : Bool
  pub calling_pending_functor : Bool
  pub pending_functors : List ℕ
  pub wakeups : ℕ
  pub ran : List ℕ

-- The constructor.
unfoldable pub new : Loop
new = record {
  looping = false;
  quit = false;
  calling_pending_functor = false;
  pending_functors = [];
  wakeups = 0;
  ran = [];
}

-- `poller_waker::wakeup_loop` writes 1, which the kernel adds to the counter.
pub wakeup_loop : Loop → Loop
wakeup_loop s = record s { wakeups = s.wakeups + 1 }

-- `poller_waker::handle_read` reads the counter, which sets it to 0.
unfoldable pub waker_handle_read : Loop → Loop
waker_handle_read s = record s { wakeups = 0 }

-- `quit()`, from the loop's own thread or from another.
pub quit_loop : Bool → Loop → Loop
unfolding wakeup_loop
quit_loop in_loop_thread s =
    let s' = record s { quit = true } in if in_loop_thread then s' else wakeup_loop s'

-- The part of `queue_in_loop` under the lock.
pub push : ℕ → Loop → Loop
push fc s = record s { pending_functors = s.pending_functors ++ fc ∷ [] }

unfoldable pub queue_in_loop : Bool → ℕ → Loop → Loop
unfolding push wakeup_loop
queue_in_loop in_loop_thread fc s =
    let s' = push fc s in
    if not in_loop_thread || s'.calling_pending_functor then wakeup_loop s' else s'

-- What a functor may ask of the loop that calls it.
pub data Call : Type 0 where
  queue : ℕ → Call
  stop : Call

unfoldable pub perform : List Call → Loop → Loop
unfolding queue_in_loop quit_loop
perform [] s = s
perform (queue fc ∷ calls) s = perform calls (queue_in_loop true fc s)
perform (stop ∷ calls) s = perform calls (quit_loop true s)

module _ (effects : ℕ → List Call) where
  -- `fc()`.
  unfoldable pub call : ℕ → Loop → Loop
  call fc s = perform (effects fc) (record s { ran = s.ran ++ fc ∷ [] })

  unfoldable pub call_all : List ℕ → Loop → Loop
  call_all [] s = s
  call_all (fc ∷ fcs) s = call_all fcs (call fc s)

  pub run_in_loop : Bool → ℕ → Loop → Loop
  run_in_loop in_loop_thread fc s =
      if in_loop_thread then call fc s else queue_in_loop in_loop_thread fc s

  unfoldable pub do_pending_functors : Loop → Loop
  do_pending_functors s =
      let taken = record s { calling_pending_functor = true; pending_functors = [] } in
      record (call_all s.pending_functors taken) { calling_pending_functor = false }

  -- One round of the `while`, with the callbacks of the handles that `poll` returned.
  unfoldable pub iterate : List ℕ → Loop → Loop
  iterate callbacks s = do_pending_functors (call_all callbacks s)

  -- The `while`, for the rounds whose `poll` returns; a list that ends leaves the loop in `poll`.
  pub loop_from : List (List ℕ) → Loop → Loop
  loop_from [] s = s
  loop_from (callbacks ∷ rounds) s =
      let rest = loop_from rounds (iterate callbacks s) in if s.quit then s else rest

  pub loop : List (List ℕ) → Loop → Result Loop
  loop rounds s = do
    check (not s.looping)
    let t = loop_from rounds (record s { looping = true; quit = false })
    ok (record t { looping = not t.quit })
