-- ===== src/EventLoop/Confined/Owner.antt =====
-- event_loop.hh and event_loop.cc: what the loop knows of the thread that made it.
use m_server.Prelude.{
  ℕ, ◌≡◌, ap, ap₂, sym, ◌∙◌, ◌<◌, ◌==◌, List, ◌++◌, map, map-append, none, some, ◌⊎◌, Bool, length,
  drop, drop-append_left, arith,
}
use m_server.CurrentThread.{KernelLaws, IsCache, tid_lem, tid-IsCache}
use m_server.EventLoop.{Loop, Call, new, call, queue_in_loop, quit_loop, iterate, wakeup_loop}
use m_server.EventLoop
use m_server.EventLoop.Confined.{
  Shared, Event, runs, queues, quits, begins, turns, is_in_loop_thread, queue, quit, noted,
}

-- The threads of an event are among these.
abbrev pub Among : ℕ → Event → Type 0
Among threads (runs t fc) = t < threads
Among threads (queues t fc) = t < threads
Among threads (quits t) = t < threads
Among threads (begins t) = t < threads
Among threads (turns callbacks) = Unit

-- A state of a loop that thread `o` made.
pub record IsConfined (threads : ℕ) (gettid : ℕ → ℕ) (o : ℕ) (w : Shared) : Type 0 where
  pub among : o < threads
  pub own : w.thread_id ≡ gettid o
  pub cached : IsCache threads gettid w.cache
  pub looping : (w.looper ≡ none) ⊎ (w.looper ≡ some o)
  pub all_called : w.called ≡ map (λ fc. (o, fc)) w.state.ran

module _ (gettid : ℕ → ℕ) {threads : ℕ} (laws : KernelLaws threads gettid) (o : ℕ) where
  -- The loop tells its own thread from all others.
  pub is_in_loop_thread_lem :
      (t : ℕ) (w : Shared)
      → t < threads
      → IsConfined threads gettid o w
      → ((is_in_loop_thread gettid t w).0 ≡ (o == t))
        × IsConfined threads gettid o (is_in_loop_thread gettid t w).1
  unfolding is_in_loop_thread
  is_in_loop_thread_lem t w lt h = (
    ground (arith, h.own, tid_lem gettid laws t w.cache lt h.cached, laws.injective o t h.among lt),
    record {
      among = h.among;
      own = h.own;
      cached = tid-IsCache gettid laws t w.cache lt h.cached;
      looping = h.looping;
      all_called = h.all_called;
    },
  )

  pub noted-IsConfined :
      (xs : List ℕ) (s : Loop) (w : Shared)
      → s.ran ≡ w.state.ran ++ xs
      → IsConfined threads gettid o w
      → IsConfined threads gettid o (noted gettid o s w)
  noted-IsConfined xs s w e h = record {
    among = h.among;
    own = h.own;
    cached = h.cached;
    looping = h.looping;
    all_called =
        ap₂ (λ called ran. called ++ map (λ fc. (o, fc)) (drop (length w.state.ran) ran))
          h.all_called e
        ∙ ap (λ l. map (λ fc. (o, fc)) w.state.ran ++ map (λ fc. (o, fc)) l)
            (drop-append_left w.state.ran xs)
        ∙ sym (map-append (λ fc. (o, fc)) w.state.ran xs)
        ∙ ap (map (λ fc. (o, fc))) (sym e);
  }

  -- Nothing is called.
  pub same-IsConfined :
      (s : Loop) (w : Shared)
      → s.ran ≡ w.state.ran
      → IsConfined threads gettid o w
      → IsConfined threads gettid o (record w { state = s })
  same-IsConfined s w e h = record {
    among = h.among;
    own = h.own;
    cached = h.cached;
    looping = h.looping;
    all_called = h.all_called ∙ ap (map (λ fc. (o, fc))) (sym e);
  }

  queue_in_loop-ran : (i : Bool) (fc : ℕ) (s : Loop) → (queue_in_loop i fc s).ran ≡ s.ran
  unfolding queue_in_loop EventLoop.push wakeup_loop
  queue_in_loop-ran i fc s = ground arith

  quit_loop-ran : (i : Bool) (s : Loop) → (quit_loop i s).ran ≡ s.ran
  unfolding quit_loop wakeup_loop
  quit_loop-ran i s = ground arith

  pub queue-IsConfined :
      (t fc : ℕ) (w : Shared)
      → t < threads
      → IsConfined threads gettid o w
      → IsConfined threads gettid o (queue gettid t fc w)
  unfolding queue
  queue-IsConfined t fc w lt h =
      let r = is_in_loop_thread gettid t w in
      same-IsConfined (queue_in_loop r.0 fc w.state) r.1 (queue_in_loop-ran r.0 fc w.state)
        (is_in_loop_thread_lem t w lt h).1

  pub quit-IsConfined :
      (t : ℕ) (w : Shared)
      → t < threads
      → IsConfined threads gettid o w
      → IsConfined threads gettid o (quit gettid t w)
  unfolding quit
  quit-IsConfined t w lt h =
      let r = is_in_loop_thread gettid t w in
      same-IsConfined (quit_loop r.0 w.state) r.1 (quit_loop-ran r.0 w.state)
        (is_in_loop_thread_lem t w lt h).1
