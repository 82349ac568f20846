-- ===== src/EventLoop/Confined.antt =====
-- src/net/include/event_loop.hh and src/net/source/event_loop.cc: which thread calls a functor. Any
-- thread may call the loop's methods; the loop knows its own by the id.
pub mod Owner
pub mod Runs
use m_server.Prelude.{
  ℕ, zero, suc, ◌+◌, ◌≡◌, ◌≢◌, refl, ap, sym, ◌∙◌, ◌≤◌, ◌<◌, ◌==◌, ==_iff, List, [], ◌∷◌, ◌++◌, map,
  append_assoc, append-nil, Option, none, some, inl, inr, ◌⊎◌, if◌then◌else◌, Bool, true, false,
  not, Bool-cases, Option-cases, length, drop, drop-append_left, All, Result, Result-cases, ok, err,
  aborted, check, ◌>>=◌, ◌>>◌, Ensures, Ensures-ok, arith,
}
use m_server.CurrentThread.{Cache, KernelLaws, IsCache, tid, tid_lem, tid-IsCache}
use m_server.EventLoop.{Loop, Call, new, call, queue_in_loop, quit_loop, iterate}
use m_server.EventLoop
use m_server.EventLoop.Pending.{call-ran, iterate-ran}

-- `looper` is the thread that is in `loop()`, and `called` lists the functors called, each with the
-- thread that called it.
pub record Shared : Type 0 where
  pub thread_id : ℕ
  pub cache : Cache
  pub state : Loop
  pub looper : Option ℕ
  pub called : List (ℕ × ℕ)

-- What a thread does: it calls `run_in_loop`, `queue_in_loop`, `quit` or `loop`; the thread that
-- is in `loop()` tests its `while`, and goes round with the callbacks of the handles that `poll`
-- returned.
pub data Event : Type 0 where
  runs queues : ℕ → ℕ → Event
  quits begins : ℕ → Event
  turns : List ℕ → Event

module _ (gettid : ℕ → ℕ) where
  -- The constructor, called in thread `t`.
  unfoldable pub construct : ℕ → Cache → Shared
  construct t cache =
      let r = tid gettid t cache in
      record { thread_id = r.0; cache = r.1; state = new; looper = none; called = [] }

  pub is_in_loop_thread : ℕ → Shared → Bool × Shared
  is_in_loop_thread t w =
      let r = tid gettid t w.cache in (w.thread_id == r.0, record w { cache = r.1 })

  pub assert_in_loop_thread : ℕ → Shared → Result Shared
  unfolding is_in_loop_thread
  assert_in_loop_thread t w = let r = is_in_loop_thread t w in do check r.0; ok r.1

  pub queue : ℕ → ℕ → Shared → Shared
  unfolding is_in_loop_thread
  queue t fc w =
      let r = is_in_loop_thread t w in record (r.1) { state = queue_in_loop r.0 fc w.state }

  pub quit : ℕ → Shared → Shared
  unfolding is_in_loop_thread
  quit t w = let r = is_in_loop_thread t w in record (r.1) { state = quit_loop r.0 w.state }

  -- Thread `t` brought the loop to this state.
  abbrev noted : ℕ → Loop → Shared → Shared
  noted t s w = record w {
    state = s;
    called = w.called ++ map (λ fc. (t, fc)) (drop (length w.state.ran) s.ran);
  }

  module _ (effects : ℕ → List Call) where
    pub run_in_loop : ℕ → ℕ → Shared → Shared
    unfolding is_in_loop_thread queue
    run_in_loop t fc w =
        let r = is_in_loop_thread t w in
        if r.0 then noted t (call effects fc w.state) r.1 else queue t fc r.1

    -- `loop()` up to its `while`.
    unfoldable pub begin : ℕ → Shared → Result Shared
    unfolding assert_in_loop_thread
    begin t w = do
      check (not w.state.looping)
      w' ← assert_in_loop_thread t w
      ok (record w' { state = record w.state { looping = true; quit = false }; looper = some t })

    pub turn : List ℕ → Shared → Shared
    turn callbacks w = elim w.looper [
      | none ↦ w
      | some t ↦
          if w.state.quit
          then record w { state = record w.state { looping = false }; looper = none }
          else noted t (iterate effects callbacks w.state) w
    ]

    pub step : Event → Shared → Result Shared
    unfolding run_in_loop queue quit begin turn
    step (runs t fc) w = ok (run_in_loop t fc w)
    step (queues t fc) w = ok (queue t fc w)
    step (quits t) w = ok (quit t w)
    step (begins t) w = begin t w
    step (turns callbacks) w = ok (turn callbacks w)

    unfoldable pub run : List Event → Shared → Result Shared
    unfolding step
    run [] w = ok w
    run (e ∷ es) w = step e w >>= run es
