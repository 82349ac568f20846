-- ===== src/EventLoop/Confined/Runs.antt =====
-- event_loop.hh and event_loop.cc: runs of calls of any threads.
use m_server.Prelude.{
  ℕ, ◌≡◌, ◌≢◌, refl, ap, sym, subst, ◌∙◌, ◌<◌, ◌==◌, ==_iff, List, [], ◌∷◌, ◌++◌, map, Option, none,
  some, inl, inr, ◌⊎◌, if◌then◌else◌, Bool, true, false, Bool-cases, All, Result-cases, ok, err,
  aborted, Ensures, Ensures-ok, arith,
}
use m_server.CurrentThread.{Cache, KernelLaws, IsCache, tid_lem, tid-IsCache}
use m_server.EventLoop.{Loop, Call, new, call, queue_in_loop, quit_loop, iterate, wakeup_loop}
use m_server.EventLoop
use m_server.EventLoop.Pending.{call-ran, iterate-ran}
use m_server.EventLoop.Confined.{
  Shared, Event, runs, queues, quits, begins, turns, construct, is_in_loop_thread,
  assert_in_loop_thread, noted, run_in_loop, begin, turn, step, run,
}
use m_server.EventLoop.Confined.Owner.{
  Among, IsConfined, is_in_loop_thread_lem, noted-IsConfined, same-IsConfined, queue-IsConfined,
  quit-IsConfined,
}

module _ (gettid : ℕ → ℕ) {threads : ℕ} (laws : KernelLaws threads gettid) (o : ℕ) where
  module _ (effects : ℕ → List Call) where
    run_in_loop-IsConfined :
        (t fc : ℕ) (w : Shared)
        → t < threads
        → IsConfined threads gettid o w
        → IsConfined threads gettid o (run_in_loop gettid effects t fc w)
    unfolding run_in_loop
    run_in_loop-IsConfined t fc w lt h =
        let r = is_in_loop_thread gettid t w in
        let (own, h') = is_in_loop_thread_lem gettid laws o t w lt h in
        elim (Bool-cases (o == t)) [
          | inl e ↦ rw (own ∙ e) (
              subst
                (λ u. IsConfined threads gettid o (noted gettid u (call effects fc w.state) r.1))
                ((==_iff o t).0 e)
                (noted-IsConfined gettid laws o (fc ∷ []) (call effects fc w.state) r.1
                  (call-ran effects fc w.state) h'))
          | inr e ↦ rw (own ∙ e) (queue-IsConfined gettid laws o t fc r.1 lt h')
        ]

    begin-IsConfined :
        (t : ℕ) (w : Shared)
        → t < threads
        → IsConfined threads gettid o w
        → Ensures (IsConfined threads gettid o) (begin gettid effects t w)
    unfolding begin assert_in_loop_thread
    begin-IsConfined t w lt h =
        let r = is_in_loop_thread gettid t w in
        let (own, h') = is_in_loop_thread_lem gettid laws o t w lt h in
        elim (Bool-cases w.state.looping) [
          | inl l ↦ rw l tt
          | inr l ↦ elim (Bool-cases (o == t)) [
            | inl e ↦ rw l (
                rw (own ∙ e) (record {
                  among = h'.among;
                  own = h'.own;
                  cached = h'.cached;
                  looping = inr (ap some (sym ((==_iff o t).0 e)));
                  all_called = h'.all_called;
                }))
            | inr e ↦ rw l (rw (own ∙ e) tt)
          ]
        ]

    if-IsConfined :
        (b : Bool) {v w : Shared}
        → IsConfined threads gettid o v
        → IsConfined threads gettid o w
        → IsConfined threads gettid o (if b then v else w)
    if-IsConfined true h k = h
    if-IsConfined false h k = k

    looper-IsConfined :
        (looper : Option ℕ) (w : Shared)
        → (looper ≡ none) ⊎ (looper ≡ some o)
        → IsConfined threads gettid o w
        → IsConfined threads gettid o (record w { looper = looper })
    looper-IsConfined looper w l h = record {
      among = h.among;
      own = h.own;
      cached = h.cached;
      looping = l;
      all_called = h.all_called;
    }

    turn-IsConfined :
        (callbacks : List ℕ) (w : Shared)
        → IsConfined threads gettid o w
        → IsConfined threads gettid o (turn gettid effects callbacks w)
    unfolding turn
    turn-IsConfined callbacks w h = elim h.looping [
      | inl e ↦ rw e (looper-IsConfined none w (inl refl) h)
      | inr e ↦
          let v = record w { looper = some o } in
          let k = looper-IsConfined (some o) w (inr refl) h in
          let quits = record w.state { looping = false } in
          let s = iterate effects callbacks w.state in
          rw e (
            if-IsConfined w.state.quit
              (same-IsConfined gettid laws o quits (record w { looper = none }) refl
                (looper-IsConfined none w (inl refl) h))
              (noted-IsConfined gettid laws o
                (callbacks ++ (EventLoop.call_all effects callbacks w.state).pending_functors) s v
                (iterate-ran effects callbacks w.state) k))
    ]

    step-IsConfined :
        (e : Event) (w : Shared)
        → Among threads e
        → IsConfined threads gettid o w
        → Ensures (IsConfined threads gettid o) (step gettid effects e w)
    unfolding step
    step-IsConfined (runs t fc) w lt h = run_in_loop-IsConfined t fc w lt h
    step-IsConfined (queues t fc) w lt h = queue-IsConfined gettid laws o t fc w lt h
    step-IsConfined (quits t) w lt h = quit-IsConfined gettid laws o t w lt h
    step-IsConfined (begins t) w lt h = begin-IsConfined t w lt h
    step-IsConfined (turns callbacks) w lt h = turn-IsConfined callbacks w h

    run-IsConfined :
        (es : List Event) (w : Shared)
        → All (Among threads) es
        → IsConfined threads gettid o w
        → Ensures (IsConfined threads gettid o) (run gettid effects es w)
    unfolding run
    run-IsConfined [] w a h = h
    run-IsConfined (e ∷ es) w a h = elim (Result-cases (step gettid effects e w)) [
      | inl (d, f) ↦ rw f (
          run-IsConfined es d a.1 (
            Ensures-ok (IsConfined threads gettid o) (step gettid effects e w) f
              (step-IsConfined e w a.0 h)))
      | inr (x, f) ↦ rw f tt
    ]

    -- Let thread `o` make a loop, where so many threads have ids of their own, as the kernel gives
    -- them, and each has kept its id or not yet. Whatever of these threads then call `run_in_loop`,
    -- `queue_in_loop`, `quit` and `loop`, in any order, and in whatever rounds the loop goes, if no
    -- `assert` fails then every functor was called by thread `o`.
    pub run-own :
        (es : List Event) (cache : Cache) (d : Shared)
        → o < threads
        → All (Among threads) es
        → IsCache threads gettid cache
        → run gettid effects es (construct gettid o cache) ≡ ok d
        → d.called ≡ map (λ fc. (o, fc)) d.state.ran
    unfolding construct new
    run-own es cache d lt all cached e =
        let w = construct gettid o cache in
        let h : IsConfined threads gettid o w = record {
          among = lt;
          own = tid_lem gettid laws o cache lt cached;
          cached = tid-IsCache gettid laws o cache lt cached;
          looping = inl refl;
          all_called = refl;
        } in
        (Ensures-ok (IsConfined threads gettid o) (run gettid effects es w) e
          (run-IsConfined es w all h)).all_called

    -- A thread other than the one that made the loop does not run it: the `assert` of `loop()` fails.
    pub begin-other :
        (t : ℕ) (w : Shared)
        → t < threads
        → IsConfined threads gettid o w
        → t ≢ o
        → begin gettid effects t w ≡ err aborted
    unfolding begin assert_in_loop_thread
    begin-other t w lt h ne = elim (Bool-cases w.state.looping) [
      | inl l ↦ rw l refl
      | inr l ↦
          let other : (o == t) ≡ false = ground (arith, ne, ==_iff o t) in
          rw l (rw ((is_in_loop_thread_lem gettid laws o t w lt h).0 ∙ other) refl)
    ]
