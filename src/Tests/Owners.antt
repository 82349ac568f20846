-- ===== src/Tests/Owners.antt =====
-- Calls of the loop of src/net/source/event_loop.cc from two threads.
use m_server.Prelude.{ℕ, ◌+◌, ◌≡◌, refl, List, [], ◌∷◌, map, update, inl, ok, some, true, arith}
use m_server.CurrentThread.{KernelLaws, tid}
use m_server.EventLoop.{
  Call, new, queue_in_loop, call, iterate, perform, do_pending_functors, call_all,
}
use m_server.EventLoop.Confined.{Shared, Event, runs, begins, turns, construct, run}
use m_server.EventLoop.Confined.Runs.{run-own}

abbrev gettid : ℕ → ℕ
gettid t = 100 + t

laws : KernelLaws 2 gettid
laws = record {
  positive = λ t lt. omega arith;
  fits = λ t lt. omega (arith, lt);
  injective = λ t u lt lu e. omega (arith, e);
}

abbrev no_effects : ℕ → List Call
no_effects fc = []

-- Thread 1 leaves functor 7 with the loop of thread 0, which calls it, and then functor 8.
abbrev events : List Event
events = runs 1 7 ∷ begins 0 ∷ turns [] ∷ runs 0 8 ∷ []

abbrev ended : Shared
ended = record {
  thread_id = 100;
  cache = update 1 101 (update 0 100 (λ t. 0));
  state = record new { looping = true; wakeups = 1; ran = 7 ∷ 8 ∷ [] };
  looper = some 0;
  called = (0, 7) ∷ (0, 8) ∷ [];
}

ran : run gettid no_effects events (construct gettid 0 (λ t. 0)) ≡ ok ended
unfolding run construct tid new queue_in_loop call iterate perform do_pending_functors call_all
ran = refl

run-own_example : ended.called ≡ map (λ fc. (0, fc)) (7 ∷ 8 ∷ [])
unfolding new
run-own_example =
    run-own gettid laws 0 no_effects events (λ t. 0) ended (omega arith)
      (omega arith, (omega arith, (tt, (omega arith, tt)))) (λ t lt. inl refl) ran
