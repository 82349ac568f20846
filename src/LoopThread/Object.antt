-- ===== src/LoopThread/Object.antt =====
-- src/net/include/loop_thread.hh and src/net/source/loop_thread.cc: the object, as its owner calls it.
-- The thread that `star` makes sets `start_` and `ploop_`, and ends after `quit`; `System` has the
-- order of its steps.
use m_server.Prelude.{
  ℕ, suc, ◌≡◌, List, Option, none, some, Bool, true, false, not, if◌then◌else◌, Result, ok, err,
  undefined, arith, check, ◌>>=◌, ◌>>◌,
}
use m_server.Prelude.Decimal.{to_string, to_string_injective}
use m_server.Thread.{Thread, run_in_thread, returned}
use m_server.Thread

-- `name` is that of `thread_`, `quits` counts the calls of `quit` on the loop.
pub record LoopThread : Type 0 where
  pub ploop : Bool
  pub thread : Thread
  pub name : List ℕ
  pub quits : ℕ

-- The constructor, given `looping_create_`, with what that becomes.
pub construct : ℕ → LoopThread × ℕ
construct looping_create =
    let n = suc looping_create in
    (record { ploop = false; thread = (Thread.new false 0).0; name = to_string n; quits = 0 }, n)

-- Given whether the system makes a thread; `none` is a wait for `ploop_` that nothing ends.
pub start_loop : Bool → LoopThread → Result (Option LoopThread)
start_loop succeeds l = do
  check (not l.thread.start)
  let t = Thread.star succeeds l.thread
  if succeeds
      then (do t' ← run_in_thread returned t; ok (some (record l { thread = t'; ploop = true })))
      else ok (if l.ploop then some (record l { thread = t }) else none)

-- The destructor, and then that of `thread_`.
pub destroy : LoopThread → Result LoopThread
destroy l =
    if l.ploop
    then (do
      t ← Thread.join l.thread
      ok (record l { thread = Thread.destroy t; quits = suc l.quits }))
    else err undefined

-- No two loop_threads have the same name.
pub construct-name : (m n : ℕ) → (construct m).0.name ≡ (construct n).0.name → m ≡ n
unfolding construct
construct-name m n e =
    let same : suc m ≡ suc n = to_string_injective (suc m) (suc n) e in omega (arith, same)
