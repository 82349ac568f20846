-- ===== src/Thread/Handles.antt =====
-- thread.cc: what becomes of the threads that `star` makes.
use m_server.Prelude.{
  ℕ, ◌+◌, ◌≡◌, refl, List, [], ◌∷◌, Option, none, some, Bool, true, false, inl, inr, ok,
  Result-cases, Ensures, Ensures-ok, arith,
}
use m_server.Thread.{
  Thread, Handle, joinable, joined, new, held, star, join, destroy, Op, starred, joined_by_owner,
  ran, Ran, returned, threw_exception, threw_other, run_in_thread, step, run,
}

-- Each thread made was joined, or lost, or is held joinable.
abbrev IsAccounted : Thread → Type 0
IsAccounted t = (t.made ≡ t.joins + t.lost + held t.handle) × (t.detached ≡ 0)

join-IsAccounted :
    (h : Option Handle) (t : Thread) → t.handle ≡ h → IsAccounted t → Ensures IsAccounted (join t)
unfolding join
join-IsAccounted none t e v = ground arith
join-IsAccounted (some joinable) t e v = ground arith
join-IsAccounted (some joined) t e v = ground arith

run_in_thread-IsAccounted :
    (end : Ran) (t : Thread) → IsAccounted t → Ensures IsAccounted (run_in_thread end t)
unfolding run_in_thread
run_in_thread-IsAccounted returned t v = v
run_in_thread-IsAccounted threw_exception t v = tt
run_in_thread-IsAccounted threw_other t v = tt

step-IsAccounted : (op : Op) (t : Thread) → IsAccounted t → Ensures IsAccounted (step op t)
unfolding step star
step-IsAccounted (starred true) t v = (omega (arith, v.0), v.1)
step-IsAccounted (starred false) t v = v
step-IsAccounted joined_by_owner t v = join-IsAccounted t.handle t refl v
step-IsAccounted (ran end) t v = run_in_thread-IsAccounted end t v

run-IsAccounted : (ops : List Op) (t : Thread) → IsAccounted t → Ensures IsAccounted (run ops t)
unfolding run
run-IsAccounted [] t v = v
run-IsAccounted (op ∷ ops) t v = elim (Result-cases (step op t)) [
  | inl (d, eq) ↦
      rw eq
        (run-IsAccounted ops d (Ensures-ok IsAccounted (step op t) eq (step-IsAccounted op t v)))
  | inr f ↦ rw f.1 tt
]

-- Whatever calls of `star` and `join` and runs of its function a new thread object returns from, when
-- it is destroyed each thread of the system that it made was joined, or is detached, or was lost
-- because another `star` overwrote the pointer to it: none is destroyed joinable.
pub destroy-run :
    (is_empty : Bool) (created_num : ℕ) (ops : List Op) (t : Thread)
    → run ops (new is_empty created_num).0 ≡ ok t
    → let d = destroy t in d.made ≡ d.joins + d.lost + d.detached
unfolding new destroy
destroy-run is_empty created_num ops t e =
    let start = (new is_empty created_num).0 in
    let v = Ensures-ok IsAccounted (run ops start) e (run-IsAccounted ops start (refl, refl)) in
    omega (arith, v.0, v.1)
