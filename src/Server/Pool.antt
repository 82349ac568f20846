-- ===== src/Server/Pool.antt =====
-- src/net/include/loop_thread_pool.hh and src/net/source/loop_thread_pool.cc: the threads of a server,
-- each with its loop. A loop is named by the number of loops started before it.
pub mod Turns
pub mod Cycle
use m_server.Prelude.{
  ℕ, zero, suc, ◌+◌, List, [], ◌∷◌, ◌++◌, Option, none, some, Bool, true, false, not, length,
  get_elem?, leb, if◌then◌else◌, Result, ok, err, undefined, check, ◌>>=◌, ◌>>◌,
}

pub record LoopThreadPool : Type 0 where
  pub started : Bool
  pub loops : List ℕ
  pub thread_num : ℕ
  pub next_thread_idx : ℕ

-- The constructor, then `set_thread_num`.
abbrev pub new : ℕ → LoopThreadPool
new num = record { started = false; loops = []; thread_num = num; next_thread_idx = 0 }

-- The loop of `star`, given whether the system makes the thread of each loop. `start_loop` waits for
-- ever for a thread that it does not make: then the outcome is `none`.
unfoldable pub star_from : (ℕ → Bool) → ℕ → LoopThreadPool → Option LoopThreadPool
star_from makes zero p = some p
star_from makes (suc n) p =
    let rest = star_from makes n (record p { loops = p.loops ++ length p.loops ∷ [] }) in
    if makes (length p.loops) then rest else none

-- `started_` is tested and never set.
unfoldable pub star : (ℕ → Bool) → LoopThreadPool → Result (Option LoopThreadPool)
star makes p = do check (not p.started); ok (star_from makes p.thread_num p)

-- `loops_[i]`.
loop_at : ℕ → LoopThreadPool → Result ℕ
loop_at i p = elim (get_elem? p.loops i) [ some l ↦ ok l | none ↦ err undefined ]

-- `none` is the master loop.
unfoldable pub get_next_loop : LoopThreadPool → Result (Option ℕ × LoopThreadPool)
unfolding loop_at
get_next_loop p = elim p.loops [
  | [] ↦ ok (none, p)
  | _ ∷ _ ↦ do
    l ← loop_at p.next_thread_idx p
    let next = p.next_thread_idx + 1
    ok (some l, record p { next_thread_idx = if leb (length p.loops) next then 0 else next })
]
