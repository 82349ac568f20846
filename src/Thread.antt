-- ===== src/Thread.antt =====
-- src/base/include/thread.hh and src/base/source/thread.cc: an object around a `std::thread`.
pub mod Handles
use m_server.Prelude.{
  ℕ, suc, ◌+◌, Option, none, some, Bool, true, false, if◌then◌else◌, List, [], ◌∷◌, Result, ok, err,
  undefined, aborted, ◌>>=◌,
}

-- The object behind `thread_handle`: it can be joined, or it was.
pub data Handle : Type 0 where
  joinable joined : Handle

-- `number` is that of a name which the constructor made up, `none` for a name that was given. `made`,
-- `joins`, `detached` and `lost` count the threads of the system that were made, joined, detached, and
-- left joinable with no pointer to them.
pub record Thread : Type 0 where
  pub number : Option ℕ
  pub start : Bool
  pub handle : Option Handle
  pub made : ℕ
  pub joins : ℕ
  pub detached : ℕ
  pub lost : ℕ

-- The constructor, given whether the name is empty and `created_num_`, with what that becomes.
unfoldable pub new : Bool → ℕ → Thread × ℕ
new is_empty created_num =
    let t : Thread = record {
      number = if is_empty then some (suc created_num) else none;
      start = false;
      handle = none;
      made = 0;
      joins = 0;
      detached = 0;
      lost = 0;
    } in
    (t, if is_empty then suc created_num else created_num)

-- How many threads the pointer holds joinable.
abbrev pub held : Option Handle → ℕ
held (some joinable) = 1
held _ = 0

-- `star`, given whether the constructor of `std::thread` succeeds: its exception is caught, and the
-- pointer keeps its value.
unfoldable pub star : Bool → Thread → Thread
star succeeds t =
    if succeeds
    then record t { handle = some joinable; made = suc t.made; lost = t.lost + held t.handle }
    else t

-- `join`: through a null pointer, or with the exception of a `std::thread` that was joined before,
-- which no code catches.
unfoldable pub join : Thread → Result Thread
join t = elim t.handle [
  | none ↦ err undefined
  | some h ↦ elim h [
    | joinable ↦ ok (record t { handle = some joined; joins = suc t.joins })
    | joined ↦ err aborted
  ]
]

-- The destructor.
unfoldable pub destroy : Thread → Thread
destroy t = record t { start = false; handle = none; detached = t.detached + held t.handle }

-- How the call of `func_` ends.
pub data Ran : Type 0 where
  returned threw_exception threw_other : Ran

-- `run_in_thread`; what it rethrows ends the program too.
unfoldable pub run_in_thread : Ran → Thread → Result Thread
run_in_thread returned t = ok (record t { start = true })
run_in_thread _ t = err aborted

-- The calls of the owner, and the run of the thread.
pub data Op : Type 0 where
  starred : Bool → Op
  joined_by_owner : Op
  ran : Ran → Op

unfoldable pub step : Op → Thread → Result Thread
step (starred succeeds) t = ok (star succeeds t)
step joined_by_owner t = join t
step (ran end) t = run_in_thread end t

unfoldable pub run : List Op → Thread → Result Thread
run [] t = ok t
run (op ∷ ops) t = step op t >>= run ops
