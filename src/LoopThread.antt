-- ===== src/LoopThread.antt =====
-- src/net/include/loop_thread.hh, src/net/source/loop_thread.cc and, of src/base/source/thread.cc, the
-- start of a thread: the owner of a thread and the thread itself, in every order of their steps.
pub mod Start
pub mod Progress
pub mod Object
use m_server.Prelude.{◌≡◌, Bool, true, false}

-- The owner: before `start_loop`, about to test the condition, asleep in `cond_.wait`, past
-- `start_loop`, in the `join` of the destructor, past it.
pub data Owner : Type 0 where
  created checking asleep running joining joined : Owner

-- The thread: not started, before it sets `ploop_`, before the `while` of `loop()`, in it, past it.
pub data Worker : Type 0 where
  absent constructing published looping finished : Worker

-- `has_loop` says that `ploop_` is not null, `quit` is the flag of the loop.
pub record System : Type 0 where
  pub owner : Owner
  pub worker : Worker
  pub has_loop : Bool
  pub quit : Bool

unfoldable pub init : System
init = record { owner = created; worker = absent; has_loop = false; quit = false }

-- `notify_one`.
abbrev pub notified : Owner → Owner
notified asleep = checking
notified owner = owner

-- One step. The owner: `start_loop` up to the lock, where the system makes the thread or fails to
-- (which `star` only prints), the test of the condition with either outcome, a wakeup of `cond_.wait`
-- without a reason, and in the destructor `quit()` and the end of `join`. The thread: the lines of
-- `start_loop_in_thred` under the lock, the first lines of `loop()`, and its end.
pub data Step (s : System) : System → Type 0 where
  star : s.owner ≡ created → Step s (record s { owner = checking; worker = constructing })
  star_fails : s.owner ≡ created → Step s (record s { owner = checking })
  wait_ends : s.owner ≡ checking → s.has_loop ≡ true → Step s (record s { owner = running })
  wait_sleeps : s.owner ≡ checking → s.has_loop ≡ false → Step s (record s { owner = asleep })
  wakes : s.owner ≡ asleep → Step s (record s { owner = checking })
  destroy : s.owner ≡ running → Step s (record s { owner = joining; quit = true })
  join : s.owner ≡ joining → s.worker ≡ finished → Step s (record s { owner = joined })
  publish :
      s.worker ≡ constructing
      → Step s (record s { worker = published; has_loop = true; owner = notified s.owner })
  enter : s.worker ≡ published → Step s (record s { worker = looping; quit = false })
  leave : s.worker ≡ looping → s.quit ≡ true → Step s (record s { worker = finished })

-- The states that can follow `s`.
pub data Reach (s : System) : System → Type 0 where
  here : Reach s s
  next : {t u : System} → Reach s t → Step t u → Reach s u
