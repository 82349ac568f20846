-- ===== src/LoopThread/Start.antt =====
-- loop_thread.cc: `start_loop` and the destructor, in every order of the steps of the two threads.
use m_server.Prelude.{◌≡◌, ◌⊎◌, refl, Bool, true, false, arith}
use m_server.LoopThread.{
  Owner, created, asleep, running, joining, joined, Worker, absent, constructing, published,
  looping, finished, System, init, Step, star, star_fails, wakes, wait_ends, wait_sleeps, destroy,
  join, publish, enter, leave, Reach, here, next,
}

-- `start_loop` has returned.
abbrev pub is_started : Owner → Bool
is_started running = true
is_started joining = true
is_started joined = true
is_started _ = false

-- The thread has set `ploop_`.
abbrev pub is_published : Worker → Bool
is_published published = true
is_published looping = true
is_published finished = true
is_published _ = false

pub record Inv (s : System) : Type 0 where
  pub sleeping : s.owner ≡ asleep → (s.worker ≡ constructing) ⊎ (s.worker ≡ absent)
  pub fresh : s.owner ≡ created → s.worker ≡ absent
  pub started : is_started s.owner ≡ true → is_published s.worker ≡ true
  pub agrees : s.has_loop ≡ is_published s.worker

init-Inv : Inv init
unfolding init
init-Inv = ground arith

Step-Inv : {s t : System} → Inv s → Step s t → Inv t
Step-Inv v (star p) = ground arith
Step-Inv v (star_fails p) = ground arith
Step-Inv v (wakes p) = ground arith
Step-Inv v (wait_ends p q) = ground arith
Step-Inv v (wait_sleeps p q) = ground arith
Step-Inv v (destroy p) = ground arith
Step-Inv v (join p q) = ground arith
Step-Inv v (publish p) = ground arith
Step-Inv v (enter p) = ground arith
Step-Inv v (leave p q) = ground arith

pub Reach-Inv : {s : System} → Reach init s → Inv s
Reach-Inv here = init-Inv
Reach-Inv (next r st) = Step-Inv (Reach-Inv r) st

-- In whatever order the two threads take their steps, once `start_loop` has returned, the loop that
-- it returned exists.
pub start_loop-has_loop :
    {s : System} → Reach init s → is_started s.owner ≡ true → s.has_loop ≡ true
start_loop-has_loop r h = ground (arith, (Reach-Inv r).agrees, (Reach-Inv r).started h)

-- In whatever order the two threads take their steps, while the owner sleeps in `start_loop` the
-- thread has still to set `ploop_` and notify it, so that the wakeup is not lost, or was never made.
pub start_loop-asleep :
    {s : System} → Reach init s → s.owner ≡ asleep → (s.worker ≡ constructing) ⊎ (s.worker ≡ absent)
start_loop-asleep r h = (Reach-Inv r).sleeping h

-- The owner is in `join`, and the thread polls in a `while` that nothing tells to end.
abbrev pub lost : System
lost = record { owner = joining; worker = looping; has_loop = true; quit = false }

pub lost-Reach : Reach init lost
unfolding init
lost-Reach =
    next
      (next (next (next (next here (star refl)) (publish refl)) (wait_ends refl refl))
        (destroy refl))
      (enter refl)

step-stuck : {s t : System} → s ≡ lost → Step s t → t ≡ lost
step-stuck e (star p) = ground arith
step-stuck e (star_fails p) = ground arith
step-stuck e (wakes p) = ground arith
step-stuck e (wait_ends p q) = ground arith
step-stuck e (wait_sleeps p q) = ground arith
step-stuck e (destroy p) = ground arith
step-stuck e (join p q) = ground arith
step-stuck e (publish p) = ground arith
step-stuck e (enter p) = ground arith
step-stuck e (leave p q) = ground arith

lost-stuck : {t : System} → Reach lost t → t ≡ lost
lost-stuck here = refl
lost-stuck (next r st) = step-stuck (lost-stuck r) st

-- A destructor whose `quit()` comes before the first lines of `loop()`, which clear the flag, leads
-- to a state in which it waits for a thread that loops, and no other state follows.
pub quit_lost : (t : System) → Reach lost t → Reach init lost × (t ≡ lost)
quit_lost t r = (lost-Reach, lost-stuck r)
