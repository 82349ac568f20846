-- ===== src/Tests/Threads.antt =====
-- Runs of a loop thread of src/net/source/loop_thread.cc.
use m_server.Prelude.{◌≡◌, ◌⊎◌, refl, true, false, arith}
use m_server.LoopThread.{
  System, Step, star_fails, wakes, join, destroy, enter, leave, joined, asleep, constructing, init,
  Reach, here, next, star, wait_sleeps, publish, wait_ends, running, published,
}
use m_server.LoopThread.Object.{LoopThread}
use m_server.LoopThread.Object
use m_server.LoopThread.Start.{lost, lost-Reach, quit_lost}
use m_server.LoopThread.Progress.{CanStep, IsAbandoned, stuck-joined}

-- The owner sleeps before the thread has set the pointer.
abbrev early : System
early = record { owner = asleep; worker = constructing; has_loop = false; quit = false }

early-Reach : Reach init early
unfolding init
early-Reach = next (next here (star refl)) (wait_sleeps refl refl)

abbrev returned : System
returned = record { owner = running; worker = published; has_loop = true; quit = false }

returned-Reach : Reach init returned
returned-Reach = next (next early-Reach (publish refl)) (wait_ends refl refl)

quit_lost_example : Reach init lost × (lost ≡ lost)
quit_lost_example = quit_lost lost here

no_step : {s t : System} → s ≡ lost → Step s t → ⊥
no_step e (star p) = absurd (ground arith)
no_step e (star_fails p) = absurd (ground arith)
no_step e (wakes p) = absurd (ground arith)
no_step e (wait_ends p q) = absurd (ground arith)
no_step e (wait_sleeps p q) = absurd (ground arith)
no_step e (destroy p) = absurd (ground arith)
no_step e (join p q) = absurd (ground arith)
no_step e (publish p) = absurd (ground arith)
no_step e (enter p) = absurd (ground arith)
no_step e (leave p q) = absurd (ground arith)

lost-stuck : CanStep lost → ⊥
lost-stuck (t, st, real) = no_step refl st

stuck-joined_example : (lost.owner ≡ joined) ⊎ ((lost ≡ lost) ⊎ IsAbandoned lost)
stuck-joined_example = stuck-joined lost-Reach lost-stuck
