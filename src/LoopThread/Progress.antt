-- ===== src/LoopThread/Progress.antt =====
-- loop_thread.cc: how far the two threads get.
use m_server.Prelude.{◌≡◌, ◌⊎◌, inl, inr, refl, Bool, true, false, arith, ◌∙◌}
use m_server.LoopThread.{
  Owner, created, checking, asleep, running, joining, joined, Worker, absent, constructing,
  published, looping, finished, System, init, Step, star, star_fails, wakes, wait_ends, wait_sleeps,
  destroy, join, publish, enter, leave, Reach, here, next,
}
use m_server.LoopThread.Start.{Inv, Reach-Inv, lost, is_published}

pub is_spurious : {s t : System} → Step s t → Bool
is_spurious (wakes p) = true
is_spurious _ = false

-- A step of either thread that is not a wakeup without a reason.
abbrev pub CanStep : System → Type 0
CanStep s = (t : System) × (st : Step s t) × (is_spurious st ≡ false)

-- The owner sleeps in `start_loop`, and there is no thread to wake it.
abbrev pub IsAbandoned : System → Type 0
IsAbandoned s = (s.owner ≡ asleep) × (s.worker ≡ absent)

abbrev Progress : System → Type 0
Progress s = (s.owner ≡ joined) ⊎ ((s ≡ lost) ⊎ (IsAbandoned s ⊎ CanStep s))

joining-Progress :
    (w : Worker) (h q : Bool)
    → h ≡ true
    → is_published w ≡ true
    → Progress (record { owner = joining; worker = w; has_loop = h; quit = q })
unfolding is_spurious
joining-Progress absent h q e p = absurd (ground arith)
joining-Progress constructing h q e p = absurd (ground arith)
joining-Progress published h q e p = inr (inr (inr (_, enter refl, refl)))
joining-Progress looping h true e p = inr (inr (inr (_, leave refl refl, refl)))
joining-Progress looping h false e p = inr (inl (rw e refl))
joining-Progress finished h q e p = inr (inr (inr (_, join refl refl, refl)))

Inv-Progress :
    (o : Owner) (w : Worker) (h q : Bool)
    → Inv (record { owner = o; worker = w; has_loop = h; quit = q })
    → Progress (record { owner = o; worker = w; has_loop = h; quit = q })
unfolding is_spurious
Inv-Progress created w h q v = inr (inr (inr (_, star refl, refl)))
Inv-Progress checking w true q v = inr (inr (inr (_, wait_ends refl refl, refl)))
Inv-Progress checking w false q v = inr (inr (inr (_, wait_sleeps refl refl, refl)))
Inv-Progress asleep w h q v = elim (v.sleeping refl) [
  | inl c ↦ inr (inr (inr (_, publish c, refl)))
  | inr a ↦ inr (inr (inl (refl, a)))
]
Inv-Progress running w h q v = inr (inr (inr (_, destroy refl, refl)))
Inv-Progress joining w h q v = joining-Progress w h q (v.agrees ∙ v.started refl) (v.started refl)
Inv-Progress joined w h q v = inl refl

-- A state of an owner and its thread, in whatever order they took their steps, in which neither can take
-- one but for wakeups of `cond_.wait` without a reason, is the end of the destructor, or the one in
-- which `quit()` was lost, or one in which the system made no thread and the owner sleeps in
-- `start_loop`.
pub stuck-joined :
    {s : System}
    → Reach init s
    → (CanStep s → ⊥)
    → (s.owner ≡ joined) ⊎ ((s ≡ lost) ⊎ IsAbandoned s)
stuck-joined {s} r none = elim (Inv-Progress s.owner s.worker s.has_loop s.quit (Reach-Inv r)) [
  | inl e ↦ inl e
  | inr p ↦ elim p [
    | inl e ↦ inr (inl e)
    | inr p' ↦ elim p' [ inl a ↦ inr (inr a) | inr c ↦ absurd (none c) ]
  ]
]

-- An owner without a thread never leaves `start_loop`.
abbrev Waits : System → Type 0
Waits s = (s.worker ≡ absent) × (s.has_loop ≡ false) × ((s.owner ≡ checking) ⊎ (s.owner ≡ asleep))

step-Waits : {s t : System} → Waits s → Step s t → Waits t
step-Waits v (star p) = ground (arith, v)
step-Waits v (star_fails p) = ground (arith, v)
step-Waits v (wakes p) = ground (arith, v)
step-Waits v (wait_ends p q) = ground (arith, v)
step-Waits v (wait_sleeps p q) = ground (arith, v)
step-Waits v (destroy p) = ground (arith, v)
step-Waits v (join p q) = ground (arith, v)
step-Waits v (publish p) = ground (arith, v)
step-Waits v (enter p) = ground (arith, v)
step-Waits v (leave p q) = ground (arith, v)

Reach-Waits : {t : System} → Reach (record init { owner = checking }) t → Waits t
unfolding init
Reach-Waits here = (refl, refl, inl refl)
Reach-Waits (next r st) = step-Waits (Reach-Waits r) st

-- Once the system has failed to make the thread, the owner stays in `start_loop`, whatever it does.
pub star_fails-Waits :
    {t : System}
    → Reach (record init { owner = checking }) t
    → (t.owner ≡ checking) ⊎ (t.owner ≡ asleep)
star_fails-Waits r = (Reach-Waits r).2
