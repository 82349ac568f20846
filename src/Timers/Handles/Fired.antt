-- ===== src/Timers/Handles/Fired.antt =====
-- timer_queue.cc: a handle whose timer has fired.
use m_server.Prelude.{
  ℕ, ◌≡◌, ◌≢◌, ◌<◌, sym, subst, ◌∙◌, [], ◌∷◌, List, false, if◌then◌else◌, if-both, All, err,
  undefined, arith,
}
use m_server.Timers.Timer.{Timer, restart}
use m_server.Timers.Queue.{
  TimerMap, TimerQueue, Op, add, cancel, multimap_insert, multimap_erase, insert, before, from,
  pop_expired, add_timer_in_loop, cancel_timer_in_loop, perform, run_all, reset_timers, handle_read,
}
use m_server.Timers.Queue.Expiry.{timers-rearm}
use m_server.Timers.Handles.{cancel_timer, Without, find-Without, cancel_lost, timers-add}

-- Timers of this number, where there are any, do not repeat.
abbrev Once : ℕ → List Timer → Type 0
Once s ts = All (λ u. u.sequence ≡ s → u.reapeat ≡ false) ts

-- Calls that add no timer of this number.
abbrev pub AddsNone : ℕ → List Op → Type 0
AddsNone s [] = Unit
AddsNone s (add now t ∷ ops) = (t.sequence ≢ s) × AddsNone s ops
AddsNone s (cancel t ∷ ops) = AddsNone s ops

module _ (s : ℕ) where
  insert-Without :
      (k : ℕ) (u : Timer) (m : TimerMap)
      → u.sequence ≢ s
      → Without s m
      → Without s (multimap_insert k u m)
  unfolding multimap_insert
  insert-Without k u [] ne h = (ne, tt)
  insert-Without k u ((j, v) ∷ m) ne h = ground (arith, insert-Without k u m ne h.1)

  erase-Without : (k n : ℕ) (m : TimerMap) → Without s m → Without s (multimap_erase k n m)
  unfolding multimap_erase
  erase-Without k n [] h = tt
  erase-Without k n ((j, v) ∷ m) h = ground (arith, erase-Without k n m h.1)

  perform-Without :
      (ops : List Op) (q : TimerQueue)
      → AddsNone s ops
      → Without s q.timers
      → Without s (perform ops q).timers
  unfolding perform cancel_timer_in_loop
  perform-Without [] q a h = h
  perform-Without (add now t ∷ ops) q a h =
      perform-Without ops (add_timer_in_loop now t q) a.1 (
        subst (Without s) (sym (timers-add now t q)) (insert-Without t.expiration t q.timers a.0 h))
  perform-Without (cancel t ∷ ops) q a h =
      perform-Without ops (cancel_timer_in_loop t q) a
        (erase-Without t.expiration t.sequence q.timers h)

  run_all-Without :
      (effects : Timer → List Op) (ts : List Timer) (q : TimerQueue)
      → ((u : Timer) → AddsNone s (effects u))
      → Without s q.timers
      → Without s (run_all effects ts q).timers
  unfolding run_all
  run_all-Without effects [] q a h = h
  run_all-Without effects (t ∷ ts) q a h =
      run_all-Without effects ts (perform (effects t) q) a (perform-Without (effects t) q (a t) h)

  restart-sequence : (now : ℕ) (t : Timer) → (restart now t).sequence ≡ t.sequence
  unfolding restart
  restart-sequence now t = ground arith

  renew-Without :
      (now : ℕ) (t : Timer) (q : TimerQueue)
      → t.sequence ≢ s
      → Without s q.timers
      → Without s (insert (restart now t) q).1.timers
  unfolding insert
  renew-Without now t q ne h =
      let t' = restart now t in
      insert-Without t'.expiration t' q.timers (λ e. ne (sym (restart-sequence now t) ∙ e)) h

  reset_timers-Without :
      (now : ℕ) (ts : List Timer) (q : TimerQueue)
      → Once s ts
      → Without s q.timers
      → Without s (reset_timers now ts q).timers
  unfolding reset_timers
  reset_timers-Without now [] q o h = h
  reset_timers-Without now (t ∷ ts) q o h =
      reset_timers-Without now ts (if t.reapeat then (insert (restart now t) q).1 else q) o.1 (
        if-both (λ (p : TimerQueue). Without s p.timers) t.reapeat
          (λ e. renew-Without now t q (λ is_s. absurd (ground (arith, o.0 is_s, e))) h) (λ e. h))

  from-Without : (now : ℕ) (m : TimerMap) → Without s m → Without s (from now m)
  unfolding from
  from-Without now [] h = tt
  from-Without now ((j, u) ∷ m) h = ground (arith, from-Without now m h.1)

  before-Once : (now : ℕ) (m : TimerMap) → Without s m → Once s (before now m)
  unfolding before
  before-Once now [] h = tt
  before-Once now ((j, u) ∷ m) h = ground (arith, before-Once now m h.1, h.0)

  handle_read-Without :
      (effects : Timer → List Op) (now later : ℕ) (q : TimerQueue)
      → Without s (from now q.timers)
      → Once s (before now q.timers)
      → ((u : Timer) → AddsNone s (effects u))
      → Without s (handle_read effects now later q).timers
  unfolding handle_read pop_expired
  handle_read-Without effects now later q h o a =
      let expired = before now q.timers in
      let ran = run_all effects expired (record q { timers = from now q.timers }) in
      let reset = reset_timers now expired ran in
      subst (Without s) (sym (timers-rearm later reset.timers reset)) (
        reset_timers-Without now expired ran o
          (run_all-Without effects expired (record q { timers = from now q.timers }) a h))

module _ (t : Timer) (once : t.reapeat ≡ false) (now : ℕ) (expired : t.expiration < now) where
  from-insert :
      (m : TimerMap)
      → Without t.sequence m
      → Without t.sequence (from now (multimap_insert t.expiration t m))
  unfolding from multimap_insert
  from-insert [] h = ground arith
  from-insert ((j, u) ∷ m) h = ground (arith, from-insert m h.1, from-Without t.sequence now m h.1)

  before-insert :
      (m : TimerMap)
      → Without t.sequence m
      → Once t.sequence (before now (multimap_insert t.expiration t m))
  unfolding before multimap_insert
  before-insert [] h = ground arith
  before-insert ((j, u) ∷ m) h =
      ground (arith, before-insert m h.1, before-Once t.sequence now m h.1, h.0, once)

  -- Once a timer that does not repeat has expired and `handle_read` has run it, to cancel it through
  -- its handle is undefined: the timer was destroyed. This is so whatever the callbacks do that add no
  -- timer of its number.
  pub cancel_timer-fired :
      (effects : Timer → List Op) (at later : ℕ) (q : TimerQueue)
      → Without t.sequence q.timers
      → ((u : Timer) → AddsNone t.sequence (effects u))
      → cancel_timer t.sequence (handle_read effects now later (add_timer_in_loop at t q))
        ≡ err undefined
  cancel_timer-fired effects at later q h a =
      let n = t.sequence in
      let added = add_timer_in_loop at t q in
      let holds = sym (timers-add at t q) in
      let done = handle_read effects now later added in
      cancel_lost n done (
        find-Without n done.timers (
          handle_read-Without n effects now later added
            (subst (λ m. Without n (from now m)) holds (from-insert q.timers h))
            (subst (λ m. Once n (before now m)) holds (before-insert q.timers h)) a))
