-- ===== src/Timers/Handles.antt =====
-- src/net/include/timer_queue.hh and src/net/source/timer_queue.cc: a `timer_handle` refers to its
-- timer. Outside the callbacks of `handle_read` a timer exists as long as the map holds it.
pub mod Fired
use m_server.Prelude.{
  ℕ, ◌≡◌, ◌≢◌, ◌<◌, refl, sym, ap, subst, ◌∙◌, [], ◌∷◌, List, Option, none, some, ◌==◌, ==_iff,
  ◌&&◌, ltb, Bool, true, false, Bool-cases, inl, inr, if◌then◌else◌, if-both, All, Result, ok, err,
  undefined, arith,
}
use m_server.Timers.Timer.{Timer, restart}
use m_server.Timers.Queue.{
  TimerMap, TimerQueue, Op, add, cancel, multimap_insert, multimap_erase, is_first, insert, before,
  from, pop_expired, add_timer_in_loop, cancel_timer_in_loop, reset_expieration_from_now, perform,
  run_all, reset_timers, handle_read,
}
use m_server.Timers.Queue.Expiry.{timers-rearm}

-- The timer of this number.
pub find : ℕ → TimerMap → Option Timer
find s [] = none
find s ((k, u) ∷ m) = if u.sequence == s then some u else find s m

-- `timer_handle::cancel_timer`, in the loop's thread, of a handle of the timer with this number:
-- `cancel_timer_in_loop` reads the expiration of the timer first.
pub cancel_timer : ℕ → TimerQueue → Result TimerQueue
unfolding find
cancel_timer s q = elim (find s q.timers) [
  | none ↦ err undefined
  | some t ↦ ok (cancel_timer_in_loop t q)
]

-- The map holds no timer of this number.
abbrev pub Without : ℕ → TimerMap → Type 0
Without s m = All (λ e. e.1.sequence ≢ s) m

pub find-Without : (s : ℕ) (m : TimerMap) → Without s m → find s m ≡ none
unfolding find
find-Without s [] h = refl
find-Without s ((k, u) ∷ m) h = ground (arith, find-Without s m h.1, ==_iff u.sequence s, h.0)

cancel_found :
    (s : ℕ) (t : Timer) (q : TimerQueue)
    → find s q.timers ≡ some t
    → cancel_timer s q ≡ ok (cancel_timer_in_loop t q)
unfolding cancel_timer
cancel_found s t q e = rw (e, cancel_timer) refl

pub cancel_lost :
    (s : ℕ) (q : TimerQueue) → find s q.timers ≡ none → cancel_timer s q ≡ err undefined
unfolding cancel_timer
cancel_lost s q e = rw (e, cancel_timer) refl

pub timers-add :
    (now : ℕ) (t : Timer) (q : TimerQueue)
    → (add_timer_in_loop now t q).timers ≡ multimap_insert t.expiration t q.timers
unfolding add_timer_in_loop insert reset_expieration_from_now
timers-add now t q = elim (Bool-cases (is_first t.expiration q.timers)) [
  | inl e ↦ rw e refl
  | inr e ↦ rw e refl
]

module _ (t : Timer) where
  find-insert :
      (k : ℕ) (m : TimerMap)
      → Without t.sequence m
      → find t.sequence (multimap_insert k t m) ≡ some t
  unfolding find multimap_insert
  find-insert k [] h = ground (arith, ==_iff t.sequence t.sequence)
  find-insert k ((j, u) ∷ m) h =
      ground (
        arith,
        find-insert k m h.1,
        ==_iff t.sequence t.sequence,
        ==_iff u.sequence t.sequence,
        h.0,
      )

  erase-insert :
      (k : ℕ) (m : TimerMap)
      → Without t.sequence m
      → multimap_erase k t.sequence (multimap_insert k t m) ≡ m
  unfolding multimap_erase multimap_insert
  erase-insert k [] h = ground (arith, ==_iff t.sequence t.sequence, ==_iff k k)
  erase-insert k ((j, u) ∷ m) h = ground (
    arith,
    erase-insert k m h.1,
    ==_iff t.sequence t.sequence,
    ==_iff k k,
    ==_iff u.sequence t.sequence,
    h.0,
  )

  -- A timer that is added with a number that no timer has is cancelled through its handle: the map is
  -- as it was before. To cancel it once more is undefined, since the timer was destroyed.
  pub cancel_timer-add :
      (now : ℕ) (q : TimerQueue)
      → Without t.sequence q.timers
      → (d : TimerQueue) × (cancel_timer t.sequence (add_timer_in_loop now t q) ≡ ok d)
        × (d.timers ≡ q.timers)
        × (cancel_timer t.sequence d ≡ err undefined)
  unfolding cancel_timer_in_loop
  cancel_timer-add now q h =
      let s = t.sequence in
      let added = add_timer_in_loop now t q in
      let holds = timers-add now t q in
      let d = cancel_timer_in_loop t added in
      let back : d.timers ≡ q.timers =
        ap (multimap_erase t.expiration s) holds ∙ erase-insert t.expiration q.timers h in
      (
        d,
        cancel_found s t added (ap (find s) holds ∙ find-insert t.expiration q.timers h),
        back,
        cancel_lost s d (ap (find s) back ∙ find-Without s q.timers h),
      )
