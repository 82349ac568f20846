-- ===== src/Timers/Queue/Cancel.antt =====
-- timer_queue.cc, `cancel_timer_in_loop`.
use mathlib.Core.List.{Mem, Memᴰ, Perm, Perm-prop}
use mathlib.Core.List.Memᴰ
use mathlib.Core.List.Perm
use mathlib.Core.Logic.{∥∥₁_elim}
use m_server.Prelude.{◌≡◌, sym, [], ◌∷◌, true, ◌==◌, ◌&&◌, Bool-cases, inl, inr, arith, All}
use m_server.Timers.Timer.{Timer}
use m_server.Timers.Queue.{TimerMap, TimerQueue, multimap_erase, cancel_timer_in_loop}
use m_server.Timers.Queue.Order.{keyed}

-- No other entry has the sequence number of `t`.
abbrev pub Sole : Timer → TimerMap → Type 0
Sole t m = All (λ e. e.1.sequence ≡ t.sequence → e ≡ keyed t) m

erase-perm :
    (t : Timer) (m : TimerMap)
    → Sole t m
    → Memᴰ (keyed t) m
    → Perm m (keyed t ∷ multimap_erase t.expiration t.sequence m)
unfolding multimap_erase
erase-perm t [] d i = absurd (Memᴰ.not-nil i)
erase-perm t ((j, u) ∷ m) d (Memᴰ.head e) =
    let hit : (j == t.expiration && u.sequence == t.sequence) ≡ true = ground arith in
    rw hit (Perm.cons' (sym e) Perm.rfl)
erase-perm t ((j, u) ∷ m) d (Memᴰ.tail i) =
    elim (Bool-cases (j == t.expiration && u.sequence == t.sequence)) [
      | inl hit ↦ rw hit (Perm.cons' (d.0 (ground arith)) Perm.rfl)
      | inr miss ↦
          rw miss
            (Perm.trans (Perm.cons (j, u) (erase-perm t m d.1 i)) (Perm.swap (keyed t) (j, u) _))
    ]

-- Cancelling a timer that is in the map, and whose id no other timer there has, takes out that
-- timer and no other.
pub cancel_timer-perm :
    (t : Timer) (q : TimerQueue)
    → Sole t q.timers
    → Mem (keyed t) q.timers
    → Perm q.timers (keyed t ∷ (cancel_timer_in_loop t q).timers)
unfolding cancel_timer_in_loop
cancel_timer-perm t q d m = ∥∥₁_elim m Perm-prop (erase-perm t q.timers d)
