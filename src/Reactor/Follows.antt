-- ===== src/Reactor/Follows.antt =====
-- event_loop.cc: what a call of a handler leaves of a loop.
use m_server.Prelude.{
  ℕ, ◌==◌, ◌≡◌, ◌≢◌, sym, ap, ◌∙◌, List, [], ◌∷◌, ◌++◌, append_assoc, append-nil, map, Option, none,
  some, Bool, ◌||◌, if◌then◌else◌, Result, ok, All, arith,
}
use m_server.Polling.Handle.{Callback, handle_event}
use m_server.Polling.Spoller.{Spoller, find}
use m_server.Polling.Spoller.Found.{Found}
use m_server.Reactor.{Reactor}

-- The callbacks that `handle_event` would make of the handle of a descriptor.
abbrev pub callbacks : ℕ → Spoller → Option (List Callback)
callbacks fd s = elim (find fd s.handles) [ none ↦ none | some h ↦ some (handle_event h).0 ]

abbrev pub those : Option (List Callback) → List Callback
those none = []
those (some cbs) = cbs

-- `r'` is `r` after these calls of the application's handlers.
pub record Follows (r r' : Reactor) (added : List (ℕ × Callback)) : Type 0 where
  pub calls : r'.calls ≡ r.calls ++ added
  pub waker : r'.waker_fd ≡ r.waker_fd
  pub timer : r'.timer_fd ≡ r.timer_fd
  pub kept : (fd : ℕ) → callbacks fd r'.spoller ≡ callbacks fd r.spoller

pub Follows-trans :
    {r s t : Reactor} {xs ys : List (ℕ × Callback)}
    → Follows r s xs
    → Follows s t ys
    → Follows r t (xs ++ ys)
Follows-trans {r} {xs} {ys} p q = record {
  calls = q.calls ∙ ap (λ cs. cs ++ ys) p.calls ∙ append_assoc r.calls xs ys;
  waker = q.waker ∙ p.waker;
  timer = q.timer ∙ p.timer;
  kept = λ fd. q.kept fd ∙ p.kept fd;
}

pub Follows-same :
    (r r' : Reactor)
    → r'.calls ≡ r.calls
    → r'.waker_fd ≡ r.waker_fd
    → r'.timer_fd ≡ r.timer_fd
    → r'.spoller ≡ r.spoller
    → Follows r r' []
Follows-same r r' c w t s = record {
  calls = c ∙ sym (append-nil r.calls);
  waker = w;
  timer = t;
  kept = λ fd. ap (callbacks fd) s;
}

pub All-kept :
    (fds : List ℕ) (r r' : Reactor) (added : List (ℕ × Callback))
    → Follows r r' added
    → All (λ fd. callbacks fd r.spoller ≢ none) fds
    → All (λ fd. callbacks fd r'.spoller ≢ none) fds
All-kept [] r r' added f k = tt
All-kept (fd ∷ fds) r r' added f k = (λ e. k.0 (sym (f.kept fd) ∙ e), All-kept fds r r' added f k.1)

find-none : (fd : ℕ) (s : Spoller) → callbacks fd s ≡ none → find fd s.handles ≡ none
find-none fd s e = ground arith

pub known :
    (fds : List ℕ) (s : Spoller) → Found s.handles fds → All (λ fd. callbacks fd s ≢ none) fds
known [] s k = tt
known (fd ∷ fds) s k = (λ e. k.0 (find-none fd s e), known fds s k.1)

-- What is asked of the application's handlers: they return, do not remove handles or change which
-- callbacks are set (they may change the events of a handle), and leave the loop's own descriptors.
abbrev pub IsApplication : (ℕ → Callback → Reactor → Result Reactor) → Type 0
IsApplication app =
    (fd : ℕ) (cb : Callback) (r : Reactor)
    → (r' : Reactor) × (app fd cb r ≡ ok r') × Follows r r' []

-- Of the loop's own descriptors, no handler of the application is called.
abbrev pub is_own : ℕ → Reactor → Bool
is_own fd r = fd == r.waker_fd || fd == r.timer_fd

abbrev pub logged : ℕ → List Callback → Reactor → List (ℕ × Callback)
logged fd cbs r = if is_own fd r then [] else map (λ cb. (fd, cb)) cbs
