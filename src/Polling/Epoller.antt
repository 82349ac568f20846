-- ===== src/Polling/Epoller.antt =====
-- src/net/source/poll/epoller.cc: the unfinished poller on epoll(7). A handle is known by a number,
-- and an entry of the vector by the handle that its pointer stands for; `none` is a null pointer.
use m_server.Prelude.{
  ℕ, ◌-◌, ◌≡◌, refl, List, [], ◌∷◌, ◌++◌, map, Option, none, some, length, drop, replicate, ◌==◌,
  if◌then◌else◌, Result, ok, err, undefined, ◌>>=◌,
}
use m_server.Buffer.{size_mod}

pub record Epoller : Type 0 where
  pub retrive_events : List (Option ℕ)

-- What `epoll_wait` did: it wrote these events and returned how many, or returned -1.
pub data Waited : Type 0 where
  ready : List ℕ → Waited
  failed : Waited

-- The constructor.
abbrev pub new : Epoller
new = record { retrive_events = none ∷ [] }

-- As the `size_t` with which `event_num` is compared.
abbrev pub event_num : Waited → ℕ
event_num (ready es) = length es
event_num failed = size_mod - 1

-- The vector after `epoll_wait` has written into it.
abbrev pub written : Waited → List (Option ℕ) → List (Option ℕ)
written (ready es) old = map some es ++ drop (length es) old
written failed old = old

abbrev pub resize_twice : List (Option ℕ) → List (Option ℕ)
resize_twice events = events ++ replicate (length events) none

-- `*phandle` of every entry.
pub handles : List (Option ℕ) → Result (List ℕ)
handles [] = ok []
handles (none ∷ es) = err undefined
handles (some h ∷ es) = do hs ← handles es; ok (h ∷ hs)

-- `wait` gives what `epoll_wait` does for a number of `maxevents`.
pub poll : (ℕ → Waited) → Epoller → Result (List ℕ × Epoller)
unfolding handles
poll wait p = do
  let cleared : List (Option ℕ) = []
  let w = wait (length cleared)
  let events = written w cleared
  let events' = if event_num w == length events then resize_twice events else events
  hs ← handles events'
  ok (hs, record { retrive_events = events' })

-- `epoll_wait` fails when `maxevents` is not positive, as its manual says. Then `poll` never returns
-- a handle, whatever is ready.
pub poll-nothing :
    (wait : ℕ → Waited) (p : Epoller)
    → wait 0 ≡ failed
    → poll wait p ≡ ok ([], record { retrive_events = [] })
unfolding poll
poll-nothing wait p e = rw e refl
