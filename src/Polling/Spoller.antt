-- ===== src/Polling/Spoller.antt =====
-- spoller.hh and spoller.cc: the handles, and the vector of `pollfd` that poll(2) reads and fills.
-- A reference to a handle is its descriptor, the key of `handles_`; a call on a reference whose
-- handle is gone is undefined.
pub mod Aligned
pub mod Active
pub mod Found
pub mod Removal
use m_server.Prelude.{
  ℕ, suc, ◌+◌, ◌-◌, take, false, true, aborted, List, [], ◌∷◌, ◌++◌, Option, none, some, Bool, ◌==◌,
  if◌then◌else◌, length, get_elem?, set, Result, ok, err, undefined, length_error, check, ◌>>=◌,
  ◌>>◌,
}
use m_server.Polling.Mask.{Mask, event_none, any}
use m_server.Polling.Handle.{Handle, Change, changed, is_none_event}
use m_server.Polling.Handle

-- `struct pollfd`; `fd` is `none` for IGNORED_FD.
pub record PollFd : Type 0 where
  pub fd : Option ℕ
  pub events : Mask
  pub revents : Mask

-- `handles_` is kept in the order of registration (the code never reads the order of the map).
pub record Spoller : Type 0 where
  pub pollfds : List PollFd
  pub handles : List Handle

unfoldable pub new : Spoller
new = record { pollfds = []; handles = [] }

-- `handles_.find(fd)`.
unfoldable pub find : ℕ → List Handle → Option Handle
find fd [] = none
find fd (h ∷ hs) = if h.fd == fd then some h else find fd hs

-- A write through the reference to the handle of `fd`.
unfoldable pub modify : ℕ → (Handle → Handle) → List Handle → List Handle
modify fd f [] = []
modify fd f (h ∷ hs) = if h.fd == fd then f h ∷ hs else h ∷ modify fd f hs

-- `handles_.erase(fd)`.
pub erase : ℕ → List Handle → List Handle
erase fd [] = []
erase fd (h ∷ hs) = if h.fd == fd then hs else h ∷ erase fd hs

abbrev pub deref {ℓ} : {A : Type ℓ} → Option A → Result A
deref (some a) = ok a
deref none = err undefined

abbrev pub ignored : PollFd
ignored = record { fd = none; events = event_none; revents = event_none }

-- The part of `register_polling` for a descriptor that has no handle yet.
add_handle : ℕ → Spoller → Result (Handle × Spoller)
add_handle fd s = do
  h ← Handle.new fd
  check (length s.handles + 1 == length s.pollfds + 1)
  let h' = record h { index = some (length s.pollfds) }
  ok (h', record { pollfds = s.pollfds ++ ignored ∷ []; handles = s.handles ++ h' ∷ [] })

unfoldable pub register_polling : ℕ → Spoller → Result (Handle × Spoller)
unfolding add_handle
register_polling fd s = elim (find fd s.handles) [ some h ↦ ok (h, s) | none ↦ add_handle fd s ]

-- The `pollfd` that `update_handle` writes.
abbrev pub entry : Handle → PollFd
entry h = record {
  fd = if is_none_event h then none else some h.fd;
  events = h.events;
  revents = event_none;
}

-- The assert of `update_handle`.
abbrev index_of : Handle → Result ℕ
index_of h = elim h.index [ some i ↦ ok i | none ↦ err aborted ]

pub update_handle : ℕ → Spoller → Result Spoller
update_handle fd s = do
  h ← deref (find fd s.handles)
  i ← index_of h
  p ← deref (get_elem? s.pollfds i)
  ok (record s { pollfds = set s.pollfds i (entry h) })

-- `enable_reading`, `enable_writing`, `disable_writing` and `disable_all` of poll_handle.cc.
unfoldable pub change_events : Change → ℕ → Spoller → Result Spoller
unfolding update_handle
change_events c fd s =
    update_handle fd
      (record s { handles = modify fd (λ h. record h { events = changed c h.events }) s.handles })

-- The reference was valid, so `handles_.at` finds its handle.
pub remove_handle : ℕ → Spoller → Result Spoller
remove_handle fd s = do
  h ← deref (find fd s.handles)
  check (is_none_event h)
  let tail_idx = length s.pollfds - 1
  tail ← deref (get_elem? s.pollfds tail_idx)
  tar_idx ← deref h.index
  target ← deref (get_elem? s.pollfds tar_idx)
  let swapped =
      if tar_idx == tail_idx then s.pollfds else set (set s.pollfds tail_idx target) tar_idx tail
  ok (record { pollfds = take tail_idx swapped; handles = erase fd s.handles })

-- What `::poll` did: it returned -1, or it filled in the `revents` of the entries, in order.
pub data PollReturn : Type 0 where
  failed : PollReturn
  answered : List Mask → PollReturn

unfoldable pub filled : List PollFd → List Mask → List PollFd
filled [] ms = []
filled (p ∷ ps) [] = p ∷ ps
filled (p ∷ ps) (m ∷ ms) = record p { revents = m } ∷ filled ps ms

-- The result of `::poll`: how many entries have an event.
unfoldable pub event_num : List PollFd → ℕ
event_num [] = 0
event_num (p ∷ ps) = if any p.revents then suc (event_num ps) else event_num ps

-- What `find_active_handles` does for an entry with an event: it finds the handle of its descriptor,
-- a read past the end of the map if there is none, and calls `set_revents`.
unfoldable pub mark : PollFd → List Handle → Result (ℕ × List Handle)
mark p hs = do
  fd ← deref p.fd
  h ← deref (find fd hs)
  ok (fd, modify fd (λ g. record g { revents = p.revents }) hs)

-- The loop of `find_active_handles`, which stops when `--event_num` reaches 0.
unfoldable pub active_from : ℕ → List PollFd → List Handle → Result (List ℕ × List Handle)
active_from n [] hs = ok ([], hs)
active_from n (p ∷ ps) hs = elim (any p.revents) [
  | false ↦ active_from n ps hs
  | true ↦ mark p hs >>= λ r. elim (n == 1) [
    | true ↦ ok (r.0 ∷ [], r.1)
    | false ↦ active_from (n - 1) ps r.1 >>= λ q. ok (r.0 ∷ q.0, q.1)
  ]
]

-- `poll`: `ret_handles.reserve(-1)` throws.
unfoldable pub poll : PollReturn → Spoller → Result (List ℕ × Spoller)
unfolding active_from
poll failed s = err length_error
poll (answered ms) s = do
  let ps = filled s.pollfds ms
  r ← active_from (event_num ps) ps s.handles
  ok (r.0, record { pollfds = ps; handles = r.1 })
