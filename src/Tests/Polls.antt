-- ===== src/Tests/Polls.antt =====
-- Runs of src/net/source/poll_handle.cc and src/net/source/poll/spoller.cc.
use m_server.Prelude.{
  ℕ, ◌≡◌, ◌≢◌, ◌+◌, refl, List, length, [], ◌∷◌, some, true, false, ok, err, undefined, arith,
}
use m_server.Polling.Mask.{Mask, event_none, event_read, any}
use m_server.Polling.Handle.{Handle, Change, is_none_event}
use m_server.Polling.Spoller.{Spoller, find, change_events, remove_handle, poll, answered, ignored}
use m_server.Polling.Spoller.Aligned.{IsValid}
use m_server.Polling.Spoller.Active.{ready, poll-ready}
use m_server.Polling.Spoller.Removal.{remove_handle-stale}

abbrev handle : ℕ → ℕ → Mask → Handle
handle fd i events = record {
  fd = fd;
  index = some i;
  events = events;
  revents = event_none;
  handling_event = false;
  read_callback = true;
  write_callback = true;
  err_callback = true;
  close_callback = true;
}

-- Descriptor 5 is idle, 6 waits to read, 7 is idle.
abbrev table : Spoller
table = record {
  pollfds =
      ignored ∷ record { fd = some 6; events = event_read; revents = event_none } ∷ ignored ∷ [];
  handles = handle 5 0 event_none ∷ handle 6 1 event_read ∷ handle 7 2 event_none ∷ [];
}

table-IsValid : IsValid table
unfolding is_none_event
table-IsValid = ground arith

abbrev answer : List Mask
answer = event_none ∷ event_read ∷ event_none ∷ []

poll-ready_example : (t : Spoller) × (poll (answered answer) table ≡ ok (6 ∷ [], t)) × IsValid t
unfolding ready any
poll-ready_example = poll-ready table answer table-IsValid (ground arith)

remove_handle-stale_example :
    (t : Spoller) × (remove_handle 5 table ≡ ok t)
    × (find 7 t.handles ≡ some (handle 7 2 event_none))
    × ((x : ℕ) → x ≢ 5 → find x t.handles ≡ find x table.handles)
    × (length t.pollfds + 1 ≡ length table.pollfds)
    × ((c : Change) → change_events c 7 t ≡ err undefined)
unfolding find is_none_event
remove_handle-stale_example =
    remove_handle-stale 5 7 table (handle 5 0 event_none) (handle 7 2 event_none) table-IsValid refl
      refl (ground arith) refl refl
