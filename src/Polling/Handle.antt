-- ===== src/Polling/Handle.antt =====
-- poll_handle.hh and poll_handle.cc: one descriptor, the events it waits for, and its callbacks.
-- A callback is an opaque `std::function`: a handle says which are set, and `handle_event` returns
-- those that it calls, in order. `update()` is `Spoller.update_handle`.
pub mod Dispatch
pub mod Setters
use m_server.Prelude.{
  ℕ, List, [], ◌∷◌, ◌++◌, Option, none, Bool, true, false, not, ◌&&◌, ◌||◌, if◌then◌else◌, ltb,
  Result, ok, check, ◌>>=◌, ◌>>◌,
}
use m_server.Polling.Mask.{Mask, event_none, event_read, event_write, union, minus, any}

-- `fd_`, `index_` (`none` for -1), `events_`, `revents_`, `handling_event_` and, for each callback,
-- whether it is set. A descriptor that a failed system call left at -1 fails the same assert as 0.
pub record Handle : Type 0 where
  pub fd : ℕ
  pub index : Option ℕ
  pub events : Mask
  pub revents : Mask
  pub handling_event : Bool
  pub read_callback : Bool
  pub write_callback : Bool
  pub err_callback : Bool
  pub close_callback : Bool

unfoldable pub new : ℕ → Result Handle
new fd = do
  check (ltb 0 fd)
  ok (record {
    fd = fd;
    index = none;
    events = event_none;
    revents = event_none;
    handling_event = false;
    read_callback = false;
    write_callback = false;
    err_callback = false;
    close_callback = false;
  })

unfoldable pub is_none_event : Handle → Bool
unfolding any
is_none_event h = not (any h.events)

pub is_writing : Handle → Bool
is_writing h = h.events.pollout

pub is_reading : Handle → Bool
is_reading h = h.events.pollin || h.events.pollpri

-- `bind_handler` sets all four.
unfoldable pub bind_handler : Handle → Handle
bind_handler h = record h {
  read_callback = true;
  write_callback = true;
  err_callback = true;
  close_callback = true;
}

-- What the event modifiers do to `events_` before they call `update`.
pub data Change : Type 0 where
  enable_reading enable_writing disable_writing disable_all : Change

unfoldable pub changed : Change → Mask → Mask
changed enable_reading m = union m event_read
changed enable_writing m = union m event_write
changed disable_writing m = minus m event_write
changed disable_all m = event_none

pub data Callback : Type 0 where
  read write err close : Callback

abbrev when : Bool → Callback → List Callback
when test c = if test then c ∷ [] else []

-- The order of `handle_event`: error, close, read, write. `revents_` is only set by the poller, so a
-- callback leaves it alone.
unfoldable pub handle_event : Handle → List Callback × Handle
handle_event h = (
  when ((r.pollerr || r.pollnval) && h.err_callback) err
      ++ (when ((r.pollhup && not r.pollin) && h.close_callback) close
          ++ (when ((r.pollin || (r.pollpri || r.pollrdhup)) && h.read_callback) read
              ++ when (r.pollout && h.write_callback) write)),
  record h { handling_event = false },
)
  where
    open h use {revents as r}
