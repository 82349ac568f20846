-- ===== src/Polling/Mask.antt =====
-- Sets of the events of <poll.h>, the `int` and `short` masks of poll_handle.cc and spoller.cc. The
-- header gives each event a bit of its own, so a mask is a record of the bits that the code names.
use m_server.Prelude.{Bool, true, false, not, ◌&&◌, ◌||◌}

pub record Mask : Type 0 where
  pub pollin : Bool
  pub pollpri : Bool
  pub pollout : Bool
  pub pollerr : Bool
  pub pollhup : Bool
  pub pollnval : Bool
  pub pollrdhup : Bool

-- `poll_handle::EVENT_NONE`, that is 0.
abbrev pub event_none : Mask
event_none = record {
  pollin = false;
  pollpri = false;
  pollout = false;
  pollerr = false;
  pollhup = false;
  pollnval = false;
  pollrdhup = false;
}

-- `poll_handle::EVENT_READ`, that is POLLIN | POLLPRI.
abbrev pub event_read : Mask
event_read = record event_none { pollin = true; pollpri = true }

-- `poll_handle::EVENT_WRITE`, that is POLLOUT.
abbrev pub event_write : Mask
event_write = record event_none { pollout = true }

-- `a | b`.
abbrev pub union : Mask → Mask → Mask
union a b = record {
  pollin = a.pollin || b.pollin;
  pollpri = a.pollpri || b.pollpri;
  pollout = a.pollout || b.pollout;
  pollerr = a.pollerr || b.pollerr;
  pollhup = a.pollhup || b.pollhup;
  pollnval = a.pollnval || b.pollnval;
  pollrdhup = a.pollrdhup || b.pollrdhup;
}

-- `a & ~b`.
abbrev pub minus : Mask → Mask → Mask
minus a b = record {
  pollin = a.pollin && not b.pollin;
  pollpri = a.pollpri && not b.pollpri;
  pollout = a.pollout && not b.pollout;
  pollerr = a.pollerr && not b.pollerr;
  pollhup = a.pollhup && not b.pollhup;
  pollnval = a.pollnval && not b.pollnval;
  pollrdhup = a.pollrdhup && not b.pollrdhup;
}

-- `a != 0`; for the `short` of a `pollfd`, whose sign bit no event uses, also `a > 0`.
unfoldable pub any : Mask → Bool
any a =
    a.pollin
    || (a.pollpri || (a.pollout || (a.pollerr || (a.pollhup || (a.pollnval || a.pollrdhup)))))
