-- ===== src/Connector.antt =====
-- src/net/include/connector.hh and src/net/source/connector.cc: the connector of a client, as its
-- loop's thread drives it. What `connect` and `getsockopt` answer are arguments.
pub mod Retry
pub mod Handover
pub mod Attempts
use m_server.Prelude.{
  ℕ, suc, ◌*◌, min, List, [], ◌∷◌, ◌++◌, Option, none, some, Bool, true, false, ◌==◌, if◌then◌else◌,
  Result, ok, err, aborted, undefined, ◌>>=◌, ◌>>◌,
}
use m_server.Polling.Mask.{Mask, event_none}
use m_server.Polling.Handle.{changed, enable_writing, disable_all}

abbrev pub retry_delay : ℕ
retry_delay = 500

-- `state`; `stopped` is its `stop`.
pub data State : Type 0 where
  stopped connected connecting disconnected : State

-- The object of `psocket_`: it owns a descriptor, until that is moved out of it.
pub data Socket : Type 0 where
  opened moved : Socket

-- `retry_timer_`: null, or the address of the local variable of a call that has returned.
pub data Pointer : Type 0 where
  null dangling : Pointer

-- What `connect` returns: 0 or an `errno`; `unexpected` stands for those that the code does not name.
pub data Answer : Type 0 where
  success einprogress eintr eisconn : Answer
  eagain eaddrinuse eaddrnotavail econnrefused enetunreach : Answer
  eacces eperm eafnosupport ealready ebadf efault enotsock : Answer
  unexpected : Answer

-- `events` is that of `*poll_hd_`, `none` for a null `poll_hd_`. `timers` lists the delays given to
-- `run_after`, `handed` counts the sockets given to the callback, `removals` the handles left with
-- the loop to remove, and `leaked` the descriptors that no object owns any more.
pub record Connector : Type 0 where
  pub state : State
  pub events : Option Mask
  pub socket : Option Socket
  pub retry_delay_ms : ℕ
  pub retry_timer : Pointer
  pub new_connection_cb : Bool
  pub timers : List ℕ
  pub handed : ℕ
  pub removals : ℕ
  pub leaked : ℕ

-- The constructor, then `set_new_socket_cb`.
abbrev pub new : Bool → Connector
new cb = record {
  state = disconnected;
  events = none;
  socket = none;
  retry_delay_ms = retry_delay;
  retry_timer = null;
  new_connection_cb = cb;
  timers = [];
  handed = 0;
  removals = 0;
  leaked = 0;
}

-- `set_new_socket_cb`.
pub set_new_socket_cb : Bool → Connector → Connector
set_new_socket_cb cb c = record c { new_connection_cb = cb }

-- `assert(false)`.
pub reconnect : Connector → Result Connector
reconnect c = err aborted

-- `psocket_.release()`, whose result the code drops.
release : Connector → Connector
release c = elim c.socket [
  | some opened ↦ record c { socket = none; leaked = suc c.leaked }
  | _ ↦ record c { socket = none }
]

-- The `run_after` of `retry_connect`, and what follows it.
retry_later : Connector → Connector
retry_later c = record c {
  state = disconnected;
  timers = c.timers ++ c.retry_delay_ms ∷ [];
  retry_timer = dangling;
  retry_delay_ms = min (c.retry_delay_ms * 2) 3000;
}

pub retry_connect : Connector → Connector
unfolding retry_later
retry_connect c =
    let c' = record c { socket = none } in elim c.state [ stopped ↦ c' | _ ↦ retry_later c' ]

-- `psocket_->...`.
abbrev object : Connector → Result Socket
object c = elim c.socket [ some s ↦ ok s | none ↦ err undefined ]

-- `poll_hd_->...`.
abbrev handle : Connector → Result Mask
handle c = elim c.events [ some m ↦ ok m | none ↦ err undefined ]

pub wait_writable : Connector → Result Connector
wait_writable c = do
  elim c.events [ none ↦ ok tt | some m ↦ err aborted ]
  s ← object c
  ok (record c { state = connecting; events = some (changed enable_writing event_none) })

-- The `switch` over what `connect` returned.
after_connect : Answer → Connector → Result Connector
unfolding wait_writable retry_connect release
after_connect success c = wait_writable c
after_connect einprogress c = wait_writable c
after_connect eintr c = wait_writable c
after_connect eisconn c = wait_writable c
after_connect eagain c = ok (retry_connect (release c))
after_connect eaddrinuse c = ok (retry_connect (release c))
after_connect eaddrnotavail c = ok (retry_connect (release c))
after_connect econnrefused c = ok (retry_connect (release c))
after_connect enetunreach c = ok (retry_connect (release c))
after_connect eacces c = ok (release c)
after_connect eperm c = ok (release c)
after_connect eafnosupport c = ok (release c)
after_connect ealready c = ok (release c)
after_connect ebadf c = ok (release c)
after_connect efault c = ok (release c)
after_connect enotsock c = ok (release c)
after_connect unexpected c = ok (release c)

unfoldable pub connect_in_loop : Answer → Connector → Result Connector
unfolding after_connect
connect_in_loop answer c = after_connect answer (record c { socket = some opened })

-- The state is `stop` and the call is made through `retry_timer_`.
pub stop : Connector → Result Connector
stop c = elim c.retry_timer [ null ↦ err undefined | dangling ↦ err undefined ]

-- The branch of `handle_write` without an error on the socket.
hand_over : Connector → Result Connector
unfolding release
hand_over c =
    if c.new_connection_cb
    then (do
      m ← handle c
      s ← object c
      let c₁ = record c {
        events = some (changed disable_all m);
        socket = some moved;
        handed = suc c.handed;
      }
      ok (release c₁))
    else ok (release c)

-- `so_error` is the answer of `get_error`.
unfoldable pub handle_write : ℕ → Connector → Result Connector
unfolding hand_over
handle_write so_error c = elim c.state [
  | connecting ↦ object c >>= λ s. if so_error == 0 then hand_over c else ok c
  | _ ↦ ok c
]

-- The error that `get_error` returns is only logged.
pub handle_error : Connector → Result Connector
unfolding release retry_connect
handle_error c = do
  m ← handle c
  s ← object c
  ok (retry_connect (release (record c { events = none; removals = suc c.removals })))

-- The calls that the loop and the owner make.
pub data Event : Type 0 where
  connect : Answer → Event
  writeable : ℕ → Event
  errored stop_called : Event

unfoldable pub step : Event → Connector → Result Connector
step (connect answer) c = connect_in_loop answer c
step (writeable so_error) c = handle_write so_error c
step errored c = handle_error c
step stop_called c = stop c

unfoldable pub run : List Event → Connector → Result Connector
run [] c = ok c
run (e ∷ es) c = step e c >>= run es
