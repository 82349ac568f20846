-- ===== src/Connection/Events.antt =====
-- tcp_connection.cc: runs of the operations of one connection, in the order in which its loop's thread
-- performs them.
use m_server.Prelude.{ℕ, ◌<◌, List, [], ◌∷◌, length, Bool, Result, ok, ◌>>=◌}
use m_server.Buffer.{Buffer, size_mod, Readv}
use m_server.Connection.{
  Connection, Written, connection_estabalished, connection_destroyed, send_in_loop, send,
  shotdown_in_loop, shotdown, handle_close, handle_error, handle_read, handle_write,
}

-- The calls, with what the socket and the message callback answer.
pub data Event : Type 0 where
  established destroyed closed errored shotdown_queued : Event
  sent : Bool → Written → List ℕ → ℕ → Event
  sent_queued : Written → List ℕ → ℕ → Event
  shotdown_called : Bool → Event
  readable : Readv → (Buffer → Result Buffer) → Event
  writeable : Written → Event

unfoldable pub step : Event → Connection → Result Connection
step established c = connection_estabalished c
step destroyed c = connection_destroyed c
step closed c = handle_close c
step errored c = ok (handle_error c)
step shotdown_queued c = shotdown_in_loop c
step (sent in_loop_thread answer msg len) c = send in_loop_thread answer msg len c
step (sent_queued answer msg len) c = send_in_loop answer msg len c
step (shotdown_called in_loop_thread) c = shotdown in_loop_thread c
step (readable got consume) c = handle_read got consume c
step (writeable answer) c = handle_write answer c

unfoldable pub run : List Event → Connection → Result Connection
run [] c = ok c
run (e ∷ es) c = step e c >>= run es

-- The sizes of a message are `size_t` numbers.
abbrev pub Fits : Event → Type 0
Fits (sent in_loop_thread answer msg len) = (len < size_mod) × (length msg < size_mod)
Fits (sent_queued answer msg len) = len < size_mod
Fits e = Unit
