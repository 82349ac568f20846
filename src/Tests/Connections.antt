-- ===== src/Tests/Connections.antt =====
-- Runs of the connection of src/net/source/tcp_connection.cc.
use m_server.Prelude.{
  ◌≡◌, ◌≤◌, refl, [], ◌∷◌, replicate, true, false, some, ok, err, aborted, arith,
}
use m_server.Buffer.{Buffer, writeable_bytes, readable_bytes}
use m_server.Buffer.Content.{contents}
use m_server.Polling.Mask.{event_read, event_write}
use m_server.Polling.Handle.{changed, enable_writing}
use m_server.Connection.{
  connected, disconnecting, queue_shotdown, Callbacks, Connection, new, wrote, send_in_loop,
  shotdown, handle_write,
}
use m_server.Connection.Events.{shotdown_called, step, run}
use m_server.Connection.Life.{rank, run-state}
use m_server.Connection.Output.{handle_write_never}
use m_server.Connection.Sending.{IsIdle, send_in_loop-part}

abbrev empty : Buffer
empty = record { bytes = replicate 16 0; read_idx = 8; write_idx = 8 }

abbrev callbacks : Callbacks
callbacks = record {
  connection = true;
  message = true;
  close = true;
  write_complete = true;
  high_watermark = false;
}

-- Established and reading.
abbrev idle : Connection
idle = record (new callbacks empty) { state = connected; events = some event_read }

idle-IsIdle : IsIdle event_read idle
unfolding readable_bytes
idle-IsIdle = record { registered = refl; quiet = refl; valid = omega arith; drained = refl }

-- Writing is enabled.
abbrev writing : Connection
writing = record idle { events = some event_write }

abbrev after_shotdown : Connection
after_shotdown = record writing { state = disconnecting; notices = queue_shotdown ∷ [] }

send_in_loop-part_example :
    (d : Connection) × (send_in_loop (wrote 1) (1 ∷ 2 ∷ 3 ∷ []) 3 idle ≡ ok d)
    × (d.sent ≡ 1 ∷ [])
    × (contents d.oup_buffer ≡ [])
    × (d.events ≡ some (changed enable_writing event_read))
unfolding writeable_bytes
send_in_loop-part_example =
    send_in_loop-part 1 (1 ∷ 2 ∷ 3 ∷ []) idle-IsIdle (omega arith) (omega arith) (omega arith) refl

run-state_example : rank connected ≤ rank disconnecting
unfolding run step shotdown
run-state_example = run-state (shotdown_called false ∷ []) writing after_shotdown refl

handle_write_never_example : handle_write (wrote 5) after_shotdown ≡ err aborted
unfolding run step shotdown
handle_write_never_example =
    handle_write_never (shotdown_called false ∷ []) writing after_shotdown 5 (tt, tt)
      (record { valid = omega arith; unread = refl }) refl refl refl (omega arith)
