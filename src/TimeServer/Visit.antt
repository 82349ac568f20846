-- ===== src/TimeServer/Visit.antt =====
-- example/time_server/time_server.cc: what a client of the time server sees.
use m_server.Prelude.{
  ◌<◌, ◌≡◌, List, [], ◌∷◌, ◌++◌, ℕ, refl, length, ok, Result, err, bad_function_call, arith, true,
}
use m_server.Buffer.{Buffer, size_mod, received, writeable_bytes, retrieve_all}
use m_server.Buffer.Content.{contents, retrieve_as_string_lem}
use m_server.Buffer.Bounds
use m_server.Polling.Mask.{Mask}
use m_server.Connection.{Connection, connected, disconnecting, wrote, handle_read, message_cb}
use m_server.Connection.Reading.{handle_read_throws, handle_read_delivers}
use m_server.Connection.Sending.{IsIdle, send_in_loop-whole, send-connected, shotdown-connected}
use m_server.TimeServer.{callbacks, on_connection, on_message}

-- A client whose idle connection takes the text of the time whole gets all of it, and then the end of
-- the stream; the connection goes on to `disconnecting`.
pub on_connection_lem :
    (time : List ℕ) (m : Mask) (c : Connection)
    → c.state ≡ connected
    → c.set ≡ callbacks
    → IsIdle m c
    → 0 < length time
    → length time < size_mod
    → on_connection (wrote (length time)) time c
      ≡ ok (record c { sent = c.sent ++ time; state = disconnecting; shut = true })
unfolding on_connection
on_connection_lem time m c s set idle pos lt =
    let sends = send-connected (wrote (length time)) time c s in
    let whole = send_in_loop-whole time idle pos lt in
    let shuts =
      shotdown-connected m (record c { sent = c.sent ++ time }) s idle.registered idle.quiet in
    ground (arith, sends, whole, shuts)

-- A client that sends some bytes to the time server, fewer than the input buffer has room for, makes
-- it throw std::bad_function_call: no message callback is set.
pub handle_read-visitor :
    (bs : List ℕ) (consume : Buffer → Result Buffer) (c : Connection)
    → c.set ≡ callbacks
    → Bounds.IsValid c.inp_buffer
    → 0 < length bs
    → length bs < writeable_bytes c.inp_buffer
    → handle_read (received bs) consume c ≡ err bad_function_call
handle_read-visitor bs consume c set v pos room =
    handle_read_throws bs consume c v pos room (ground arith)

-- If the constructor bound `on_message` too, a read of some bytes, fewer than the input buffer has
-- room for, would return, with nothing held in the input buffer and nothing sent.
pub handle_read-on_message :
    (bs : List ℕ) (c : Connection)
    → c.set.message ≡ true
    → Bounds.IsValid c.inp_buffer
    → 0 < length bs
    → length bs < writeable_bytes c.inp_buffer
    → (d : Connection) × (handle_read (received bs) on_message c ≡ ok d)
      × (contents d.inp_buffer ≡ [])
      × (d.sent ≡ c.sent)
unfolding on_message
handle_read-on_message bs c set v positive room =
    let (b, a, read) = handle_read_delivers bs on_message c v positive room set in
    let (taken, valid, nothing) = retrieve_as_string_lem a.valid in
    (
      record c { inp_buffer = retrieve_all b; notices = c.notices ++ message_cb ∷ [] },
      rw (read, taken) refl,
      nothing,
      refl,
    )
