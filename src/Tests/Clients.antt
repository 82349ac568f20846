-- ===== src/Tests/Clients.antt =====
-- Runs of the client of src/net/source/tcp_client.cc.
use m_server.Prelude.{
  ◌≡◌, ◌≤◌, ◌⊎◌, refl, List, [], ◌∷◌, replicate, none, some, true, length, ok, err,
  bad_function_call,
}
use m_server.Buffer.{Buffer}
use m_server.Connector.{
  econnrefused, success, connect, writeable, connect_in_loop, handle_write, wait_writable,
}
use m_server.Connector
use m_server.Connection.{Connection, connection_estabalished, handle_close}
use m_server.Connection
use m_server.Connection.Closing.{closings}
use m_server.Connection.Events.{established, closed, destroyed}
use m_server.Connection.Events
use m_server.Polling.Mask.{event_none}
use m_server.Polling.Handle.{changed, disable_all, enable_reading, enable_writing}
use m_server.Client.{
  callbacks, TcpClient, new, UserCallbacks, Event, connector_event, connection_event,
  handle_new_sock, close_connection, connector_step, connection_step, step, run,
}
use m_server.Connector.Attempts.{Failure, at_once, later}
use m_server.Pingpong.Client.{user_callbacks}
use m_server.Client.Connects.{attempted, Keeps, run-life}
use m_server.Client.Session.{run_connections}

abbrev empty : Buffer
empty = record { bytes = replicate 16 0; read_idx = 8; write_idx = 8 }

abbrev user : UserCallbacks
user = record { conn_cb = true; mess_cb = true; write_cb = true }

-- The client connects, and its peer closes.
abbrev events : List Event
events =
    connector_event (connect success)
    ∷ connector_event (writeable 0)
    ∷ connection_event 0 established
    ∷ connection_event 0 closed
    ∷ []

abbrev client : TcpClient
client = record (new 7) {
  connector = record (Connector.new true) {
    state = Connector.connecting;
    events = some (changed disable_all (changed enable_writing event_none));
    handed = 1;
  };
  connections =
      record (Connection.new (callbacks user) empty) {
        state = Connection.connected;
        events = some (changed disable_all (changed enable_reading event_none));
        notices = Connection.connection_cb ∷ Connection.close_cb ∷ Connection.queue_destroyed ∷ [];
      }
      ∷ [];
  names = 7 ∷ [];
  connection_idx = 8;
}

run_connections_example :
    (length client.connections ≡ client.connector.handed)
    × (client.connector.handed ≤ 1)
    × ((client.connection ≡ none) ⊎ (client.connection ≡ some 0))
unfolding run step connector_step connection_step handle_new_sock close_connection closings
    Connector.step connect_in_loop handle_write Connection.Events.step connection_estabalished
    handle_close
run_connections_example = run_connections user empty 7 events client refl

-- The first attempt is refused at once, the second one later.
abbrev failures : List Failure
failures = at_once econnrefused refl ∷ later success refl 111 ∷ []

-- The client of the ping-pong example sets no connection callback.
run-life_example :
    (d d' : TcpClient) × (run user_callbacks empty
        (attempted failures success (connection_event 0 established ∷ []))
        (new 7)
      ≡ ok d)
    × Keeps 7 (some 0) Connection.connected d
    × (d.connector.leaked ≡ 2)
    × (run user_callbacks empty
          (attempted failures success (
            connection_event 0 established
            ∷ connection_event 0 closed
            ∷ connection_event 0 destroyed
            ∷ []))
          (new 7)
        ≡ err bad_function_call)
    × Keeps 7 none Connection.disconnected d'
run-life_example = run-life user_callbacks empty 7 failures success refl
