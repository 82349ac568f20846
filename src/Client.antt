-- ===== src/Client.antt =====
-- src/net/include/tcp_client.hh and src/net/source/tcp_client.cc: a connector, and the connection made
-- of the socket that it hands over.
pub mod Session
pub mod Connects
pub mod Setters
use m_server.Prelude.{
  ℕ, suc, ◌+◌, List, [], ◌∷◌, ◌++◌, Option, none, some, Bool, true, false, ltb, ◌==◌, if◌then◌else◌,
  length, get_elem?, set, Result, ok, err, aborted, undefined, check, ◌>>=◌, ◌>>◌,
}
use m_server.Buffer.{Buffer}
use m_server.Connector.{Connector}
use m_server.Connector
use m_server.Connection.{Connection, Callbacks, Notice, close_cb}
use m_server.Connection
use m_server.Connection.Closing.{closings}
use m_server.Connection.Events

-- `connections` lists the objects made, of which `connection_` is the one with this index. `names`
-- lists the numbers in their names; `connection_idx` starts with what the memory held.
pub record TcpClient : Type 0 where
  pub connector : Connector
  pub connection : Option ℕ
  pub connections : List Connection
  pub names : List ℕ
  pub connection_idx : ℕ

-- The constructor.
abbrev pub new : ℕ → TcpClient
new garbage = record {
  connector = Connector.new true;
  connection = none;
  connections = [];
  names = [];
  connection_idx = garbage;
}

-- What a client's connection has set: `conn_cb_` and `mess_cb_` and `write_cb_` where the user has
-- set them, and its own close callback.
pub record UserCallbacks : Type 0 where
  pub conn_cb : Bool
  pub mess_cb : Bool
  pub write_cb : Bool

abbrev pub callbacks : UserCallbacks → Callbacks
callbacks u = record {
  connection = u.conn_cb;
  message = u.mess_cb;
  close = true;
  write_complete = u.write_cb;
  high_watermark = false;
}

unfoldable pub handle_new_sock : UserCallbacks → Buffer → TcpClient → TcpClient
handle_new_sock user buffer c = record c {
  connections = c.connections ++ Connection.new (callbacks user) buffer ∷ [];
  names = c.names ++ c.connection_idx ∷ [];
  connection_idx = suc c.connection_idx;
  connection = some (length c.connections);
}

-- `assert(closed_conn_ == connection_)`.
unfoldable pub close_connection : ℕ → TcpClient → Result TcpClient
close_connection closed c = elim c.connection [
  | none ↦ err aborted
  | some i ↦ check (i == closed) >> ok (record c { connection = none })
]

pub data Event : Type 0 where
  connector_event : Connector.Event → Event
  connection_event : ℕ → Connection.Events.Event → Event

-- The connector hands its socket to `handle_new_sock`, in the middle of `handle_write`.
unfoldable pub connector_step :
    UserCallbacks → Buffer → Connector.Event → TcpClient → Result TcpClient
connector_step user buffer e c = do
  k ← Connector.step e c.connector
  let c' = record c { connector = k }
  ok (if ltb c.connector.handed k.handed then handle_new_sock user buffer c' else c')

-- The connection calls `close_connection` in the middle of `handle_close`.
unfoldable pub connection_step : ℕ → Connection.Events.Event → TcpClient → Result TcpClient
connection_step i e c = do
  old ← elim (get_elem? c.connections i) [ some x ↦ ok x | none ↦ err undefined ]
  x ← Connection.Events.step e old
  let c' = record c { connections = set c.connections i x }
  if ltb (closings old.notices) (closings x.notices) then close_connection i c' else ok c'

unfoldable pub step : UserCallbacks → Buffer → Event → TcpClient → Result TcpClient
unfolding connector_step connection_step
step user buffer (connector_event e) c = connector_step user buffer e c
step user buffer (connection_event i e) c = connection_step i e c

unfoldable pub run : UserCallbacks → Buffer → List Event → TcpClient → Result TcpClient
run user buffer [] c = ok c
run user buffer (e ∷ es) c = step user buffer e c >>= run user buffer es
