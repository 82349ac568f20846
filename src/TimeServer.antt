-- ===== src/TimeServer.antt =====
-- example/time_server/time_server.hh and example/time_server/time_server.cc: a server that sends the
-- time and closes.
pub mod Visit
use m_server.Prelude.{ℕ, Option, List, Bool, true, false, Result, ok, ◌>>=◌}
use m_server.Buffer.{Buffer, retrieve_as_string}
use m_server.Server.{TcpServer, start}
use m_server.Server.Setters.{UserCallbacks, unset, set_connection_callback}
use m_server.Server.Setters
use m_server.Connection.{Connection, Callbacks, Written, State, connected, send, shotdown}

-- What the constructor sets of its server.
abbrev pub user_callbacks : UserCallbacks
user_callbacks = set_connection_callback true unset

-- The callbacks of a connection that `tcp_server::register_connection` makes for it.
abbrev pub callbacks : Callbacks
callbacks = Setters.callbacks user_callbacks

module _ {ℓ} {Name : Type ℓ} where
  pub star : (ℕ → Bool) → TcpServer Name → Result (Option (TcpServer Name))
  star makes server = start makes server

-- `time` is the text of the present time.
pub on_connection : Written → List ℕ → Connection → Result Connection
on_connection answer time c = elim c.state [
  | connected ↦ send true answer time 0 c >>= shotdown true
  | _ ↦ ok c
]

-- What it does to the buffer; no code binds it.
pub on_message : Buffer → Result Buffer
on_message buf = do (msg, b) ← retrieve_as_string buf; ok b
