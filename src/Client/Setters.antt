-- ===== src/Client/Setters.antt =====
-- src/net/include/tcp_client.hh: the setters of a client's callbacks, and `connect`. A callback is
-- known by whether it is set.
use m_server.Prelude.{Bool, false, Result}
use m_server.Buffer.{Buffer}
use m_server.Connector.{Answer, connect}
use m_server.Client.{TcpClient, UserCallbacks, connector_step}

-- Those of a new client.
abbrev pub unset : UserCallbacks
unset = record { conn_cb = false; mess_cb = false; write_cb = false }

abbrev pub set_connection_callback : Bool → UserCallbacks → UserCallbacks
set_connection_callback cb user = record user { conn_cb = cb }

abbrev pub set_message_callback : Bool → UserCallbacks → UserCallbacks
set_message_callback cb user = record user { mess_cb = cb }

abbrev pub set_write_complete_callback : Bool → UserCallbacks → UserCallbacks
set_write_complete_callback cb user = record user { write_cb = cb }

-- `connector_.connect()`, given what the system call answers.
pub start_connect : UserCallbacks → Buffer → Answer → TcpClient → Result TcpClient
start_connect user buffer answer c = connector_step user buffer (connect answer) c
