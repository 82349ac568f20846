-- ===== src/Connection/Setters.antt =====
-- src/net/include/tcp_connection.hh: the setters of the callbacks. A callback is
-- known by whether it is set.
use m_server.Prelude.{Bool, false}
use m_server.Connection.{Connection, Callbacks}

-- Those of a new connection.
abbrev pub unset : Callbacks
unset = record {
  connection = false;
  message = false;
  close = false;
  write_complete = false;
  high_watermark = false;
}

unfoldable pub set_connection_callback : Bool → Connection → Connection
set_connection_callback cb c = record c { set = record c.set { connection = cb } }

unfoldable pub set_message_callback : Bool → Connection → Connection
set_message_callback cb c = record c { set = record c.set { message = cb } }

unfoldable pub set_close_callback : Bool → Connection → Connection
set_close_callback cb c = record c { set = record c.set { close = cb } }

unfoldable pub set_write_complete_callback : Bool → Connection → Connection
set_write_complete_callback cb c = record c { set = record c.set { write_complete = cb } }

unfoldable pub set_high_watermark_callback : Bool → Connection → Connection
set_high_watermark_callback cb c = record c { set = record c.set { high_watermark = cb } }
