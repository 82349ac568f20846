-- ===== src/Tests/Services.antt =====
-- Runs of a server with its connections, of src/net/source/tcp_server.cc and tcp_connection.cc.
use m_server.Prelude.{update, ℕ, List, [], ◌∷◌, replicate, true, some, none, ◌==◌, ok}
use m_server.Buffer.{Buffer, failed}
use m_server.Polling.Mask.{Mask, event_none, event_read}
use m_server.Connection.{Connection, wrote, connected, connection_cb, close_cb, queue_destroyed}
use m_server.Server.{Entry, new}
use m_server.Service.{Service, Event, registered, polled, functor_runs, made, removal, retire}
use m_server.Tests.Servers.{pool, name_of}

abbrev empty : Buffer
empty = record { bytes = replicate 16 0; read_idx = 8; write_idx = 8 }

-- The server has started, and its pool too.
abbrev start : Service ℕ
start = record {
  server = record (new 2) { pool = record pool { started = true }; started = true };
  objects = λ n. made name_of ◌==◌ true true empty;
  owners = λ n. none;
  pending = [];
  posts = [];
}

abbrev hung_up : Mask
hung_up = record event_none { pollhup = true }

-- A connection is accepted and established, and its peer hangs up.
abbrev events : List Event
events = registered 7 ∷ functor_runs 0 ∷ polled 1 hung_up failed (λ b. ok b) (wrote 0) ∷ []

abbrev established : Connection
established = record (made name_of ◌==◌ true true empty) {
  state = connected;
  events = some event_read;
  notices = connection_cb ∷ [];
}

abbrev hung : Connection
hung = record established {
  events = some event_none;
  notices = connection_cb ∷ close_cb ∷ queue_destroyed ∷ [];
}

abbrev entry : Entry ℕ
entry = record { name = 1; owner = some 1; socket = 7 }

-- The removal waits in the server's loop, the end of the connection in its own.
abbrev leaving : Service ℕ
leaving = record {
  server = record start.server {
    pool = record pool { started = true; next_thread_idx = 0 };
    next_conn_id = 2;
    connections_map = entry ∷ [];
  };
  objects =
      update 1 hung
        (update 1 established (update 1 (made name_of ◌==◌ true true empty) start.objects));
  owners = update 1 (some 1) start.owners;
  pending = removal 1 ∷ retire 1 ∷ [];
  posts = [];
}
