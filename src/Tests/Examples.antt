-- ===== src/Tests/Examples.antt =====
-- Runs of the servers of src/example/pingpong and src/example/time_server.
use m_server.Prelude.{
  ℕ, ◌≡◌, refl, List, [], ◌∷◌, length, replicate, true, some, ok, err, bad_function_call, arith,
}
use m_server.Buffer.{Buffer, readable_bytes, writeable_bytes, received}
use m_server.Polling.Mask.{event_read}
use m_server.Connection.{Connection, wrote, new, connected, handle_read}
use m_server.Connection.Sending.{IsIdle}
use m_server.Client
use m_server.Pingpong.{hello, on_connection, serve_all}
use m_server.Pingpong.Client.{Link, user_callbacks, rounds}
use m_server.Pingpong.Client.Rally.{rounds_return}
use m_server.Pingpong.Echo.{IsWaiting, join, serve_all_echoes}
use m_server.TimeServer.{callbacks}
use m_server.TimeServer.Visit.{handle_read-visitor}

abbrev empty : Buffer
empty = record { bytes = replicate 16 0; read_idx = 8; write_idx = 8 }

-- A connection of the time server, and one of the ping-pong server.
abbrev visited : Connection
visited = record (new callbacks empty) { state = connected; events = some event_read }

abbrev pinged : Connection
pinged = record visited { set = record callbacks { message = true } }

visited-IsIdle : IsIdle event_read visited
unfolding readable_bytes
visited-IsIdle = record { registered = refl; quiet = refl; valid = omega arith; drained = refl }

pinged-IsWaiting : IsWaiting 16 event_read pinged
unfolding readable_bytes
pinged-IsWaiting = record {
  connected_state = refl;
  idle = record { registered = refl; quiet = refl; valid = omega arith; drained = refl };
  message_set = refl;
  valid = omega arith;
  at_start = refl;
  size_is = refl;
}

abbrev messages : List (List ℕ)
messages = (1 ∷ 2 ∷ 3 ∷ []) ∷ (4 ∷ 5 ∷ 6 ∷ 7 ∷ []) ∷ (8 ∷ []) ∷ []

serve_all_echoes_example :
    (d : Connection) × (serve_all messages pinged ≡ ok d)
    × (d.sent ≡ 1 ∷ 2 ∷ 3 ∷ 4 ∷ 5 ∷ 6 ∷ 7 ∷ 8 ∷ [])
    × IsWaiting 16 event_read d
serve_all_echoes_example = serve_all_echoes 16 messages pinged pinged-IsWaiting (ground arith)

-- "12:00".
abbrev time : List ℕ
time = 49 ∷ 50 ∷ 58 ∷ 48 ∷ 48 ∷ []

handle_read-visitor_example : handle_read (received (1 ∷ [])) ok visited ≡ err bad_function_call
unfolding writeable_bytes
handle_read-visitor_example =
    handle_read-visitor (1 ∷ []) ok visited refl (omega arith) (omega arith) (omega arith)

-- The two ends of the ping-pong link.
abbrev roomy : Buffer
roomy = record { bytes = replicate 32 0; read_idx = 8; write_idx = 8 }

abbrev server_end : Connection
server_end = record (new (record callbacks { message = true }) roomy) {
  state = connected;
  events = some event_read;
}

abbrev client_end : Connection
client_end = record (new (Client.callbacks user_callbacks) roomy) {
  state = connected;
  events = some event_read;
}

server_end-IsWaiting : IsWaiting 32 event_read server_end
unfolding readable_bytes
server_end-IsWaiting = record {
  connected_state = refl;
  idle = record { registered = refl; quiet = refl; valid = omega arith; drained = refl };
  message_set = refl;
  valid = omega arith;
  at_start = refl;
  size_is = refl;
}

client_end-IsWaiting : IsWaiting 32 event_read client_end
unfolding readable_bytes
client_end-IsWaiting = record {
  connected_state = refl;
  idle = record { registered = refl; quiet = refl; valid = omega arith; drained = refl };
  message_set = refl;
  valid = omega arith;
  at_start = refl;
  size_is = refl;
}

rounds_return_example :
    (d : Connection) × (t : Link) × (on_connection (wrote (length hello)) server_end ≡ ok d)
    × (rounds 2 (record { server = d; client = client_end; read_by_client = 0; read_by_server = 0 })
        ≡ ok t)
    × (t.server.sent ≡ join (replicate 3 hello))
    × (t.client.sent ≡ join (replicate 2 hello))
rounds_return_example =
    rounds_return 2 32 server_end client_end server_end-IsWaiting client_end-IsWaiting refl refl
      (omega arith)
