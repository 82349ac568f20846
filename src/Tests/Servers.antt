-- ===== src/Tests/Servers.antt =====
-- Runs of the thread pool and the server of src/net/source/loop_thread_pool.cc and tcp_server.cc.
use m_server.Prelude.{
  Bool, ℕ, inr, ◌≡◌, refl, List, [], ◌∷◌, true, false, some, none, length, ◌==◌, ==_iff, ok, arith,
}
use m_server.Server.{Entry, TcpServer, new, start}
use m_server.Prelude.Decimal.{to_string}
use m_server.Server.Names.{Text, zero_padded, conn_name, same_text, conn_name-Naming}
use m_server.Server.Connections.{Naming}
use m_server.Server.Live.{accept, close, Live, Shows, run, spec}
use m_server.Server.Live
use m_server.Server.Live.Runs.{run_live}
use m_server.Server.Pool.{LoopThreadPool}
use m_server.Server.Pool.Turns.{get_loops}
use m_server.Server.Setters.{set_thread_num}
use m_server.Server.Setters.Started.{start-in_turn}

abbrev pub pool : LoopThreadPool
pool = record { started = false; loops = 0 ∷ 1 ∷ []; thread_num = 2; next_thread_idx = 1 }

-- A connection's name is its number.
abbrev pub name_of : ℕ → ℕ
name_of i = i

pub naming : Naming name_of ◌==◌
naming = record { decides = ==_iff; injective = λ i j e. e }

abbrev first : Entry ℕ
first = record { name = 1; owner = some 0; socket = 9 }

abbrev server : TcpServer ℕ
server = record (new 2) {
  pool = pool;
  started = true;
  next_conn_id = 2;
  connections_map = first ∷ [];
}

-- Two sockets are accepted, the first connection is closed, and one more is accepted.
abbrev ops : List Live.Op
ops = accept 7 ∷ accept 8 ∷ close 1 ∷ accept 9 ∷ []

abbrev live : Live
live = record { numbers = 1 ∷ []; next = 2 }

server-Shows : Shows name_of server live
server-Shows = record {
  held = refl;
  below = ground arith;
  distinct = ground arith;
  next_is = refl;
  pool = inr (ground arith);
}

run_live_example :
    (d : TcpServer ℕ) × (run name_of ◌==◌ ops server ≡ ok d)
    × Shows name_of d (record { numbers = 2 ∷ 3 ∷ 4 ∷ []; next = 5 })
unfolding spec
run_live_example = run_live name_of ◌==◌ naming ops server live server-Shows (ground arith)

-- The system makes no thread but the first.
abbrev first_only : ℕ → Bool
first_only i = i == 0

start-in_turn_example :
    (s : TcpServer ℕ) × (p : LoopThreadPool) × (start (λ i. true) (set_thread_num 2 (new 0))
      ≡ ok (some s))
    × (s.acceptor.is_listing ≡ true)
    × (length s.pool.loops ≡ 2)
    × (get_loops 5 s.pool ≡ ok (some 0 ∷ some 1 ∷ some 0 ∷ some 1 ∷ some 0 ∷ [], p))
    × (start first_only (set_thread_num {Name = ℕ} 2 (new 0)) ≡ ok none)
start-in_turn_example =
    start-in_turn (λ i. true) first_only 2 5 1 (omega arith) (omega arith) (λ j lt. refl)
      (omega arith) refl

-- A format as the manual of fmt has it.
abbrev format : ℕ → Text
format n = 35 ∷ zero_padded (to_string n)

conn_name-Naming_example : Naming (conn_name format (58 ∷ 56 ∷ 48 ∷ [])) same_text
conn_name-Naming_example = conn_name-Naming format (58 ∷ 56 ∷ 48 ∷ []) (λ n. refl)
