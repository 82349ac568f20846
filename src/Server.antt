-- ===== src/Server.antt =====
-- src/net/include/acceptor.hh, src/net/source/acceptor.cc, src/net/include/tcp_server.hh and
-- src/net/source/tcp_server.cc: the listening socket of a server and its connections. `conn_name`
-- stands for `name_ + fmt::format("#{:0>5}", id)` and `same` for `==` of std::string. Two sockets
-- accepted are told apart by a number.
pub mod Pool
pub mod Connections
pub mod Live
pub mod Names
pub mod Accepting
pub mod Setters
use m_server.Prelude.{
  ℕ, suc, ◌^◌, ◌-◌, List, [], ◌∷◌, Option, none, some, Bool, true, false, not, ltb, ◌==◌,
  if◌then◌else◌, Result, ok, check, require, ◌>>=◌, ◌>>◌,
}
use m_server.Polling.Mask.{Mask, event_none}
use m_server.Polling.Handle.{changed, enable_reading}
use m_server.Server.Pool.{LoopThreadPool, star, get_next_loop}
use m_server.Server.Pool

pub record Acceptor : Type 0 where
  pub is_listing : Bool
  pub events : Mask
  pub new_conn_cb : Bool

-- The constructor, then `set_new_sock_callback`.
abbrev pub new_acceptor : Acceptor
new_acceptor = record { is_listing = false; events = event_none; new_conn_cb = true }

unfoldable pub listen : Acceptor → Acceptor
listen a = record a { is_listing = true; events = changed enable_reading a.events }

-- A connection as the server keeps it: its name, the loop that owns it (`none` is the server's own)
-- and its socket.
pub record Entry {ℓ} (Name : Type ℓ) : Type ℓ where
  pub name : Name
  pub owner : Option ℕ
  pub socket : ℕ

-- `connections_map_` lists the connections in no particular order.
pub record TcpServer {ℓ} (Name : Type ℓ) : Type ℓ where
  pub pool : LoopThreadPool
  pub acceptor : Acceptor
  pub connections_map : List (Entry Name)
  pub started : Bool
  pub next_conn_id : ℕ

module _ {ℓ} {Name : Type ℓ} where
  -- The constructor, then `set_thread_num`.
  abbrev pub new : ℕ → TcpServer Name
  new threads = record {
    pool = Pool.new threads;
    acceptor = new_acceptor;
    connections_map = [];
    started = false;
    next_conn_id = 1;
  }

  -- Given whether the system makes each thread; `none` is a wait without end.
  unfoldable pub start_threads : (ℕ → Bool) → TcpServer Name → Result (Option (TcpServer Name))
  start_threads makes s = if s.started then ok (some s) else (do
    made ← star makes s.pool
    ok (elim made [ none ↦ none | some p ↦ some (record s { pool = p; started = true }) ]))

  -- `start`, with the functor that it leaves with the loop.
  unfoldable pub start : (ℕ → Bool) → TcpServer Name → Result (Option (TcpServer Name))
  start makes s = do
    started ← start_threads makes s
    ok (elim started [
      | none ↦ none
      | some s' ↦
          some (if s'.acceptor.is_listing then s' else record s' { acceptor = listen s'.acceptor })
    ])

  module _ (conn_name : ℕ → Name) (same : Name → Name → Bool) where
    -- `connections_map_[name] = ...`.
    unfoldable pub assign : Entry Name → List (Entry Name) → List (Entry Name)
    assign e [] = e ∷ []
    assign e (x ∷ xs) = let rest = assign e xs in if same x.name e.name then e ∷ xs else x ∷ rest

    -- `connections_map_.erase(name)`: how many were erased, and what is left.
    unfoldable pub erase : Name → List (Entry Name) → ℕ × List (Entry Name)
    erase name [] = (0, [])
    erase name (x ∷ xs) =
        let (n, rest) = erase name xs in if same x.name name then (suc n, rest) else (n, x ∷ rest)

    -- `next_conn_id_` is an `int`.
    unfoldable pub register_connection : ℕ → TcpServer Name → Result (TcpServer Name)
    register_connection sock s = do
      require (ltb s.next_conn_id (2 ^ 31 - 1))
      r ← get_next_loop s.pool
      let e : Entry Name = record { name = conn_name s.next_conn_id; owner = r.0; socket = sock }
      ok (record s {
        pool = r.1;
        next_conn_id = suc s.next_conn_id;
        connections_map = assign e s.connections_map;
      })

    -- The functor that `remove_connection` leaves with the loop.
    unfoldable pub remove_connection_in_loop : Name → TcpServer Name → Result (TcpServer Name)
    remove_connection_in_loop name s = do
      let (n, rest) = erase name s.connections_map
      check (n == 1)
      ok (record s { connections_map = rest })

    -- `acceptor::handle_read`; `none` is a socket that is not valid.
    unfoldable pub handle_read : Option ℕ → TcpServer Name → Result (TcpServer Name)
    handle_read accepted s = elim accepted [
      | none ↦ ok s
      | some sock ↦ if s.acceptor.new_conn_cb then register_connection sock s else ok s
    ]
