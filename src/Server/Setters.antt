-- ===== src/Server/Setters.antt =====
-- src/net/include/tcp_server.hh and src/net/include/loop_thread_pool.hh, with src/net/source/acceptor.cc: the
-- setters of a server. A
-- callback is known by whether it is set.
pub mod Started
use m_server.Prelude.{ℕ, suc, ◌-◌, ◌%◌, ◌^◌, Bool, true, false, ltb, if◌then◌else◌}
use m_server.Prelude.Int.{ℤ, pos, negsuc}
use m_server.Connection.{Callbacks}
use m_server.Server.{Acceptor, TcpServer}
use m_server.Server.Pool.{LoopThreadPool}

-- `connection_cb_` and `message_cb_`.
pub record UserCallbacks : Type 0 where
  pub connection_cb : Bool
  pub message_cb : Bool

-- Those of a new server.
abbrev pub unset : UserCallbacks
unset = record { connection_cb = false; message_cb = false }

abbrev pub set_connection_callback : Bool → UserCallbacks → UserCallbacks
set_connection_callback cb user = record user { connection_cb = cb }

abbrev pub set_message_callback : Bool → UserCallbacks → UserCallbacks
set_message_callback cb user = record user { message_cb = cb }

-- `acceptor::set_new_sock_callback`.
pub set_new_sock_callback : Bool → Acceptor → Acceptor
set_new_sock_callback cb a = record a { new_conn_cb = cb }

-- What `register_connection` sets of a connection.
abbrev pub callbacks : UserCallbacks → Callbacks
callbacks user = record {
  connection = user.connection_cb;
  message = user.message_cb;
  close = true;
  write_complete = false;
  high_watermark = false;
}

-- The `int` made of a `size_t`: the low 32 bits, read as a signed number.
unfoldable pub to_int : ℕ → ℤ
to_int n = let low = n % 2 ^ 32 in if ltb low (2 ^ 31) then pos low else negsuc (2 ^ 32 - low - 1)

-- The `size_t` made of an `int`.
abbrev pub to_size : ℤ → ℕ
to_size (pos n) = n
to_size (negsuc n) = 2 ^ 64 - suc n

-- `loop_thread_pool::set_thread_num`, of an `int`.
unfoldable pub set_pool_thread_num : ℤ → LoopThreadPool → LoopThreadPool
set_pool_thread_num num p = record p { thread_num = to_size num }

module _ {ℓ} {Name : Type ℓ} where
  -- `tcp_server::set_thread_num`, of a `size_t`.
  unfoldable pub set_thread_num : ℕ → TcpServer Name → TcpServer Name
  unfolding to_int set_pool_thread_num
  set_thread_num n s = record s { pool = set_pool_thread_num (to_int n) s.pool }
