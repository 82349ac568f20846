-- ===== src/Socket/Requests.antt =====
-- The namespace sock_op of src/net/source/uninet.cc, and src/base/include/sys_fd.hh: which system
-- calls a function makes, and what it returns. What the kernel answers is an argument.
use m_server.Prelude.{ℕ, List, [], ◌∷◌, Option, Bool, if◌then◌else◌, Result, err, undefined}
use m_server.Prelude.Int.{ℤ, pos, negsuc}
use m_server.Socket.{Answer, value, failed}

pub data Level : Type 0 where
  ipproto_tcp sol_socket : Level

pub data OptionName : Type 0 where
  tcp_nodelay so_keepalive so_reuseaddr so_reuseport : OptionName

-- A system call with its arguments. A descriptor of -1 is `none`; the `backlog` of `listen` is
-- SOMAXCONN, and the option of `getsockopt` SO_ERROR; `socket` asks for a stream of IPv4 that does not block.
pub data Request {ℓ} (Address : Type ℓ) : Type ℓ where
  asks_socket : Request Address
  asks_connect asks_bind : Option ℕ → Address → Request Address
  asks_listen asks_accept4 asks_shutdown asks_close : Option ℕ → Request Address
  asks_write asks_readv : Option ℕ → ℕ → Request Address
  asks_getsockopt : Option ℕ → Request Address
  asks_setsockopt : Option ℕ → Level → OptionName → ℕ → Request Address

abbrev pub returned : Answer → ℤ
returned (value n) = pos n
returned (failed errno) = negsuc 0

module _ {ℓ} {Address : Type ℓ} where
  -- `fd::create_tcp_socket_fd`.
  unfoldable pub create_tcp_socket_fd : Option ℕ → Option ℕ × List (Request Address)
  create_tcp_socket_fd answer = (answer, asks_socket ∷ [])

  pub connect : Option ℕ → Address → Answer → ℤ × List (Request Address)
  connect sfd addr answer = (returned answer, asks_connect sfd addr ∷ [])

  unfoldable pub bind : Option ℕ → Address → Answer → ℤ × List (Request Address)
  bind sfd addr answer = (returned answer, asks_bind sfd addr ∷ [])

  unfoldable pub listen : Option ℕ → Answer → ℤ × List (Request Address)
  listen sfd answer = (returned answer, asks_listen sfd ∷ [])

  pub shutdown_write : Option ℕ → Answer → ℤ × List (Request Address)
  shutdown_write sfd answer = (returned answer, asks_shutdown sfd ∷ [])

  unfoldable pub close : Option ℕ → Answer → ℤ × List (Request Address)
  close sfd answer = (returned answer, asks_close sfd ∷ [])

  pub set_tcp_no_delay : Option ℕ → Bool → List (Request Address)
  set_tcp_no_delay sfd on = asks_setsockopt sfd ipproto_tcp tcp_nodelay (if on then 1 else 0) ∷ []

  pub set_tcp_keep_alive : Option ℕ → Bool → List (Request Address)
  set_tcp_keep_alive sfd on =
      asks_setsockopt sfd ipproto_tcp so_keepalive (if on then 1 else 0) ∷ []

  -- These two end without a `return`, which is undefined behaviour.
  pub set_reuseaddr : Option ℕ → Bool → Result ℤ × List (Request Address)
  set_reuseaddr sfd on =
      (err undefined, asks_setsockopt sfd sol_socket so_reuseaddr (if on then 1 else 0) ∷ [])

  pub set_reuseport : Option ℕ → Bool → Result ℤ × List (Request Address)
  set_reuseport sfd on =
      (err undefined, asks_setsockopt sfd sol_socket so_reuseport (if on then 1 else 0) ∷ [])
