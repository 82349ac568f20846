-- ===== src/Socket/Methods.antt =====
-- src/net/source/socket.cc: the methods of a socket that call the kernel, with the system call that
-- each makes.
use m_server.Prelude.{ℕ, List, [], ◌∷◌, Bool}
use m_server.Prelude.Int.{ℤ}
use m_server.Socket.{Socket, Answer}
use m_server.Socket
use m_server.Socket.Requests.{Request, asks_write, asks_readv, asks_getsockopt, returned}
use m_server.Socket.Requests

module _ {ℓ} {Address : Type ℓ} where
  unfoldable pub bind : Address → Answer → Socket Address → ℤ × List (Request Address)
  unfolding Requests.bind
  bind addr answer s = Requests.bind s.fd addr answer

  pub connect : Address → Answer → Socket Address → ℕ × List (Request Address)
  connect addr answer s = (Socket.connect answer, (Requests.connect s.fd addr answer).1)

  unfoldable pub listen : Answer → Socket Address → ℤ × List (Request Address)
  unfolding Requests.listen
  listen answer s = Requests.listen s.fd answer

  -- Of `len` bytes.
  pub write : ℕ → Answer → Socket Address → ℤ × List (Request Address)
  write len answer s = (Socket.write answer, asks_write s.fd len ∷ [])

  pub shutdown_write : Answer → Socket Address → List (Request Address)
  shutdown_write answer s = (Requests.shutdown_write s.fd answer).1

  pub get_error : Answer → Socket Address → ℕ × List (Request Address)
  get_error answer s = (Socket.get_error answer, asks_getsockopt s.fd ∷ [])

  -- Into `count` pieces of memory.
  pub readv : ℕ → Answer → Socket Address → ℤ × List (Request Address)
  readv count answer s = (returned answer, asks_readv s.fd count ∷ [])

  pub set_tcp_no_delay : Bool → Socket Address → List (Request Address)
  set_tcp_no_delay on s = Requests.set_tcp_no_delay s.fd on
