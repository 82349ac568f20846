-- ===== src/Server/Accepting.antt =====
-- src/net/source/acceptor.cc on src/net/source/socket.cc: the system calls that an acceptor makes,
-- from its constructor to its destructor.
pub mod Calls
use m_server.Prelude.{
  ℕ, zero, suc, ◌+◌, ◌≡◌, ◌≢◌, ◌≤◌, refl, List, [], ◌∷◌, ◌++◌, append-nil, append_assoc, Option,
  none, some, Option-cases, inl, inr, ◌==◌, ==_iff, Bool, true, false, Bool-cases, if◌then◌else◌,
  arith, Result, ok, ◌>>=◌,
}
use m_server.Polling.Mask.{Mask, event_none}
use m_server.Polling.Handle
use m_server.Polling.Handle.{changed, enable_reading}
use m_server.Socket.{Socket, Answer, Accepted, connection, refused, accept, new, closes}
use m_server.Socket.Requests.{
  Request, asks_socket, asks_connect, asks_bind, asks_listen, asks_accept4, asks_shutdown,
  asks_close, asks_setsockopt, create_tcp_socket_fd, close,
}
use m_server.Socket.Methods

module _ {ℓ} (Address : Type ℓ) where
  -- `requests` lists the system calls made, and `handed` the descriptors given to `new_conn_cb_`.
  pub record Acceptor : Type ℓ where
    pub accept_socket : Socket Address
    pub is_listing : Bool
    pub events : Mask
    pub new_conn_cb : Bool
    pub requests : List (Request Address)
    pub handed : List (Option ℕ)

-- What happens: `tcp_server::start` in the loop's thread, with the answer of `listen`; the poll
-- handle's read event, with what `accept4` did and the address that it left.
pub data Event {ℓ} (Address : Type ℓ) : Type ℓ where
  starts : Answer → Event Address
  readable : Accepted → Address → Event Address

-- A descriptor of -1 fails the same `assert` as 0.
abbrev pub descriptor : Option ℕ → ℕ
descriptor none = 0
descriptor (some fd) = fd

module _ {ℓ} {Address : Type ℓ} where
  pub asked : List (Request Address) → Acceptor Address → Acceptor Address
  asked rs a = record a { requests = a.requests ++ rs }

  -- The constructor, given what `socket` and `bind` answer: `register_polling` makes a handle, which
  -- asserts that the descriptor is above 0.
  unfoldable pub construct : Option ℕ → Answer → Address → Bool → Result (Acceptor Address)
  unfolding asked create_tcp_socket_fd Methods.bind
  construct fd bound listen_addr set =
      let r = create_tcp_socket_fd fd in
      Handle.new (descriptor r.0) >>= λ h.
      let a : Acceptor Address = record {
        accept_socket = new r.0;
        is_listing = false;
        events = h.events;
        new_conn_cb = set;
        requests = r.1;
        handed = [];
      } in
      ok (asked (Methods.bind listen_addr bound a.accept_socket).1 a)

  pub listens : Answer → Acceptor Address → Acceptor Address
  unfolding asked Methods.listen
  listens answer a =
      let a' = asked (Methods.listen answer a.accept_socket).1 (record a { is_listing = true }) in
      record a' { events = changed enable_reading a.events }

  -- The second half of `tcp_server::start`.
  pub start : Answer → Acceptor Address → Acceptor Address
  unfolding listens
  start answer a = if a.is_listing then a else listens answer a

  -- `~socket` of a socket with this descriptor.
  pub close_valid : Option ℕ → Acceptor Address → Acceptor Address
  unfolding asked close
  close_valid none a = a
  close_valid (some fd) a = asked (close (some fd) (Answer.value 0)).1 a

  -- A socket that is not handed over is destroyed, and so closed if it is valid.
  pub handle_read : Accepted → Address → Acceptor Address → Acceptor Address
  unfolding asked close_valid
  handle_read answer peer a =
      let sock = accept answer peer in
      let a' = asked (asks_accept4 a.accept_socket.fd ∷ []) a in
      elim sock.fd [
        | none ↦ a'
        | some fd ↦
            if a.new_conn_cb
            then record a' { handed = a.handed ++ some fd ∷ [] }
            else close_valid (some fd) a'
      ]

  -- The destructor of `accept_socket_`.
  pub destroy : Acceptor Address → Acceptor Address
  unfolding close_valid
  destroy a = close_valid a.accept_socket.fd a

  unfoldable pub step : Event Address → Acceptor Address → Acceptor Address
  unfolding start handle_read
  step (starts answer) a = start answer a
  step (readable answer peer) a = handle_read answer peer a

  unfoldable pub run : List (Event Address) → Acceptor Address → Acceptor Address
  unfolding step
  run [] a = a
  run (e ∷ es) a = run es (step e a)
