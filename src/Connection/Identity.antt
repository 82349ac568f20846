-- ===== src/Connection/Identity.antt =====
-- src/net/include/tcp_connection.hh and src/net/source/tcp_connection.cc: what a connection is called,
-- its addresses and its socket. A text is a list of ASCII codes; what `getsockname` and `getpeername`
-- answer is an argument.
use m_server.Prelude.{ℕ, ◌≡◌, refl, List, [], ◌∷◌, Option, Bool, true, false}
use m_server.Socket.{Socket, connection, accept, move, host_addr, peer_addr, closes}
use m_server.Socket.Methods
use m_server.Socket.Requests.{Request}
use m_server.Connection.{Connection, connected}

module _ {ℓ} (Address : Type ℓ) where
  pub record Identity : Type ℓ where
    pub name : List ℕ
    pub socket : Socket Address
    pub host_addr : Address
    pub peer_addr : Address

module _ {ℓ} {Address : Type ℓ} where
  -- The constructor: the connection, and what it leaves of the socket that it is given.
  pub construct : List ℕ → Socket Address → Address → Address → Identity Address × Socket Address
  unfolding move host_addr peer_addr
  construct name sock getsockname getpeername =
      let moved = move sock in
      let host = host_addr getsockname moved.0 in
      let peer = peer_addr getpeername host.1 in
      (record { name = name; socket = peer.1; host_addr = host.0; peer_addr = peer.0 }, moved.1)

  -- `format` is what fmt::format makes with "[{}:{}->{}]", `adress` is that of `inet_address`.
  pub to_string :
      (List ℕ → Option ℕ → List ℕ → List ℕ) → (Address → List ℕ) → Identity Address → List ℕ
  to_string format adress c = format c.name c.socket.fd (adress c.peer_addr)

  pub set_tcp_no_delay : Bool → Identity Address → List (Request Address)
  set_tcp_no_delay on c = Methods.set_tcp_no_delay on c.socket

  -- A connection made of a socket that `accept4` gave keeps the address that it gave, without asking
  -- for it, and it alone closes the descriptor.
  pub construct-accept :
      (n : ℕ) (name : List ℕ) (peer getsockname getpeername again : Address)
      → let r = construct name (accept (connection n) peer) getsockname getpeername in
        (r.0.peer_addr ≡ peer)
        × (r.0.host_addr ≡ getsockname)
        × (peer_addr again r.0.socket ≡ (peer, r.0.socket))
        × (host_addr again r.0.socket ≡ (getsockname, r.0.socket))
        × (closes r.0.socket ≡ n ∷ [])
        × (closes r.1 ≡ [])
  unfolding construct accept closes
  construct-accept n name peer getsockname getpeername again = (refl, refl, refl, refl, refl, refl)

-- `connected()`.
unfoldable pub is_connected : Connection → Bool
is_connected c = elim c.state [ connected ↦ true | _ ↦ false ]
