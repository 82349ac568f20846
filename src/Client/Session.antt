-- ===== src/Client/Session.antt =====
-- tcp_client.cc: how many connections a client makes.
use m_server.Prelude.{
  ℕ, suc, ◌≤◌, ◌≡◌, refl, List, [], ◌∷◌, none, some, inl, inr, aborted, ◌⊎◌, length, length-append,
  length-set, Result-cases, Option-cases, get_elem?, ok, err, Ensures, Ensures-ok, arith,
}
use m_server.Buffer.{Buffer}
use m_server.Connector
use m_server.Connector.Handover.{HandedOnce, step-HandedOnce, step-handed}
use m_server.Connection.{Connection}
use m_server.Connection
use m_server.Connection.Events
use m_server.Client.{
  TcpClient, new, UserCallbacks, callbacks, handle_new_sock, close_connection, Event,
  connector_event, connection_event, connector_step, connection_step, step, run,
}

-- The connections made are as many as the sockets handed over, one at most, and `connection_` is null
-- or one of them.
pub record IsSession (c : TcpClient) : Type 0 where
  pub once : HandedOnce c.connector
  pub made : length c.connections ≡ c.connector.handed
  pub named : length c.names ≡ c.connector.handed
  pub current : (c.connection ≡ none) ⊎ (c.connection ≡ some 0)

connector_step-IsSession :
    (user : UserCallbacks) (buffer : Buffer) (e : Connector.Event) (c : TcpClient)
    → IsSession c
    → Ensures IsSession (connector_step user buffer e c)
unfolding connector_step handle_new_sock
connector_step-IsSession user buffer e c v = elim (Result-cases (Connector.step e c.connector)) [
  | inl (k, eq) ↦
      let once =
        Ensures-ok HandedOnce (Connector.step e c.connector) eq
          (step-HandedOnce e c.connector v.once) in
      let grows =
        Ensures-ok
          (λ (d : Connector.Connector).
            (d.handed ≡ c.connector.handed) ⊎ (d.handed ≡ suc c.connector.handed))
          (Connector.step e c.connector) eq (step-handed e c.connector) in
      let x = Connection.new (callbacks user) buffer in
      ground (
        arith,
        eq,
        once,
        grows,
        length-append c.connections (x ∷ []),
        length-append c.names (c.connection_idx ∷ []),
      )
  | inr (f, eq) ↦ ground (arith, eq)
]

connection_step-IsSession :
    (i : ℕ) (e : Connection.Events.Event) (c : TcpClient)
    → IsSession c
    → Ensures IsSession (connection_step i e c)
unfolding connection_step close_connection
connection_step-IsSession i e c v = elim (Option-cases (get_elem? c.connections i)) [
  | inl none_there ↦ ground arith
  | inr (old, at) ↦ elim (Result-cases (Connection.Events.step e old)) [
    | inl (x, eq) ↦ ground (arith, length-set c.connections i x)
    | inr (f, eq) ↦ ground arith
  ]
]

step-IsSession :
    (user : UserCallbacks) (buffer : Buffer) (e : Event) (c : TcpClient)
    → IsSession c
    → Ensures IsSession (step user buffer e c)
unfolding step
step-IsSession user buffer (connector_event e) c v = connector_step-IsSession user buffer e c v
step-IsSession user buffer (connection_event i e) c v = connection_step-IsSession i e c v

run-IsSession :
    (user : UserCallbacks) (buffer : Buffer) (es : List Event) (c : TcpClient)
    → IsSession c
    → Ensures IsSession (run user buffer es c)
unfolding run
run-IsSession user buffer [] c v = v
run-IsSession user buffer (e ∷ es) c v = elim (Result-cases (step user buffer e c)) [
  | inl (d, eq) ↦ rw eq (
      run-IsSession user buffer es d
        (Ensures-ok IsSession (step user buffer e c) eq (step-IsSession user buffer e c v)))
  | inr f ↦ rw f.1 tt
]

-- Whatever run of events a new client returns from, it has made one connection at most, exactly as
-- many as its connector handed sockets over, and the connection that it keeps is that one or none.
pub run_connections :
    (user : UserCallbacks) (buffer : Buffer) (garbage : ℕ) (es : List Event) (c : TcpClient)
    → run user buffer es (new garbage) ≡ ok c
    → (length c.connections ≡ c.connector.handed)
      × (c.connector.handed ≤ 1)
      × ((c.connection ≡ none) ⊎ (c.connection ≡ some 0))
run_connections user buffer garbage es c e =
    let v = Ensures-ok IsSession (run user buffer es (new garbage)) e (
      run-IsSession user buffer es (new garbage)
        (record { once = inl refl; made = refl; named = refl; current = inl refl })) in
    (v.made, ground (arith, v.once), v.current)

-- Once a connection was closed the client keeps none, so that closing it, or another, again fails
-- the `assert`.
pub close_connection_twice :
    (i j : ℕ) (c d : TcpClient)
    → close_connection i c ≡ ok d
    → (c.connection ≡ some i) × (close_connection j d ≡ err aborted)
unfolding close_connection
close_connection_twice i j c d e = (ground arith, ground arith)
