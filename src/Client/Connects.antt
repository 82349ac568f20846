-- ===== src/Client/Connects.antt =====
-- tcp_client.cc with connector.cc and tcp_connection.cc: a client from its attempts to the end of its
-- connection.
use m_server.Prelude.{
  ℕ, suc, ◌≤◌, ◌≡◌, refl, sym, ap, ◌∙◌, List, [], ◌∷◌, ◌++◌, map, length, Option, none, some, true,
  false, inl, inr, Result-cases, Bool-cases, if◌then◌else◌, Result, ok, err, bad_function_call,
  ◌>>=◌, Ensures-ok, arith, ◌⊎◌, ltb,
}
use m_server.Buffer.{Buffer}
use m_server.Connector.{Answer}
use m_server.Connector
use m_server.Connector.Handover.{is_accepted, step-handed}
use m_server.Connector.Attempts.{Failure, attempts, run-waiting}
use m_server.Connection.{Connection, State, Callbacks, connected, disconnected}
use m_server.Connection.Closing.{closings}
use m_server.Connection.Early.{
  opened, hung_up, gone, new-established, opened-close, hung_up-destroyed, hung_up-closings,
}
use m_server.Connection
use m_server.Connection.Events.{established, closed, destroyed}
use m_server.Client.{
  TcpClient, new, UserCallbacks, callbacks, handle_new_sock, close_connection, Event,
  connector_event, connection_event, connector_step, connection_step, step, run,
}

bind_ok {ℓ} : {A : Type ℓ} (r : Result A) → (r >>= λ x. ok x) ≡ r
bind_ok (ok a) = refl
bind_ok (err e) = refl

-- The step that begins a run which returns, and the rest of it.
run-first :
    (e : Connector.Event) (es : List Connector.Event) (k d : Connector.Connector)
    → Connector.run (e ∷ es) k ≡ ok d
    → (j : Connector.Connector) × (Connector.step e k ≡ ok j)
      × (Connector.run es j ≡ ok d)
      × ((j.handed ≡ k.handed) ⊎ (j.handed ≡ suc k.handed))
unfolding Connector.run
run-first e es k d ran = elim (Result-cases (Connector.step e k)) [
  | inl (j, eq) ↦ (
    j,
    eq,
    sym (ap (λ r. r >>= Connector.run es) eq) ∙ ran,
    Ensures-ok (λ (x : Connector.Connector). (x.handed ≡ k.handed) ⊎ (x.handed ≡ suc k.handed))
        (Connector.step e k) eq (step-handed e k),
  )
  | inr (f, eq) ↦ absurd (ground (arith, eq, ran))
]

run-handed_le :
    (es : List Connector.Event) (k d : Connector.Connector)
    → Connector.run es k ≡ ok d
    → k.handed ≤ d.handed
unfolding Connector.run
run-handed_le [] k d ran = ground (arith, ran)
run-handed_le (e ∷ es) k d ran =
    let (j, eq, rest, grows) = run-first e es k d ran in
    ground (arith, grows, run-handed_le es j d rest)

-- The events of the attempts of a client.
abbrev pub attempted : List Failure → Answer → List Event → List Event
attempted fs a rest =
    map connector_event (attempts fs (Connector.connect a ∷ []))
    ++ connector_event (Connector.writeable 0) ∷ rest

-- What the client is left with: its one connection, in this state, with the number that it was given.
pub record Keeps (garbage : ℕ) (current : Option ℕ) (state : State) (c : TcpClient) : Type 0 where
  pub one : (x : Connection) × (c.connections ≡ x ∷ []) × (x.state ≡ state)
  pub current_is : c.connection ≡ current
  pub named : c.names ≡ garbage ∷ []

module _ (user : UserCallbacks) (buffer : Buffer) where
  -- The client while its connector hands over no socket, and where it hands over one last.
  run-connector :
      (es : List Connector.Event) (rest : List Event) (c : TcpClient) (k : Connector.Connector)
      → Connector.run es c.connector ≡ ok k
      → k.handed ≡ c.connector.handed
      → run user buffer (map connector_event es ++ rest) c
        ≡ run user buffer rest (record c { connector = k })
  unfolding run step connector_step Connector.run
  run-connector [] rest c k ran same =
      ap (λ r. r >>= λ k'. run user buffer rest (record c { connector = k' })) ran
  run-connector (e ∷ es) rest c k ran same =
      let (j, eq, after, grows) = run-first e es c.connector k ran in
      let le = run-handed_le es j k after in
      let still : j.handed ≡ c.connector.handed = ground (arith, grows, le, same) in
      let not_yet : ltb c.connector.handed j.handed ≡ false = ground (arith, still) in
      rw eq
        (rw not_yet (run-connector es rest (record c { connector = j }) k after (same ∙ sym still)))

  run-attempted :
      (garbage : ℕ) (fs : List Failure) (a : Answer)
      → is_accepted a ≡ true
      → (k : Connector.Connector) × (k.leaked ≡ length fs)
        × ((rest : List Event)
            → run user buffer (attempted fs a rest) (new garbage)
              ≡ run user buffer rest
                  (handle_new_sock user buffer (record (new garbage) { connector = k })))
  unfolding run step connector_step Connector.step
  run-attempted garbage fs a acc =
      let (k, d, e, z, g, h, t, r, l) = run-waiting fs a acc in
      let more : ltb k.handed d.handed ≡ true = ground (arith, z, h) in
      (
        d,
        l,
        λ rest.
            run-connector (attempts fs (Connector.connect a ∷ []))
              (connector_event (Connector.writeable 0) ∷ rest) (new garbage) k e z
            ∙ rw g (rw more refl),
      )

  -- The client whose connection is this one.
  abbrev client : ℕ → Connector.Connector → Option ℕ → Connection → TcpClient
  client garbage k current x = record {
    connector = k;
    connection = current;
    connections = x ∷ [];
    names = garbage ∷ [];
    connection_idx = suc garbage;
  }

  abbrev cbs : Callbacks
  cbs = callbacks user

  handed :
      (garbage : ℕ) (k : Connector.Connector)
      → handle_new_sock user buffer (record (new garbage) { connector = k })
        ≡ client garbage k (some 0) (Connection.new cbs buffer)
  unfolding handle_new_sock
  handed garbage k = refl

  on_established :
      (garbage : ℕ) (k : Connector.Connector)
      → connection_step 0 established (client garbage k (some 0) (Connection.new cbs buffer))
        ≡ ok (client garbage k (some 0) (opened cbs buffer))
  unfolding connection_step Connection.Events.step closings
  on_established garbage k = ground (arith, new-established cbs buffer, hung_up-closings cbs buffer)

  on_closed :
      (garbage : ℕ) (k : Connector.Connector)
      → connection_step 0 closed (client garbage k (some 0) (opened cbs buffer))
        ≡ ok (client garbage k none (hung_up cbs buffer))
  unfolding connection_step Connection.Events.step closings close_connection
  on_closed garbage k = ground (arith, opened-close cbs buffer refl, hung_up-closings cbs buffer)

  on_destroyed :
      (garbage : ℕ) (k : Connector.Connector)
      → connection_step 0 destroyed (client garbage k none (hung_up cbs buffer)) ≡ (
          if user.conn_cb
          then ok (client garbage k none (gone cbs buffer))
          else err bad_function_call)
  unfolding connection_step Connection.Events.step closings
  on_destroyed garbage k = elim (Bool-cases user.conn_cb) [
    | inl h ↦ ground (arith, h, hung_up-destroyed cbs buffer)
    | inr h ↦ ground (arith, h, hung_up-destroyed cbs buffer)
  ]

  -- A new client of which any number of attempts fail, each at once or later, before one that the
  -- kernel accepts and whose socket becomes writeable without an error, has one connection, which is
  -- `connected` once its functor has run and bears the number that the memory of the client held; one
  -- descriptor is leaked for each attempt that failed. When the peer then closes, the client keeps no
  -- connection, and the connection's destruction returns if the user has set a connection callback,
  -- and throws std::bad_function_call if not.
  pub run-life :
      (garbage : ℕ) (fs : List Failure) (a : Answer)
      → is_accepted a ≡ true
      → let begun = connection_event 0 established in
        let ended = begun ∷ connection_event 0 closed ∷ connection_event 0 destroyed ∷ [] in
        (d d' : TcpClient) × (run user buffer (attempted fs a (begun ∷ [])) (new garbage) ≡ ok d)
        × Keeps garbage (some 0) connected d
        × (d.connector.leaked ≡ length fs)
        × (run user buffer (attempted fs a ended) (new garbage)
            ≡ (if user.conn_cb then ok d' else err bad_function_call))
        × Keeps garbage none disconnected d'
  unfolding run step
  run-life garbage fs a acc =
      let begun = connection_event 0 established in
      let over = connection_event 0 closed ∷ connection_event 0 destroyed ∷ [] in
      let (k, l, e) = run-attempted garbage fs a acc in
      let starts = handed garbage k in
      let on = on_established garbage k in
      let off = on_closed garbage k in
      let end = on_destroyed garbage k in
      (
        client garbage k (some 0) (opened cbs buffer),
        client garbage k none (gone cbs buffer),
        e (begun ∷ []) ∙ rw starts (rw on refl),
        record { one = (opened cbs buffer, refl, refl); current_is = refl; named = refl },
        l,
        e (begun ∷ over)
            ∙ rw starts (
                rw on (
                  rw off (
                    rw end (
                      bind_ok (
                        if user.conn_cb
                        then ok (client garbage k none (gone cbs buffer))
                        else err bad_function_call))))),
        record { one = (gone cbs buffer, refl, refl); current_is = refl; named = refl },
      )
