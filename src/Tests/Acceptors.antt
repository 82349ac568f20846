-- ===== src/Tests/Acceptors.antt =====
-- Runs of the acceptor of src/net/source/acceptor.cc.
use m_server.Prelude.{ℕ, ◌≡◌, refl, List, [], ◌∷◌, some, false, ok, arith}
use m_server.Polling.Handle.{changed}
use m_server.Socket.{accept, value, connection, refused, eagain}
use m_server.Server.Accepting.{Event, starts, readable, construct, destroy, step, run}
use m_server.Server.Accepting.Calls.{phase_of, closed, Allowed, constructed, calls-ordered}

-- Two starts, a connection that nothing takes, and an `accept4` that finds none. An address is its
-- number.
abbrev events : List (Event ℕ)
events =
    starts (value 0)
    ∷ starts (value 0)
    ∷ readable (connection 5) 9
    ∷ readable (refused eagain) 9
    ∷ []

events-Allowed : Allowed 3 events (constructed 3 80 false)
unfolding step changed accept
events-Allowed = (tt, (tt, ((refl, λ e. omega (arith, e)), (refl, tt))))

calls-ordered_example :
    (construct {Address = ℕ} (some 3) (value 0) 80 false ≡ ok (constructed 3 80 false))
    × (phase_of 3 (destroy (run events (constructed 3 80 false))) ≡ some closed)
calls-ordered_example = calls-ordered 3 (value 0) 80 false events (omega arith) events-Allowed
