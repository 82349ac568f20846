-- ===== src/Reactor/Round.antt =====
-- event_loop.cc: what a round of the loop calls.
use m_server.Prelude.{ℕ, List, [], ◌∷◌, ◌++◌}
use m_server.Polling.Mask.{Mask}
use m_server.Polling.Handle.{Callback}
use m_server.Polling.Spoller.{Spoller}
use m_server.Reactor.{Reactor, Environment}
use m_server.Reactor.Follows.{callbacks, those, Follows, IsApplication, logged}

module _ (env : Environment) (v : IsApplication env.app) where
  -- The calls of the application's handlers for these descriptors.
  pub called : List ℕ → Reactor → List (ℕ × Callback)
  called [] r = []
  called (fd ∷ fds) r = logged fd (those (callbacks fd r.spoller)) r ++ called fds r
