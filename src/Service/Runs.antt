-- ===== src/Service/Runs.antt =====
-- tcp_server.cc with its connections: whole runs.
use m_server.Prelude.{
  ℕ, ◌-◌, ◌<◌, ◌≡◌, ◌^◌, List, [], ◌∷◌, get_elem?, Bool, inl, inr, Result-cases, ok, Ensures,
  Ensures-ok, arith,
}
use m_server.Buffer.{Buffer}
use m_server.Connection.Events
use m_server.Connection.Events.{
  sent, shotdown_called, established, destroyed, closed, errored, shotdown_queued, sent_queued,
  readable, writeable,
}
use m_server.Connection.Closing.{Closed}
use m_server.Server.Connections.{Naming}
use m_server.Service.{Service}
use m_server.Service.Invariant.{Good}
use m_server.Connection.Closing.{IsUse}
use m_server.Service.{Event, registered, polled, used, functor_runs, post_runs, step, run}
use m_server.Service.Steps.{register-Good}
use m_server.Service.Functors.{run_at-Good}
use m_server.Service.Closes.{IsReport, IsOpenFor, polling-Good, use_connection-Good, run_post-Good}

-- A call of the application, in the connection's thread or in another one.
abbrev pub IsCall : Events.Event → Type 0
IsCall (sent in_loop_thread answer msg len) = Unit
IsCall (shotdown_called in_loop_thread) = Unit
IsCall e = ⊥

pub IsCall-IsUse : (e : Events.Event) → IsCall e → IsUse e
IsCall-IsUse (sent in_loop_thread answer msg len) u = tt
IsCall-IsUse (shotdown_called in_loop_thread) u = tt
IsCall-IsUse established u = absurd u
IsCall-IsUse destroyed u = absurd u
IsCall-IsUse closed u = absurd u
IsCall-IsUse errored u = absurd u
IsCall-IsUse shotdown_queued u = absurd u
IsCall-IsUse (sent_queued answer msg len) u = absurd u
IsCall-IsUse (readable got consume) u = absurd u
IsCall-IsUse (writeable answer) u = absurd u

-- What is asked of an event: the `int` of the numbers is not exhausted; a report is one that poll(2)
-- can make; the application calls only connections that are not closed, and so do the functors that
-- its calls leave.
abbrev pub Possible {ℓ} : {Name : Type ℓ} → Event → Service Name → Type 0
Possible (registered sock) w = w.server.next_conn_id < 2 ^ 31 - 1
Possible (polled i revents got consume answer) w = IsReport i revents w
Possible (used i e) w = IsCall e × Closed 0 (w.objects i)
Possible (functor_runs j) w = Unit
Possible (post_runs j answer) w = IsOpenFor (get_elem? w.posts j) w

module _ {ℓ} {Name : Type ℓ} (conn_name : ℕ → Name) (same : Name → Name → Bool)
    (connection_cb message_cb : Bool) (buffer : Buffer) where
  abbrev pub Allowed : List Event → Service Name → Type 0
  Allowed [] w = Unit
  Allowed (e ∷ es) w =
      Possible e w × Ensures (Allowed es) (step conn_name same connection_cb message_cb buffer e w)

  module _ (naming : Naming conn_name same) where
    step-Good :
        (e : Event) (w : Service Name)
        → Good conn_name w
        → Possible e w
        → Ensures (Good conn_name) (step conn_name same connection_cb message_cb buffer e w)
    unfolding step
    step-Good (registered sock) w (l, inv) p =
        register-Good conn_name same connection_cb message_cb buffer naming sock w l inv
          (omega (arith, p, inv.shows.next_is))
    step-Good (polled i revents got consume answer) w (l, inv) p =
        polling-Good conn_name same connection_cb message_cb buffer naming i revents got consume
          answer w l inv p
    step-Good (used i e) w (l, inv) p =
        use_connection-Good conn_name same connection_cb message_cb buffer naming i e w l inv
          (IsCall-IsUse e p.0) p.1
    step-Good (functor_runs j) w (l, inv) p =
        run_at-Good conn_name same connection_cb message_cb buffer naming j w l inv
    step-Good (post_runs j answer) w g p =
        run_post-Good conn_name same connection_cb message_cb buffer naming j answer w g p

    Good-run :
        (es : List Event) (w : Service Name)
        → Good conn_name w
        → Allowed es w
        → Ensures (Good conn_name) (run conn_name same connection_cb message_cb buffer es w)
    unfolding run
    Good-run [] w g a = g
    Good-run (e ∷ es) w g a =
        let s = step conn_name same connection_cb message_cb buffer e w in
        elim (Result-cases s) [
          | inl (d, f) ↦ rw f (
              Good-run es d (Ensures-ok (Good conn_name) s f (step-Good e w g a.0))
                (Ensures-ok (Allowed es) s f a.1))
          | inr (x, f) ↦ rw f tt
        ]

    pub run-Good :
        (es : List Event) (w d : Service Name)
        → Good conn_name w
        → Allowed es w
        → run conn_name same connection_cb message_cb buffer es w ≡ ok d
        → Good conn_name d
    run-Good es w d g a e =
        Ensures-ok (Good conn_name) (run conn_name same connection_cb message_cb buffer es w) e
          (Good-run es w g a)
