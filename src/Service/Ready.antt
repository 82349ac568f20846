-- ===== src/Service/Ready.antt =====
-- tcp_server.cc and tcp_connection.cc: what the functors that wait need of their connections.
pub mod Steps
pub mod Made
pub mod Functors
use m_server.Prelude.{
  update, update_same, update_other, ℕ, suc, ◌+◌, ◌-◌, ◌≤◌, ◌<◌, ◌≡◌, ◌^◌, refl, sym, ap, ◌∙◌,
  subst, List, [], ◌∷◌, ◌++◌, Option, some, none, Bool, true, false, ◌==◌, ==_iff, ◌⊎◌, inl, inr,
  get_elem?, remove_at, Option-cases, Bool-cases, Result, Result-cases, ok, err, Ensures,
  Ensures-ok, arith,
}
use m_server.Buffer.{Buffer, Readv}
use m_server.Polling.Mask.{Mask, any}
use m_server.Connection.{
  Connection, Written, connecting, connection_estabalished, connection_destroyed, handle_read,
  handle_write, handle_close, handle_error,
}
use m_server.Connection.Events
use m_server.Connection.Closing.{IsUse, Closed}
use m_server.Connection.Setters.{set_connection_callback, set_message_callback, set_close_callback}
use m_server.Connection.Early.{
  Fresh, use-Fresh, Sets, connection_estabalished-Sets, connection_destroyed-Sets,
  handle_close-Sets, handle_read-Sets, handle_write-Sets, use-Sets,
}
use m_server.Polling.Handle.{Callback, read, write, close}
use m_server.Polling.Handle
use m_server.Server.{TcpServer, register_connection, remove_connection_in_loop}
use m_server.Server.Pool.{get_next_loop}
use m_server.Service.{
  Functor, establish, retire, removal, Service, Event, registered, polled, used, functor_runs, made,
  register, called, handler, handlers, closes, remove_connection, remove_in_loop, polling,
  use_connection, retire_in_loop, run_functor, run_at, step, run,
}
use m_server.Service.Pending.{total, total-append, total-remove_at, retires, establishes}
use m_server.Service.Steps.{total-left}
use m_server.Service.Closes.{IsReport}
use m_server.Service.Runs.{Possible, Allowed}

-- `a` functors establish this connection: none, or one and it is not established yet.
abbrev pub Early : Connection → ℕ → ℕ → ℕ → Type 0
Early c a next n = (a ≡ 0) ⊎ ((a ≡ 1) × (Fresh c × (n < next)))

module _ (connection_cb : Bool) where
  abbrev pub At : Connection → ℕ → ℕ → ℕ → Type 0
  At c a next n = Early c a next n × (0 < n → n < next → Sets connection_cb c)

  pub record Ready {ℓ} {Name : Type ℓ} (w : Service Name) : Type ℓ where
    pub at : (n : ℕ) → At (w.objects n) (total (establishes n) w.pending) w.server.next_conn_id n
    pub named : total (retires 0) w.pending ≡ 0

-- Other fields, and functors of other kinds, do not matter.
pub At-of :
    {b : Bool} {c d : Connection} {a₁ a₂ next₁ next₂ n : ℕ}
    → d ≡ c
    → a₂ ≡ a₁
    → next₂ ≡ next₁
    → At b c a₁ next₁ n
    → At b d a₂ next₂ n
At-of o a e h = rw (o, a, e) h

module _ (b : Bool) (got : Readv) (consume : Buffer → Result Buffer) (answer : Written) where
  pub handlers-Sets :
      (cbs : List Callback) (c : Connection)
      → Sets b c
      → Ensures (Sets b) (handlers got consume answer cbs c)
  unfolding handlers handler handle_error
  handlers-Sets [] c h = h
  handlers-Sets (Handle.err ∷ cbs) c h = handlers-Sets cbs c h
  handlers-Sets (write ∷ cbs) c h = elim (Result-cases (handle_write answer c)) [
    | inl (d, e) ↦ rw e (
        handlers-Sets cbs d
          (Ensures-ok (Sets b) (handle_write answer c) e (handle_write-Sets b answer c h)))
    | inr (f, e) ↦ rw e tt
  ]
  handlers-Sets (close ∷ cbs) c h = elim (Result-cases (handle_close c)) [
    | inl (d, e) ↦
        rw e
          (handlers-Sets cbs d (Ensures-ok (Sets b) (handle_close c) e (handle_close-Sets b c h)))
    | inr (f, e) ↦ rw e tt
  ]
  handlers-Sets (read ∷ cbs) c h = elim (Result-cases (handle_read got consume c)) [
    | inl (d, e) ↦ rw e (
        handlers-Sets cbs d
          (Ensures-ok (Sets b) (handle_read got consume c) e (handle_read-Sets b got consume c h)))
    | inr (f, e) ↦ rw e tt
  ]
