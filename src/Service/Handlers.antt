-- ===== src/Service/Handlers.antt =====
-- poll_handle.cc and tcp_connection.cc: the handlers that one report of poll(2) leads to.
use m_server.Prelude.{
  ℕ, zero, suc, ◌+◌, ◌≤◌, ◌≡◌, refl, List, [], ◌∷◌, Result, ok, Result-cases, inl, inr, Ensures,
  Ensures-ok, ◌>>=◌, arith,
}
use m_server.Buffer.{Buffer, Readv}
use m_server.Polling.Handle.{Callback, read, write, close}
use m_server.Polling.Handle
use m_server.Connection.{Connection, Written, handle_read, handle_write, handle_close, handle_error}
use m_server.Connection.Closing.{
  Closed, Shut, OpenOrShut, handle_close-Shut, handle_read-OpenOrShut, handle_write-Shut,
  handle_write-Closed,
}
use m_server.Service.{handler, handlers}

-- How many of the callbacks can close a connection.
abbrev pub closers : List Callback → ℕ
closers [] = 0
closers (read ∷ cbs) = suc (closers cbs)
closers (close ∷ cbs) = suc (closers cbs)
closers (write ∷ cbs) = closers cbs
closers (Handle.err ∷ cbs) = closers cbs

weaken : (r : Result Connection) → Ensures Shut r → Ensures OpenOrShut r
weaken (ok c) h = inr h
weaken (m_server.Prelude.err f) h = tt

module _ (got : Readv) (consume : Buffer → Result Buffer) (answer : Written) where
  handlers-Shut :
      (cbs : List Callback) (c : Connection)
      → closers cbs ≡ 0
      → Shut c
      → Ensures Shut (handlers got consume answer cbs c)
  unfolding handlers handler handle_error
  handlers-Shut [] c none h = h
  handlers-Shut (read ∷ cbs) c none h = absurd (omega arith)
  handlers-Shut (close ∷ cbs) c none h = absurd (omega arith)
  handlers-Shut (Handle.err ∷ cbs) c none h = handlers-Shut cbs c none h
  handlers-Shut (write ∷ cbs) c none h = elim (Result-cases (handle_write answer c)) [
    | inl (d, e) ↦ rw e (
        handlers-Shut cbs d none
          (Ensures-ok Shut (handle_write answer c) e (handle_write-Shut answer c h)))
    | inr (f, e) ↦ rw e tt
  ]

  -- A report with one callback at most that can close the connection leaves it open, or closed once.
  pub handlers-OpenOrShut :
      (cbs : List Callback) (c : Connection)
      → closers cbs ≤ 1
      → Closed 0 c
      → Ensures OpenOrShut (handlers got consume answer cbs c)
  unfolding handlers handler handle_error
  handlers-OpenOrShut [] c one h = inl h
  handlers-OpenOrShut (Handle.err ∷ cbs) c one h = handlers-OpenOrShut cbs c one h
  handlers-OpenOrShut (write ∷ cbs) c one h = elim (Result-cases (handle_write answer c)) [
    | inl (d, e) ↦ rw e (
        handlers-OpenOrShut cbs d one
          (Ensures-ok (Closed 0) (handle_write answer c) e (handle_write-Closed 0 answer c h)))
    | inr (f, e) ↦ rw e tt
  ]
  handlers-OpenOrShut (close ∷ cbs) c one h = elim (Result-cases (handle_close c)) [
    | inl (d, e) ↦ rw e (
        weaken (handlers got consume answer cbs d) (
          handlers-Shut cbs d (omega arith)
            (Ensures-ok Shut (handle_close c) e (handle_close-Shut c h))))
    | inr (f, e) ↦ rw e tt
  ]
  handlers-OpenOrShut (read ∷ cbs) c one h = elim (Result-cases (handle_read got consume c)) [
    | inl (d, e) ↦
        rw e
          (elim (Ensures-ok OpenOrShut (handle_read got consume c) e
            (handle_read-OpenOrShut got consume c h)) [
              | inl opened ↦ handlers-OpenOrShut cbs d (omega arith) opened
              | inr shut ↦
                  weaken (handlers got consume answer cbs d)
                    (handlers-Shut cbs d (omega arith) shut)
            ])
    | inr (f, e) ↦ rw e tt
  ]
