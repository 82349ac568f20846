-- ===== src/Connection/Life.antt =====
-- tcp_connection.cc: the state of a connection along runs of its operations.
use m_server.Prelude.{
  ℕ, length, ◌≤◌, ◌≡◌, List, take, [], ◌∷◌, ◌++◌, inl, inr, Result-cases, ok, err, Ensures,
  Ensures-ok, aborted, arith,
}
use m_server.Buffer.{peek}
use m_server.Polling.Handle.{Change}
use m_server.Connection.{
  State, connecting, connected, disconnecting, disconnected, Connection, Written, taken,
  connection_estabalished, connection_destroyed, keep_rest, send_rest, send_in_loop, send,
  shotdown_in_loop, shotdown, handle_close, handle_error, handle_read, handle_write, deliver,
  finish_writing, after_write, change, note, note_if, must_note,
}
use m_server.Connection.Events.{
  Event, established, destroyed, closed, errored, shotdown_queued, sent, sent_queued,
  shotdown_called, readable, writeable, step, run,
}

-- The order in which a connection goes through its states.
abbrev pub rank : State → ℕ
rank connecting = 0
rank connected = 1
rank disconnecting = 2
rank disconnected = 3

-- The state is not before `s`.
abbrev pub From : State → Connection → Type 0
From s c = rank s ≤ rank c.state

module _ (s : State) where
  change-From : (ch : Change) (c : Connection) → From s c → Ensures (From s) (change ch c)
  unfolding change
  change-From ch c h = ground arith

  after_write-From : (n : ℕ) (c : Connection) → From s c → Ensures (From s) (after_write n c)
  unfolding after_write finish_writing shotdown_in_loop note_if note change
  after_write-From n c h = ground arith

  send_in_loop-From :
      (a : Written) (msg : List ℕ) (n : ℕ) (c : Connection)
      → From s c
      → Ensures (From s) (send_in_loop a msg n c)
  unfolding send_in_loop send_rest keep_rest note_if note change
  send_in_loop-From a msg n c h = ground arith

  step-From : (e : Event) (c : Connection) → From s c → Ensures (From s) (step e c)
  unfolding step connection_estabalished connection_destroyed send handle_close handle_error
      shotdown shotdown_in_loop handle_read deliver handle_write change must_note note_if note
  step-From established c h = ground arith
  step-From destroyed c h = ground arith
  step-From closed c h = ground arith
  step-From errored c h = ground arith
  step-From shotdown_queued c h = ground arith
  step-From (sent i a msg n) c h =
      ground (arith, send_in_loop-From a msg n c, send_in_loop-From a msg (length msg) c)
  step-From (sent_queued a msg n) c h = ground (arith, send_in_loop-From a msg n c)
  step-From (shotdown_called i) c h = ground arith
  step-From (readable got consume) c h = ground arith
  step-From (writeable a) c h = ground (
    arith,
    after_write-From (taken a) (record c { sent = c.sent ++ take (taken a) (peek c.oup_buffer) }),
  )

run-From : (s : State) (es : List Event) (c : Connection) → From s c → Ensures (From s) (run es c)
unfolding run
run-From s [] c h = h
run-From s (e ∷ es) c h = elim (Result-cases (step e c)) [
  | inl (d, eq) ↦ rw eq (run-From s es d (Ensures-ok (From s) (step e c) eq (step-From s e c h)))
  | inr f ↦ rw f.1 tt
]

-- Whatever run of its operations a connection returns from, its state is not before the one it
-- started in, in the order connecting, connected, disconnecting, disconnected.
pub run-state : (es : List Event) (c d : Connection) → run es c ≡ ok d → rank c.state ≤ rank d.state
run-state es c d e = Ensures-ok (From c.state) (run es c) e (run-From c.state es c (omega arith))

-- `connection_estabalished` returns at most once: after it has, a later call aborts, whatever ran
-- in between.
pub connection_estabalished_once :
    (es : List Event) (b c d : Connection)
    → connection_estabalished b ≡ ok c
    → run es c ≡ ok d
    → connection_estabalished d ≡ err aborted
unfolding connection_estabalished note_if note change
connection_estabalished_once es b c d e h = let r = run-state es c d h in ground arith
