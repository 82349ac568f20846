-- ===== src/Connection/Early.antt =====
-- tcp_connection.cc: a connection that is not established yet, and the callbacks that are set.
use m_server.Prelude.{
  ◌≡◌, List, [], ◌∷◌, ◌++◌, none, some, err, bad_function_call, if◌then◌else◌, Bool, true, Result,
  Result-cases, inl, inr, ok, Ensures, arith,
}
use m_server.Buffer.{Buffer, Readv}
use m_server.Polling.Mask.{event_none}
use m_server.Polling.Handle.{changed, enable_reading, disable_all}
use m_server.Connection.{
  connecting, connected, disconnected, Callbacks, Notice, connection_cb, close_cb, queue_destroyed,
  new, Connection, Written, connection_estabalished, connection_destroyed, keep_rest, send_rest,
  send_in_loop, send, shotdown_in_loop, shotdown, handle_close, handle_read, handle_write,
  finish_writing, after_write, deliver, change, note, note_if, must_note,
}
use m_server.Connection.Events.{
  Event, established, destroyed, closed, errored, shotdown_queued, sent, sent_queued,
  shotdown_called, readable, writeable, step,
}
use m_server.Connection.Closing.{IsUse, Shut, closings}

-- Its functor has still to run.
pub record Fresh (c : Connection) : Type 0 where
  pub early : c.state ≡ connecting
  pub unregistered : c.events ≡ none

-- What the application calls does nothing to it, or fails.
pub use-Fresh : (e : Event) (c : Connection) → IsUse e → Fresh c → Ensures Fresh (step e c)
unfolding step send shotdown shotdown_in_loop send_in_loop
use-Fresh shotdown_queued c u h = ground (arith, h)
use-Fresh (sent i a msg n) c u h = ground (arith, h)
use-Fresh (sent_queued a msg n) c u h = ground (arith, h)
use-Fresh (shotdown_called i) c u h = ground (arith, h)
use-Fresh established c u h = absurd u
use-Fresh destroyed c u h = absurd u
use-Fresh closed c u h = absurd u
use-Fresh errored c u h = absurd u
use-Fresh (readable got consume) c u h = absurd u
use-Fresh (writeable a) c u h = absurd u

-- Its functor returns.
pub connection_estabalished_returns :
    (c : Connection) → c.state ≡ connecting → (d : Connection) × (connection_estabalished c ≡ ok d)
unfolding connection_estabalished change
connection_estabalished_returns c e = elim (Result-cases (connection_estabalished c)) [
  | inl d ↦ d
  | inr (f, g) ↦ absurd (ground (arith, e, g))
]

-- Where the connection callback is set, so does that of a connection that was closed.
pub connection_destroyed_calls :
    (c : Connection)
    → Shut c
    → c.set.connection ≡ true
    → (d : Connection) × (connection_destroyed c ≡ ok d)
unfolding connection_destroyed must_note
connection_destroyed_calls c h e = elim (Result-cases (connection_destroyed c)) [
  | inl d ↦ d
  | inr (f, g) ↦ absurd (ground (arith, e, g, h.still))
]

module _ (b : Bool) where
  -- Whether the connection callback is set.
  abbrev pub Sets : Connection → Type 0
  Sets c = c.set.connection ≡ b

  pub connection_estabalished-Sets :
      (c : Connection) → Sets c → Ensures Sets (connection_estabalished c)
  unfolding connection_estabalished note_if note change
  connection_estabalished-Sets c h = ground arith

  pub connection_destroyed-Sets : (c : Connection) → Sets c → Ensures Sets (connection_destroyed c)
  unfolding connection_destroyed must_note note
  connection_destroyed-Sets c h = ground arith

  pub handle_close-Sets : (c : Connection) → Sets c → Ensures Sets (handle_close c)
  unfolding handle_close change must_note note
  handle_close-Sets c h = ground arith

  pub handle_read-Sets :
      (got : Readv) (consume : Buffer → Result Buffer) (c : Connection)
      → Sets c
      → Ensures Sets (handle_read got consume c)
  unfolding handle_read handle_close deliver change must_note note
  handle_read-Sets got consume c h = ground arith

  pub handle_write-Sets : (a : Written) (c : Connection) → Sets c → Ensures Sets (handle_write a c)
  unfolding handle_write after_write finish_writing shotdown_in_loop note_if note change
  handle_write-Sets a c h = ground arith

  pub use-Sets : (e : Event) (c : Connection) → IsUse e → Sets c → Ensures Sets (step e c)
  unfolding step send shotdown shotdown_in_loop send_in_loop send_rest keep_rest note_if note change
  use-Sets shotdown_queued c u h = ground arith
  use-Sets (sent i a msg n) c u h = ground arith
  use-Sets (sent_queued a msg n) c u h = ground arith
  use-Sets (shotdown_called i) c u h = ground arith
  use-Sets established c u h = absurd u
  use-Sets destroyed c u h = absurd u
  use-Sets closed c u h = absurd u
  use-Sets errored c u h = absurd u
  use-Sets (readable got consume) c u h = absurd u
  use-Sets (writeable a) c u h = absurd u

-- A new connection that is established, closed and destroyed, nothing else happening.
module _ (set : Callbacks) (buffer : Buffer) where
  abbrev greeted : List Notice
  greeted = if set.connection then connection_cb ∷ [] else []

  abbrev pub opened : Connection
  opened = record (new set buffer) {
    state = connected;
    events = some (changed enable_reading event_none);
    notices = greeted;
  }

  abbrev pub hung_up : Connection
  hung_up = record opened {
    events = some (changed disable_all (changed enable_reading event_none));
    notices = (greeted ++ close_cb ∷ []) ++ queue_destroyed ∷ [];
  }

  abbrev pub gone : Connection
  gone = record hung_up {
    state = disconnected;
    notices = ((greeted ++ close_cb ∷ []) ++ queue_destroyed ∷ []) ++ connection_cb ∷ [];
  }

  pub new-established : connection_estabalished (new set buffer) ≡ ok opened
  unfolding connection_estabalished change note_if note
  new-established = ground arith

  pub opened-close : set.close ≡ true → handle_close opened ≡ ok hung_up
  unfolding handle_close change must_note note
  opened-close h = ground arith

  -- The destruction of a connection without a connection callback throws.
  pub hung_up-destroyed :
      connection_destroyed hung_up ≡ (if set.connection then ok gone else err bad_function_call)
  unfolding connection_destroyed must_note note
  hung_up-destroyed = ground arith

  pub hung_up-closings :
      (closings opened.notices ≡ 0) × (closings hung_up.notices ≡ 1) × (closings gone.notices ≡ 1)
  unfolding closings
  hung_up-closings = ground arith
