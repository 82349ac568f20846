-- ===== src/Connection/Closing.antt =====
-- tcp_connection.cc: how often a connection calls its close callback.
use m_server.Prelude.{
  bad_function_call, Bool-cases, ℕ, suc, ◌+◌, ◌≤◌, ◌≡◌, refl, List, take, length, [], ◌∷◌, ◌++◌,
  some, Bool, ◌⊎◌, inl, inr, Result, Result-cases, ok, err, aborted, Ensures, arith,
}
use m_server.Buffer.{Buffer, Readv, read_socket, peek}
use m_server.Polling.Mask.{Mask, event_none}
use m_server.Polling.Handle.{Change, changed}
use m_server.Connection.{
  disconnected, Notice, connection_cb, message_cb, close_cb, write_complete_cb, high_watermark_cb,
  queue_write_complete, queue_destroyed, queue_shotdown, queue_send, Connection, Written, taken,
  connection_estabalished, connection_destroyed, keep_rest, send_rest, send_in_loop, send,
  shotdown_in_loop, shotdown, handle_close, handle_read, handle_write, finish_writing, after_write,
  change, note, note_if, must_note,
}
use m_server.Connection.Events.{
  Event, established, destroyed, closed, errored, shotdown_queued, sent, sent_queued,
  shotdown_called, readable, writeable, step,
}
use m_server.Connection.Life.{rank}

-- How often the close callback was called.
unfoldable pub closings : List Notice → ℕ
closings [] = 0
closings (close_cb ∷ ns) = suc (closings ns)
closings (_ ∷ ns) = closings ns

closings-append : (ms ns : List Notice) → closings (ms ++ ns) ≡ closings ms + closings ns
unfolding closings
closings-append [] ns = omega arith
closings-append (close_cb ∷ ms) ns = omega (arith, closings-append ms ns)
closings-append (connection_cb ∷ ms) ns = closings-append ms ns
closings-append (message_cb ∷ ms) ns = closings-append ms ns
closings-append (write_complete_cb ∷ ms) ns = closings-append ms ns
closings-append (high_watermark_cb ∷ ms) ns = closings-append ms ns
closings-append (queue_write_complete ∷ ms) ns = closings-append ms ns
closings-append (queue_destroyed ∷ ms) ns = closings-append ms ns
closings-append (queue_shotdown ∷ ms) ns = closings-append ms ns
closings-append (queue_send ∷ ms) ns = closings-append ms ns

-- The close callback was called `k` times.
abbrev pub Closed : ℕ → Connection → Type 0
Closed k c = closings c.notices ≡ k

-- It was called, once, and the connection waits for no event.
pub record Shut (c : Connection) : Type 0 where
  pub once : Closed 1 c
  pub still : c.events ≡ some event_none
  pub begun : 1 ≤ rank c.state

module _ (k : ℕ) where
  change-Closed : (ch : Change) (c : Connection) → Closed k c → Ensures (Closed k) (change ch c)
  unfolding change
  change-Closed ch c h = ground arith

  after_write-Closed : (n : ℕ) (c : Connection) → Closed k c → Ensures (Closed k) (after_write n c)
  unfolding after_write finish_writing shotdown_in_loop note_if note change closings
  after_write-Closed n c h = ground (arith, closings-append c.notices (write_complete_cb ∷ []))

  keep_rest-Closed :
      (msg : List ℕ) (skip num_remain : ℕ) (m : Mask) (c : Connection)
      → Closed k c
      → Ensures (Closed k) (keep_rest msg skip num_remain m c)
  unfolding keep_rest note_if note change closings
  keep_rest-Closed msg skip num_remain m c h =
      ground (arith, closings-append c.notices (high_watermark_cb ∷ []))

  send_in_loop-Closed :
      (a : Written) (msg : List ℕ) (n : ℕ) (c : Connection)
      → Closed k c
      → Ensures (Closed k) (send_in_loop a msg n c)
  unfolding send_in_loop send_rest keep_rest note_if note change closings
  send_in_loop-Closed a msg n c h = ground (
    arith,
    closings-append c.notices (high_watermark_cb ∷ []),
    closings-append c.notices (queue_write_complete ∷ []),
  )

  -- What the application calls does not close the connection.
  send-Closed :
      (i : Bool) (a : Written) (msg : List ℕ) (n : ℕ) (c : Connection)
      → Closed k c
      → Ensures (Closed k) (send i a msg n c)
  unfolding send note closings
  send-Closed i a msg n c h = ground (
    arith,
    send_in_loop-Closed a msg n c,
    send_in_loop-Closed a msg (length msg) c,
    closings-append c.notices (queue_send ∷ []),
  )

  shotdown-Closed : (i : Bool) (c : Connection) → Closed k c → Ensures (Closed k) (shotdown i c)
  unfolding shotdown shotdown_in_loop note closings
  shotdown-Closed i c h = ground (arith, closings-append c.notices (queue_shotdown ∷ []))

  shotdown_in_loop-Closed : (c : Connection) → Closed k c → Ensures (Closed k) (shotdown_in_loop c)
  unfolding shotdown_in_loop
  shotdown_in_loop-Closed c h = ground arith

  pub handle_write-Closed :
      (a : Written) (c : Connection) → Closed k c → Ensures (Closed k) (handle_write a c)
  unfolding handle_write
  handle_write-Closed a c h = ground (
    arith,
    after_write-Closed (taken a) (record c { sent = c.sent ++ take (taken a) (peek c.oup_buffer) }),
  )

-- The calls of the application, and the functors that they leave with the loop.
abbrev pub IsUse : Event → Type 0
IsUse shotdown_queued = Unit
IsUse (sent in_loop_thread answer msg len) = Unit
IsUse (sent_queued answer msg len) = Unit
IsUse (shotdown_called in_loop_thread) = Unit
IsUse e = ⊥

pub use-Closed :
    (k : ℕ) (e : Event) (c : Connection) → IsUse e → Closed k c → Ensures (Closed k) (step e c)
unfolding step
use-Closed k shotdown_queued c u h = shotdown_in_loop-Closed k c h
use-Closed k (sent i a msg n) c u h = send-Closed k i a msg n c h
use-Closed k (sent_queued a msg n) c u h = send_in_loop-Closed k a msg n c h
use-Closed k (shotdown_called i) c u h = shotdown-Closed k i c h
use-Closed k established c u h = absurd u
use-Closed k destroyed c u h = absurd u
use-Closed k closed c u h = absurd u
use-Closed k errored c u h = absurd u
use-Closed k (readable got consume) c u h = absurd u
use-Closed k (writeable a) c u h = absurd u

pub connection_estabalished-Closed :
    (c : Connection) → Closed 0 c → Ensures (Closed 0) (connection_estabalished c)
unfolding connection_estabalished note_if note change closings
connection_estabalished-Closed c h = ground (arith, closings-append c.notices (connection_cb ∷ []))

-- A connection that was closed is not established again.
pub connection_estabalished-Shut :
    (c : Connection) → Shut c → connection_estabalished c ≡ err aborted
unfolding connection_estabalished note_if note change
connection_estabalished-Shut c h = ground (arith, h.begun)

pub connection_destroyed-Shut : (c : Connection) → Shut c → Ensures Shut (connection_destroyed c)
unfolding connection_destroyed must_note note closings
connection_destroyed-Shut c h = ground (arith, h, closings-append c.notices (connection_cb ∷ []))

pub connection_destroyed_returns :
    (c : Connection)
    → Shut c
    → ((d : Connection) × (connection_destroyed c ≡ ok d))
      ⊎ (connection_destroyed c ≡ err bad_function_call)
unfolding connection_destroyed must_note note
connection_destroyed_returns c h = elim (Bool-cases c.set.connection) [
  | inl e ↦ inl (
    record c { state = disconnected; notices = c.notices ++ connection_cb ∷ [] },
    rw h.still (rw e refl),
  )
  | inr e ↦ inr (rw h.still (rw e refl))
]

pub handle_close-Shut : (c : Connection) → Closed 0 c → Ensures Shut (handle_close c)
unfolding handle_close change changed must_note note closings
handle_close-Shut c h = ground (
  arith,
  closings-append (c.notices ++ close_cb ∷ []) (queue_destroyed ∷ []),
  closings-append c.notices (close_cb ∷ []),
)

-- Either the connection is open, or it was closed.
abbrev pub OpenOrShut : Connection → Type 0
OpenOrShut c = Closed 0 c ⊎ Shut c

pub handle_read-OpenOrShut :
    (got : Readv) (consume : Buffer → Result Buffer) (c : Connection)
    → Closed 0 c
    → Ensures OpenOrShut (handle_read got consume c)
unfolding handle_read handle_close change must_note note closings
handle_read-OpenOrShut got consume c h = elim (Result-cases (read_socket got c.inp_buffer)) [
  | inl (r, e) ↦
      let c₁ = record c { inp_buffer = r.1 } in
      ground (arith, e, handle_close-Shut c₁ h, closings-append c.notices (message_cb ∷ []))
  | inr (f, e) ↦ ground (arith, e)
]

pub handle_write-Shut : (a : Written) (c : Connection) → Shut c → Ensures Shut (handle_write a c)
unfolding handle_write
handle_write-Shut a c h = ground (arith, h)
