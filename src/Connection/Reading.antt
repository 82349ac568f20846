-- ===== src/Connection/Reading.antt =====
-- tcp_connection.cc, `handle_read`: what the callbacks see of a read.
use m_server.Prelude.{
  ℕ, append_assoc, ◌<◌, ◌≡◌, refl, List, [], ◌∷◌, ◌++◌, length, true, some, inl, inr, Result, ok,
  ◌>>=◌, arith, false, err, bad_function_call,
}
use m_server.Buffer.{Buffer, received, writeable_bytes}
use m_server.Buffer.Bounds
use m_server.Buffer.Content.{Appended, read_socket_returns}
use m_server.Polling.Mask.{Mask}
use m_server.Polling.Handle.{changed, disable_all}
use m_server.Connection.{
  Connection, connected, message_cb, close_cb, queue_destroyed, handle_read, handle_close, deliver,
  change, note, must_note,
}

-- With a valid input buffer and a message callback, a read of some bytes, fewer than are writeable,
-- calls the callback once, with a buffer that holds them behind what was there before; its outcome
-- is that of the callback.
pub handle_read_delivers :
    (bs : List ℕ) (consume : Buffer → Result Buffer) (c : Connection)
    → Bounds.IsValid c.inp_buffer
    → 0 < length bs
    → length bs < writeable_bytes c.inp_buffer
    → c.set.message ≡ true
    → (b : Buffer) × Appended bs c.inp_buffer b
      × (handle_read (received bs) consume c ≡ (
          consume b >>= λ b'.
          ok (record c { inp_buffer = b'; notices = c.notices ++ message_cb ∷ [] })))
unfolding handle_read deliver must_note note
handle_read_delivers bs consume c v pos room set =
    let (b, e, a) = read_socket_returns bs v (inl room) in (b, a, ground (arith, e))

-- At the end of the stream, a `connected` and registered connection with a valid input buffer and a
-- close callback unregisters all its events, calls the callback and leaves its destruction with the
-- loop; its state stays `connected`.
pub handle_read_closes :
    (consume : Buffer → Result Buffer) {m : Mask} (c : Connection)
    → Bounds.IsValid c.inp_buffer
    → c.state ≡ connected
    → c.events ≡ some m
    → c.set.close ≡ true
    → (d : Connection) × (handle_read (received []) consume c ≡ ok d)
      × (d.state ≡ connected)
      × (d.events ≡ some (changed disable_all m))
      × (d.notices ≡ c.notices ++ close_cb ∷ queue_destroyed ∷ [])
      × Appended [] c.inp_buffer d.inp_buffer
unfolding handle_read handle_close change must_note note
handle_read_closes consume {m} c v s e set =
    let (b, r, a) = read_socket_returns [] v (inr refl) in
    (
      record c {
        inp_buffer = b;
        events = some (changed disable_all m);
        notices = (c.notices ++ close_cb ∷ []) ++ queue_destroyed ∷ [];
      },
      ground (arith, r),
      s,
      refl,
      append_assoc c.notices (close_cb ∷ []) (queue_destroyed ∷ []),
      a,
    )

-- A read of some bytes on a connection without a message callback throws std::bad_function_call.
pub handle_read_throws :
    (bs : List ℕ) (consume : Buffer → Result Buffer) (c : Connection)
    → Bounds.IsValid c.inp_buffer
    → 0 < length bs
    → length bs < writeable_bytes c.inp_buffer
    → c.set.message ≡ false
    → handle_read (received bs) consume c ≡ err bad_function_call
unfolding handle_read deliver must_note
handle_read_throws bs consume c v pos room set =
    let (b, e, a) = read_socket_returns bs v (inl room) in ground (arith, e)
