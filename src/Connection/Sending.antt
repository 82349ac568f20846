-- ===== src/Connection/Sending.antt =====
-- tcp_connection.cc, `send_in_loop` on an idle connection: what the answer of the socket leads to.
use m_server.Prelude.{
  ℕ, ◌+◌, ◌-◌, ◌<◌, ◌≡◌, refl, List, [], ◌∷◌, ◌++◌, some, false, if◌then◌else◌, length, take,
  take-all, drop, length-drop, ok, err, aborted, arith, true,
}
use m_server.Buffer.{size_mod, append, readable_bytes, writeable_bytes, sub_size}
use m_server.Buffer.Bounds.{append_full}
use m_server.Buffer.Bounds
use m_server.Buffer.Content.{contents, contents-append}
use m_server.Polling.Mask.{Mask}
use m_server.Polling.Handle.{changed, enable_writing}
use m_server.Connection.{
  connected, disconnecting, shotdown, shotdown_in_loop, send, Written, Connection,
  queue_write_complete, wrote, write_failed, send_in_loop, change, keep_rest, send_rest, note_if,
  note,
}

-- Registered, with nothing kept for later: the state in which `send_in_loop` writes at once.
pub record IsIdle (m : Mask) (c : Connection) : Type 0 where
  pub registered : c.events ≡ some m
  pub quiet : m.pollout ≡ false
  pub valid : Bounds.IsValid c.oup_buffer
  pub drained : readable_bytes c.oup_buffer ≡ 0

-- On an idle connection (registered, not writing, with a valid output buffer and nothing in it), a
-- message of one byte or more that the socket takes whole is sent, and nothing is kept; the
-- write-complete callback is left with the loop if it is set.
pub send_in_loop-whole :
    (msg : List ℕ) {m : Mask} {c : Connection}
    → IsIdle m c
    → 0 < length msg
    → length msg < size_mod
    → send_in_loop (wrote (length msg)) msg (length msg) c
      ≡ ok (record c {
        sent = c.sent ++ msg;
        notices =
            if c.set.write_complete then c.notices ++ queue_write_complete ∷ [] else c.notices;
      })
unfolding send_in_loop send_rest
send_in_loop-whole msg {m} {c} v pos lt = ground (arith, take-all (length msg) msg)

-- On an idle connection, a direct write that fails, as it does on a full socket (EWOULDBLOCK),
-- aborts the process: -1 is taken for the largest size, and the rest to send comes out larger than
-- the message.
pub send_in_loop-failed :
    (msg : List ℕ) (n : ℕ) {m : Mask} {c : Connection}
    → IsIdle m c
    → n + 1 < size_mod
    → send_in_loop write_failed msg n c ≡ err aborted
unfolding send_in_loop
send_in_loop-failed msg n v lt = ground arith

-- On an idle connection without a high-watermark callback, of a message that the socket takes in
-- part, with a rest shorter than the output buffer's room, the rest is lost: the call returns and
-- enables writing, and the bytes to be read from the output buffer are what they were.
pub send_in_loop-part :
    (n : ℕ) (msg : List ℕ) {m : Mask} {c : Connection}
    → IsIdle m c
    → 0 < n
    → n < length msg
    → length msg < n + writeable_bytes c.oup_buffer
    → c.set.high_watermark ≡ false
    → (d : Connection) × (send_in_loop (wrote n) msg (length msg) c ≡ ok d)
      × (d.sent ≡ c.sent ++ take n msg)
      × (contents d.oup_buffer ≡ contents c.oup_buffer)
      × (d.events ≡ some (changed enable_writing m))
unfolding send_in_loop send_rest keep_rest note_if note change
send_in_loop-part n msg {m} {c} v pos lt room quiet =
    let (b, e, v', h) =
      contents-append (drop n msg) (length msg - n) v.valid (omega (arith, length-drop n msg))
        (omega arith) in
    let s : sub_size (length msg) n ≡ length msg - n =
      omega (arith, Bounds.writeable_lem v.valid) in
    let e' : append (drop n msg) (sub_size (length msg) n) c.oup_buffer ≡ ok b = rw s e in
    (
      record c {
        sent = c.sent ++ take n msg;
        oup_buffer = b;
        events = some (changed enable_writing m);
      },
      ground (arith, e', s),
      refl,
      h,
      refl,
    )

-- In the loop's thread, a connected connection sends at once; a length of 0 stands for the whole text.
pub send-connected :
    (answer : Written) (msg : List ℕ) (c : Connection)
    → c.state ≡ connected
    → send true answer msg 0 c ≡ send_in_loop answer msg (length msg) c
unfolding send
send-connected answer msg c e = ground arith

-- In the loop's thread, a connected connection that is not writing shuts its write side down at once.
pub shotdown-connected :
    (m : Mask) (c : Connection)
    → c.state ≡ connected
    → c.events ≡ some m
    → m.pollout ≡ false
    → shotdown true c ≡ ok (record c { state = disconnecting; shut = true })
unfolding shotdown shotdown_in_loop
shotdown-connected m c s e p = ground arith
