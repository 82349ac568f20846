-- ===== src/Connection/Output.antt =====
-- tcp_connection.cc: the output buffer along runs of operations, and what `handle_write` finds in it.
use m_server.Prelude.{
  ℕ, length, ◌<◌, ◌≡◌, List, take, drop, [], ◌∷◌, ◌++◌, true, some, inl, inr, Option-cases,
  Result-cases, ok, err, Ensures, Ensures-ok, aborted, arith, All,
}
use m_server.Buffer.{size_mod, readable_bytes, append, sub_size}
use m_server.Buffer.Bounds.{retrieve_aborts}
use m_server.Buffer.Bounds
use m_server.Buffer.Content.{append_keeps}
use m_server.Polling.Mask.{Mask}
use m_server.Connection.{
  Connection, Written, taken, wrote, write_failed, num_write, connection_estabalished,
  connection_destroyed, keep_rest, send_rest, send_in_loop, send, shotdown_in_loop, shotdown,
  handle_close, handle_error, handle_read, handle_write, deliver, after_write, change, note,
  note_if, must_note,
}
use m_server.Connection.Events.{
  Event, established, destroyed, closed, errored, shotdown_queued, sent, sent_queued,
  shotdown_called, readable, writeable, step, run, Fits,
}

-- No byte of the output buffer is readable.
pub record IsDrained (c : Connection) : Type 0 where
  pub valid : Bounds.IsValid c.oup_buffer
  pub unread : c.oup_buffer.read_idx ≡ c.oup_buffer.write_idx

-- `handle_write` of a drained connection aborts once the socket takes a byte.
handle_write_aborts :
    (n : ℕ) {m : Mask} {c : Connection}
    → IsDrained c
    → c.events ≡ some m
    → m.pollout ≡ true
    → 0 < n
    → handle_write (wrote n) c ≡ err aborted
unfolding handle_write after_write readable_bytes
handle_write_aborts n {m} {c} v e p pos = ground (arith, retrieve_aborts n c.oup_buffer)

keep_rest-IsDrained :
    (msg : List ℕ) (skip n : ℕ) (m : Mask) (c : Connection)
    → n < size_mod
    → IsDrained c
    → Ensures IsDrained (keep_rest msg skip n m c)
unfolding keep_rest change note_if note
keep_rest-IsDrained msg skip n m c lt v =
    let k = append_keeps (drop skip msg) n v.valid lt in
    elim (Result-cases (append (drop skip msg) n c.oup_buffer)) [
      | inl (b, e) ↦
          let kept = Ensures-ok _ (append (drop skip msg) n c.oup_buffer) e k in ground arith
      | inr (f, e) ↦ ground arith
    ]

send_in_loop-IsDrained :
    (answer : Written) (msg : List ℕ) (n : ℕ) (c : Connection)
    → n < size_mod
    → IsDrained c
    → Ensures IsDrained (send_in_loop answer msg n c)
unfolding send_in_loop send_rest note_if note
send_in_loop-IsDrained answer msg n c lt v =
    let w = num_write answer in
    let c₁ = record c { sent = c.sent ++ take (taken answer) msg } in
    elim (Option-cases c.events) [
      | inl e ↦ ground arith
      | inr (m, e) ↦ ground (
        arith,
        keep_rest-IsDrained msg 0 n m c lt v,
        keep_rest-IsDrained msg 0 n m c₁ lt (record { valid = v.valid; unread = v.unread }),
        keep_rest-IsDrained msg w (sub_size n w) m c₁ (omega arith)
            (record { valid = v.valid; unread = v.unread }),
      )
    ]

step-IsDrained : (e : Event) (c : Connection) → Fits e → IsDrained c → Ensures IsDrained (step e c)
unfolding step connection_estabalished connection_destroyed send handle_close handle_error shotdown
    shotdown_in_loop handle_read deliver change must_note note_if note handle_write after_write
    readable_bytes
step-IsDrained established c l v = ground arith
step-IsDrained destroyed c l v = ground arith
step-IsDrained closed c l v = ground arith
step-IsDrained errored c l v = ground arith
step-IsDrained shotdown_queued c l v = ground arith
step-IsDrained (sent i a msg n) c l v = ground (
  arith,
  send_in_loop-IsDrained a msg n c l.0 v,
  send_in_loop-IsDrained a msg (length msg) c l.1 v,
)
step-IsDrained (sent_queued a msg n) c l v = send_in_loop-IsDrained a msg n c l v
step-IsDrained (shotdown_called i) c l v = ground arith
step-IsDrained (readable got consume) c l v = ground arith
step-IsDrained (writeable (wrote n)) c l v = ground (arith, retrieve_aborts n c.oup_buffer)
step-IsDrained (writeable write_failed) c l v = ground arith

run-IsDrained :
    (es : List Event) (c : Connection) → All Fits es → IsDrained c → Ensures IsDrained (run es c)
unfolding run
run-IsDrained [] c l v = v
run-IsDrained (e ∷ es) c l v = elim (Result-cases (step e c)) [
  | inl (d, eq) ↦
      rw eq (run-IsDrained es d l.1 (Ensures-ok IsDrained (step e c) eq (step-IsDrained e c l.0 v)))
  | inr f ↦ rw f.1 tt
]

-- However a connection whose output buffer was valid and had nothing to read has been run, with
-- messages of `size_t` lengths, if it is writing and the socket takes a byte then `handle_write`
-- aborts: it finds nothing to retrieve.
pub handle_write_never :
    (es : List Event) (b c : Connection) (n : ℕ) {m : Mask}
    → All Fits es
    → IsDrained b
    → run es b ≡ ok c
    → c.events ≡ some m
    → m.pollout ≡ true
    → 0 < n
    → handle_write (wrote n) c ≡ err aborted
handle_write_never es b c n l v e h p pos =
    handle_write_aborts n (Ensures-ok IsDrained (run es b) e (run-IsDrained es b l v)) h p pos
