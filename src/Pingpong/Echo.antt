-- ===== src/Pingpong/Echo.antt =====
-- example/pingpong/pingpong_server.cc: what goes back to the peer.
use m_server.Prelude.{
  eq_nil_of_length, ℕ, ◌+◌, ◌<◌, ◌≡◌, refl, sym, ap, ◌∙◌, List, [], ◌∷◌, ◌++◌, append_assoc,
  append-nil, true, if◌then◌else◌, ok, All, length, arith,
}
use m_server.Buffer.{
  Buffer, pretend_size, received, writeable_bytes, retrieve_as_string, retrieve_all,
}
use m_server.Buffer.Bounds.{IsValid, writeable_lem}
use m_server.Buffer.Content.{contents, retrieve_as_string_lem}
use m_server.Buffer.Stream.{length-contents, size-retrieve_all, end-retrieve_all}
use m_server.Polling.Mask.{Mask}
use m_server.Connection.{Connection, wrote, connected, message_cb, queue_write_complete}
use m_server.Connection.Reading.{handle_read_delivers}
use m_server.Connection.Sending.{IsIdle, send_in_loop-whole, send-connected}
use m_server.Pingpong.{on_message, serve, serve_all}

-- Connected, with nothing left to send or to read, and an input buffer of this size.
pub record IsWaiting (size : ℕ) (m : Mask) (c : Connection) : Type 0 where
  pub connected_state : c.state ≡ connected
  pub idle : IsIdle m c
  pub message_set : c.set.message ≡ true
  pub valid : IsValid c.inp_buffer
  pub at_start : c.inp_buffer.write_idx ≡ pretend_size
  pub size_is : length c.inp_buffer.bytes ≡ size

contents-start : {b : Buffer} → IsValid b → b.write_idx ≡ pretend_size → contents b ≡ []
contents-start {b} v e = eq_nil_of_length (contents b) (omega (arith, length-contents v))

pub serve_lem :
    (size : ℕ) (bs : List ℕ) {m : Mask} (c : Connection)
    → IsWaiting size m c
    → 0 < length bs
    → length bs + pretend_size < size
    → (d : Connection) × (serve (received bs) (wrote (length bs)) c ≡ ok d)
      × (d.sent ≡ c.sent ++ bs)
      × IsWaiting size m d
unfolding serve on_message
serve_lem size bs {m} c w pos room =
    let room' : length bs < writeable_bytes c.inp_buffer = omega (arith, writeable_lem w.valid) in
    let (b, a, read) = handle_read_delivers bs ok c w.valid pos room' w.message_set in
    let held : contents b ≡ bs =
      a.holds ∙ ap (λ xs. xs ++ bs) (contents-start w.valid w.at_start) in
    let (taken, valid, nothing) = retrieve_as_string_lem a.valid in
    let got : retrieve_as_string b ≡ ok (bs, retrieve_all b) =
      taken ∙ ap (λ xs. ok (xs, retrieve_all b)) held in
    let c₂ = record c { inp_buffer = retrieve_all b; notices = c.notices ++ message_cb ∷ [] } in
    let idle : IsIdle m c₂ = record {
      registered = w.idle.registered;
      quiet = w.idle.quiet;
      valid = w.idle.valid;
      drained = w.idle.drained;
    } in
    let sends = send-connected (wrote (length bs)) bs c₂ w.connected_state in
    let whole = send_in_loop-whole bs idle pos (omega (arith, w.valid.addressable)) in
    (
      record c₂ {
        sent = c.sent ++ bs;
        notices =
            if c.set.write_complete then c₂.notices ++ queue_write_complete ∷ [] else c₂.notices;
      },
      ground (arith, read, got, sends, whole),
      refl,
      record {
        connected_state = w.connected_state;
        idle = record {
          registered = w.idle.registered;
          quiet = w.idle.quiet;
          valid = w.idle.valid;
          drained = w.idle.drained;
        };
        message_set = w.message_set;
        valid = valid;
        at_start = end-retrieve_all b;
        size_is = size-retrieve_all b ∙ a.size_kept ∙ w.size_is;
      },
    )

-- All the bytes of some messages, in order.
abbrev pub join : List (List ℕ) → List ℕ
join [] = []
join (m ∷ ms) = m ++ join ms

-- A connection of the ping-pong server that is connected, and has nothing left to send or read,
-- sends back every byte that it receives, in order, however many messages come, as long as each is
-- read and written whole and fits the input buffer; it then waits as before.
pub serve_all_echoes :
    (size : ℕ) (ms : List (List ℕ)) {m : Mask} (c : Connection)
    → IsWaiting size m c
    → All (λ bs. (0 < length bs) × (length bs + pretend_size < size)) ms
    → (d : Connection) × (serve_all ms c ≡ ok d) × (d.sent ≡ c.sent ++ join ms) × IsWaiting size m d
unfolding serve_all
serve_all_echoes size [] c w h = (c, refl, sym (append-nil c.sent), w)
serve_all_echoes size (bs ∷ ms) c w h =
    let (d, e, sent, w') = serve_lem size bs c w h.0.0 h.0.1 in
    let (f, g, all_sent, w'') = serve_all_echoes size ms d w' h.1 in
    (
      f,
      rw (e, serve_all) g,
      all_sent ∙ ap (λ xs. xs ++ join ms) sent ∙ append_assoc c.sent bs (join ms),
      w'',
    )
