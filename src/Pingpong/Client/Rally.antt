-- ===== src/Pingpong/Client/Rally.antt =====
-- example/pingpong: what passes between the client and the server.
use m_server.Prelude.{
  ℕ, zero, suc, ◌+◌, ◌<◌, ◌≡◌, refl, sym, ap, ◌∙◌, List, [], ◌∷◌, ◌++◌, append_assoc, append-nil,
  if◌then◌else◌, ok, length, drop, drop-append_left, replicate, arith,
}
use m_server.Buffer.{pretend_size, received}
use m_server.Polling.Mask.{Mask}
use m_server.Connection.{Connection, wrote, queue_write_complete}
use m_server.Connection.Sending.{send_in_loop-whole, send-connected}
use m_server.Pingpong.{hello, on_connection, serve}
use m_server.Pingpong.Echo.{IsWaiting, serve_lem, join}
use m_server.Pingpong.Client
use m_server.Pingpong.Client.{Link, receive, to_client, to_server, rounds}

-- The client answers as the server does.
receive-serve :
    (bs : List ℕ) (n : ℕ) (c : Connection)
    → receive (received bs) (wrote n) c ≡ serve (received bs) (wrote n) c
unfolding receive serve Client.on_message m_server.Pingpong.on_message
receive-serve bs n c = refl

-- Both ends wait, and these bytes are on their way to the client, and no others.
pub record IsServed (size : ℕ) (m k : Mask) (bs : List ℕ) (l : Link) : Type 0 where
  pub server_waits : IsWaiting size m l.server
  pub client_waits : IsWaiting size k l.client
  pub on_way : drop l.read_by_client l.server.sent ≡ bs
  pub no_other : l.read_by_server ≡ length l.client.sent

module _ (size : ℕ) (bs : List ℕ) (pos : 0 < length bs)
    (room : length bs + pretend_size < size) where
  round_lem :
      {m k : Mask} (l : Link)
      → IsServed size m k bs l
      → (t u : Link) × (to_client l ≡ ok t)
        × (to_server t ≡ ok u)
        × (u.server.sent ≡ l.server.sent ++ bs)
        × (u.client.sent ≡ l.client.sent ++ bs)
        × IsServed size m k bs u
  unfolding to_client to_server
  round_lem l h =
      let (c, answers, sent, waits) = serve_lem size bs l.client h.client_waits pos room in
      let t = record l { client = c; read_by_client = length l.server.sent } in
      let back : drop t.read_by_server c.sent ≡ bs =
        ap (λ n. drop n c.sent) h.no_other
        ∙ ap (drop (length l.client.sent)) sent
        ∙ drop-append_left l.client.sent bs in
      let (s, replies, returned, waits') = serve_lem size bs l.server h.server_waits pos room in
      let u = record t { server = s; read_by_server = length c.sent } in
      (
        t,
        u,
        rw h.on_way (rw (receive-serve bs (length bs) l.client) (rw answers refl)),
        rw back (rw replies refl),
        returned,
        sent,
        record {
          server_waits = waits';
          client_waits = waits;
          on_way = ap (drop (length l.server.sent)) returned ∙ drop-append_left l.server.sent bs;
          no_other = refl;
        },
      )

  rounds_lem :
      (n : ℕ) {m k : Mask} (l : Link)
      → IsServed size m k bs l
      → (t : Link) × (rounds n l ≡ ok t)
        × (t.server.sent ≡ l.server.sent ++ join (replicate n bs))
        × (t.client.sent ≡ l.client.sent ++ join (replicate n bs))
        × IsServed size m k bs t
  unfolding rounds
  rounds_lem zero l h = (l, refl, sym (append-nil l.server.sent), sym (append-nil l.client.sent), h)
  rounds_lem (suc n) l h =
      let (t, u, there, back, server_sent, client_sent, h') = round_lem l h in
      let (v, rest, server_rest, client_rest, h'') = rounds_lem n u h' in
      (
        v,
        rw there (rw back rest),
        server_rest
            ∙ ap (λ xs. xs ++ join (replicate n bs)) server_sent
            ∙ append_assoc l.server.sent bs (join (replicate n bs)),
        client_rest
            ∙ ap (λ xs. xs ++ join (replicate n bs)) client_sent
            ∙ append_assoc l.client.sent bs (join (replicate n bs)),
        h'',
      )

-- `on_connection` sends the first message.
on_connection_lem :
    (size : ℕ) {m : Mask} (s : Connection)
    → IsWaiting size m s
    → (d : Connection) × (on_connection (wrote (length hello)) s ≡ ok d)
      × (d.sent ≡ s.sent ++ hello)
      × IsWaiting size m d
unfolding on_connection
on_connection_lem size {m} s w =
    let sends = send-connected (wrote (length hello)) hello s w.connected_state in
    let whole = send_in_loop-whole hello w.idle (omega arith) (omega arith) in
    (
      record s {
        sent = s.sent ++ hello;
        notices =
            if s.set.write_complete then s.notices ++ queue_write_complete ∷ [] else s.notices;
      },
      ground (arith, sends, whole, w.connected_state),
      refl,
      record {
        connected_state = w.connected_state;
        idle = record {
          registered = w.idle.registered;
          quiet = w.idle.quiet;
          valid = w.idle.valid;
          drained = w.idle.drained;
        };
        message_set = w.message_set;
        valid = w.valid;
        at_start = w.at_start;
        size_is = w.size_is;
      },
    )

-- When a client of the ping-pong server is connected, both ends have nothing to send or read, and
-- their input buffers have room for the greeting, then the server sends it, and over any number of
-- rounds, with every read and write whole, each end goes on to send it back: no byte is lost, added
-- or changed.
pub rounds_return :
    (n size : ℕ) {m k : Mask} (s c : Connection)
    → IsWaiting size m s
    → IsWaiting size k c
    → s.sent ≡ []
    → c.sent ≡ []
    → length hello + pretend_size < size
    → (d : Connection) × (t : Link) × (on_connection (wrote (length hello)) s ≡ ok d)
      × (rounds n (record { server = d; client = c; read_by_client = 0; read_by_server = 0 })
          ≡ ok t)
      × (t.server.sent ≡ join (replicate (suc n) hello))
      × (t.client.sent ≡ join (replicate n hello))
rounds_return n size s c ws wc es ec room =
    let (d, greets, sent, wd) = on_connection_lem size s ws in
    let l : Link = record { server = d; client = c; read_by_client = 0; read_by_server = 0 } in
    let first : d.sent ≡ hello = sent ∙ ap (λ xs. xs ++ hello) es in
    let served : IsServed size _ _ hello l = record {
      server_waits = wd;
      client_waits = wc;
      on_way = first;
      no_other = sym (ap length ec);
    } in
    let (t, plays, server_sent, client_sent, h) =
      rounds_lem size hello (omega arith) room n l served in
    (
      d,
      t,
      greets,
      plays,
      server_sent ∙ ap (λ xs. xs ++ join (replicate n hello)) first,
      client_sent ∙ ap (λ xs. xs ++ join (replicate n hello)) ec,
    )
