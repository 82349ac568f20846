-- ===== src/Service.antt =====
-- src/net/source/tcp_server.cc with src/net/source/tcp_connection.cc and what they leave with their
-- loops: a server, the connections that it made, and the functors that wait. A connection is known by
-- the number in its name.
pub mod Pending
pub mod Handlers
pub mod Invariant
pub mod Steps
pub mod Functors
pub mod Closes
pub mod Runs
pub mod Ends
pub mod Ready
pub mod Drain
use m_server.Prelude.{
  update, ℕ, zero, suc, ◌+◌, ◌-◌, List, [], ◌∷◌, ◌++◌, Option, none, some, Bool, true, false, not,
  ◌==◌, ltb, length, map, if◌then◌else◌, get_elem?, remove_at, Result, ok, check, ◌>>=◌, ◌>>◌,
  Ensures, ◌≡◌, ◌<◌, ◌≤◌, ◌^◌, err, undefined,
}
use m_server.Buffer.{Buffer, Readv}
use m_server.Polling.Mask.{Mask, event_none, any}
use m_server.Polling.Handle.{Handle, Callback, read, write, close, handle_event}
use m_server.Polling.Handle
use m_server.Connection.{
  Connection, Written, State, connected, connection_estabalished, connection_destroyed, handle_read,
  handle_write, handle_close, handle_error,
}
use m_server.Connection
use m_server.Connection.Events
use m_server.Connection.Closing.{closings, IsUse, Closed}
use m_server.Connection.Setters.{
  unset, set_connection_callback, set_message_callback, set_close_callback,
}
use m_server.Server.{TcpServer, register_connection, remove_connection_in_loop}
use m_server.Server.Pool.{get_next_loop}

-- The functors about the connection with this number: of its constructor and of `handle_close`, left
-- with its own loop, and of `remove_connection`, left with the server's. That of `write_complete_cb_`
-- only calls the application.
pub data Functor : Type 0 where
  establish retire removal : ℕ → Functor

-- The functors that `send`, with the bytes to write, and `shotdown` leave with the connection's loop when
-- another thread calls them.
pub data Post : Type 0 where
  sends : List ℕ → ℕ → Post
  shuts_down : Post

-- What such a functor does, with the answer of the socket.
abbrev pub post_event : Written → Post → Connection.Events.Event
post_event answer (sends msg write_len) = Connection.Events.sent_queued answer msg write_len
post_event answer shuts_down = Connection.Events.shotdown_queued

-- What a call of the application leaves.
pub posted : Connection.Events.Event → Connection → List Post
posted (Connection.Events.sent false answer msg len) c = elim c.state [
  | connected ↦ sends msg (if ltb 0 len then len else length msg) ∷ []
  | _ ↦ []
]
posted (Connection.Events.shotdown_called false) c = elim c.state [
  | connected ↦ shuts_down ∷ []
  | _ ↦ []
]
posted e c = []

-- `objects` and `owners` give a connection and its loop (`none` is the server's own); what they give
-- for a number that was not used yet does not matter. `pending` and `posts` list the functors of all
-- loops, the second those of `send` and `shotdown` with their connections.
pub record Service {ℓ} (Name : Type ℓ) : Type ℓ where
  pub server : TcpServer Name
  pub objects : ℕ → Connection
  pub owners : ℕ → Option ℕ
  pub pending : List Functor
  pub posts : List (ℕ × Post)

-- The callbacks that `handle_event` makes of a handle with these `revents_`.
unfoldable pub called : Mask → List Callback
called revents =
    (handle_event (record {
      fd = 1;
      index = none;
      events = event_none;
      revents = revents;
      handling_event = true;
      read_callback = true;
      write_callback = true;
      err_callback = true;
      close_callback = true;
    })).0

-- The handler of a connection behind a callback.
unfoldable pub handler :
    Readv → (Buffer → Result Buffer) → Written → Callback → Connection → Result Connection
handler got consume answer read c = handle_read got consume c
handler got consume answer write c = handle_write answer c
handler got consume answer close c = handle_close c
handler got consume answer Handle.err c = ok (handle_error c)

pub handlers :
    Readv → (Buffer → Result Buffer) → Written → List Callback → Connection → Result Connection
handlers got consume answer [] c = ok c
handlers got consume answer (cb ∷ cbs) c =
    handler got consume answer cb c >>= handlers got consume answer cbs

-- What happens: `register_connection` of a socket; poll(2) reports `revents` for a connection, and
-- these are the answers to its reads and writes; the application calls a connection; a loop runs
-- the functor that stands at an index of `pending`, or of `posts`, with the answer of the socket. Each
-- loop runs its own in their order; any order is allowed here. `register_connection` is one event: the
-- functor of the constructor is taken to run after it has set the callbacks.
pub data Event : Type 0 where
  registered : ℕ → Event
  polled : ℕ → Mask → Readv → (Buffer → Result Buffer) → Written → Event
  used : ℕ → Connection.Events.Event → Event
  functor_runs : ℕ → Event
  post_runs : ℕ → Written → Event

-- `connection_cb` and `message_cb` say whether the application has set these callbacks of the server.
module _ {ℓ} {Name : Type ℓ} (conn_name : ℕ → Name) (same : Name → Name → Bool)
    (connection_cb message_cb : Bool) (buffer : Buffer) where
  -- The connection of `register_connection`.
  abbrev pub made : Connection
  made = set_close_callback true (
      set_message_callback message_cb
        (set_connection_callback connection_cb (Connection.new unset buffer)))

  pub register : ℕ → Service Name → Result (Service Name)
  register sock w = do
    r ← get_next_loop w.server.pool
    s ← register_connection conn_name same sock w.server
    let n = w.server.next_conn_id
    ok (record {
      server = s;
      objects = update n made w.objects;
      owners = update n r.0 w.owners;
      pending = w.pending ++ establish n ∷ [];
      posts = w.posts;
    })

  pub remove_in_loop : ℕ → Service Name → Result (Service Name)
  remove_in_loop i w = do
    s ← remove_connection_in_loop conn_name same (conn_name i) w.server
    ok (record w { server = s })

  -- `run_in_loop` of the server's loop, called in the loop of the connection.
  pub remove_connection : ℕ → Service Name → Result (Service Name)
  unfolding remove_in_loop
  remove_connection i w = elim (w.owners i) [
    | none ↦ remove_in_loop i w
    | some l ↦ ok (record w { pending = w.pending ++ removal i ∷ [] })
  ]

  -- What `handle_close` does outside its connection, so often.
  pub closes : ℕ → ℕ → Service Name → Result (Service Name)
  unfolding remove_connection
  closes zero i w = ok w
  closes (suc n) i w = do
    w' ← remove_connection i w
    closes n i (record w' { pending = w'.pending ++ retire i ∷ [] })

  pub polling :
      ℕ → Mask → Readv → (Buffer → Result Buffer) → Written → Service Name → Result (Service Name)
  unfolding handlers called closes
  polling i revents got consume answer w = do
    let old = w.objects i
    d ← handlers got consume answer (called revents) old
    closes (closings d.notices - closings old.notices) i
        (record w { objects = update i d w.objects })

  pub use_connection : ℕ → Connection.Events.Event → Service Name → Result (Service Name)
  use_connection i e w = do
    d ← Connection.Events.step e (w.objects i)
    ok (record w {
      objects = update i d w.objects;
      posts = w.posts ++ map (λ p. (i, p)) (posted e (w.objects i));
    })

  -- `remove_poll_handle` asserts that the handle waits for nothing.
  pub retire_in_loop : ℕ → Service Name → Result (Service Name)
  retire_in_loop i w = do
    m ← elim (w.objects i).events [ some m ↦ ok m | none ↦ err undefined ]
    check (not (any m))
    d ← connection_destroyed (w.objects i)
    ok (record w { objects = update i d w.objects })

  pub run_functor : Functor → Service Name → Result (Service Name)
  unfolding remove_in_loop retire_in_loop
  run_functor (establish i) w = do
    d ← connection_estabalished (w.objects i)
    ok (record w { objects = update i d w.objects })
  run_functor (removal i) w = remove_in_loop i w
  run_functor (retire i) w = retire_in_loop i w

  pub run_at : ℕ → Service Name → Result (Service Name)
  unfolding run_functor
  run_at j w = elim (get_elem? w.pending j) [
    | none ↦ ok w
    | some f ↦ run_functor f (record w { pending = remove_at j w.pending })
  ]

  pub run_post : ℕ → Written → Service Name → Result (Service Name)
  unfolding use_connection
  run_post j answer w = elim (get_elem? w.posts j) [
    | none ↦ ok w
    | some (i, p) ↦
        use_connection i (post_event answer p) (record w { posts = remove_at j w.posts })
  ]

  pub step : Event → Service Name → Result (Service Name)
  unfolding register polling use_connection run_at run_post
  step (registered sock) w = register sock w
  step (polled i revents got consume answer) w = polling i revents got consume answer w
  step (used i e) w = use_connection i e w
  step (functor_runs j) w = run_at j w
  step (post_runs j answer) w = run_post j answer w

  unfoldable pub run : List Event → Service Name → Result (Service Name)
  unfolding step
  run [] w = ok w
  run (e ∷ es) w = step e w >>= run es
