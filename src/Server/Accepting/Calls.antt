-- ===== src/Server/Accepting/Calls.antt =====
-- acceptor.cc and socket.cc: the order of the system calls about a listening socket.
use m_server.Prelude.{
  ℕ, ◌≡◌, ◌≢◌, refl, sym, ap, ◌∙◌, List, [], ◌∷◌, ◌++◌, Option, none, some, inl, inr, ◌==◌, ==_iff,
  if-both, Bool, true, Bool-cases, if◌then◌else◌, arith, false, ◌<◌, ok, err, aborted,
}
use m_server.Polling.Handle
use m_server.Polling.Handle.{changed}
use m_server.Polling.Mask.{event_none}
use m_server.Socket.{Answer, Accepted, connection, refused, accept, new}
use m_server.Socket.Requests.{
  Request, asks_socket, asks_bind, asks_listen, asks_accept4, asks_close, create_tcp_socket_fd,
  close,
}
use m_server.Socket.Methods
use m_server.Server.Accepting.{
  Acceptor, Event, starts, readable, asked, construct, listens, start, handle_read, close_valid,
  destroy, step, run,
}

-- A listening socket as a state machine.
pub data Phase : Type 0 where
  absent opened bound listening closed : Phase

on_own : ℕ → Option ℕ → Phase → Option Phase
on_own fd none p = none
on_own fd (some n) p = if n == fd then some p else none

on_own_lem : (fd : ℕ) (p : Phase) → on_own fd (some fd) p ≡ some p
unfolding on_own
on_own_lem fd p = rw ((==_iff fd fd).1 refl) refl

module _ {ℓ} {Address : Type ℓ} (fd : ℕ) where
  -- The phase after a system call; `none` where the call is out of order or about another socket.
  -- In `listening` other descriptors may be closed.
  unfoldable pub next : Phase → Request Address → Option Phase
  unfolding on_own
  next absent asks_socket = some opened
  next opened (asks_bind sfd addr) = on_own fd sfd bound
  next bound (asks_listen sfd) = on_own fd sfd listening
  next listening (asks_accept4 sfd) = on_own fd sfd listening
  next listening (asks_close (some n)) = some (if n == fd then closed else listening)
  next bound (asks_close sfd) = on_own fd sfd closed
  next _ _ = none

  unfoldable pub phase_from : Option Phase → List (Request Address) → Option Phase
  unfolding next
  phase_from none rs = none
  phase_from (some p) [] = some p
  phase_from (some p) (r ∷ rs) = phase_from (next p r) rs

  phase_from-append :
      (p : Option Phase) (rs qs : List (Request Address))
      → phase_from p (rs ++ qs) ≡ phase_from (phase_from p rs) qs
  unfolding phase_from
  phase_from-append none rs qs = refl
  phase_from-append (some p) [] qs = refl
  phase_from-append (some p) (r ∷ rs) qs = phase_from-append (next p r) rs qs

  abbrev pub phase_of : Acceptor Address → Option Phase
  phase_of a = phase_from (some absent) a.requests

  -- An acceptor between its constructor and its destructor.
  pub record IsAccepting (a : Acceptor Address) : Type ℓ where
    pub own : a.accept_socket.fd ≡ some fd
    pub phase : phase_of a ≡ some (if a.is_listing then listening else bound)
    pub polls : a.events.pollin ≡ a.is_listing

  -- What is asked of an event: poll(2) reports only what the handle waits for, and a descriptor that
  -- `accept4` gives is not in use.
  abbrev pub Possible : Event Address → Acceptor Address → Type 0
  Possible (starts answer) a = Unit
  Possible (readable (connection n) peer) a = (a.events.pollin ≡ true) × (n ≢ fd)
  Possible (readable (refused e) peer) a = a.events.pollin ≡ true

  abbrev pub Allowed : List (Event Address) → Acceptor Address → Type 0
  Allowed [] a = Unit
  Allowed (e ∷ es) a = Possible e a × Allowed es (step e a)

  -- A call that the phase allows.
  asked-phase :
      (r : Request Address) (a : Acceptor Address) (p q : Phase)
      → phase_of a ≡ some p
      → next p r ≡ some q
      → phase_from (some absent) (a.requests ++ r ∷ []) ≡ some q
  unfolding phase_from
  asked-phase r a p q e f =
      rw (phase_from-append (some absent) a.requests (r ∷ []), e) (ap (λ x. phase_from x []) f)

  start-IsAccepting :
      (answer : Answer) (a : Acceptor Address) → IsAccepting a → IsAccepting (start answer a)
  unfolding start listens asked Methods.listen changed next
  start-IsAccepting answer a h =
      if-both IsAccepting a.is_listing (λ e. h)
        (λ e. record {
          own = h.own;
          phase =
              asked-phase (asks_listen a.accept_socket.fd) a bound listening
                (h.phase ∙ ap (λ b. some (if b then listening else bound)) e)
                (ap (λ sfd. on_own fd sfd listening) h.own ∙ on_own_lem fd listening);
          polls = ground arith;
        })

  -- A call that leaves a listening socket as it is.
  listening-IsAccepting :
      (r : Request Address) (handed : List (Option ℕ)) (a : Acceptor Address)
      → a.is_listing ≡ true
      → next listening r ≡ some listening
      → IsAccepting a
      → IsAccepting (record a { requests = a.requests ++ r ∷ []; handed = handed })
  listening-IsAccepting r handed a e f h = record {
    own = h.own;
    phase =
        asked-phase r a listening listening
          (h.phase ∙ ap (λ b. some (if b then listening else bound)) e) f
        ∙ ap (λ b. some (if b then listening else bound)) (sym e);
    polls = h.polls;
  }

  accept-next :
      (a : Acceptor Address)
      → IsAccepting a
      → next listening (asks_accept4 a.accept_socket.fd) ≡ some listening
  unfolding next
  accept-next a h = ap (λ sfd. on_own fd sfd listening) h.own ∙ on_own_lem fd listening

  handle_read-IsAccepting :
      (answer : Accepted) (peer : Address) (a : Acceptor Address)
      → Possible (readable answer peer) a
      → IsAccepting a
      → IsAccepting (handle_read answer peer a)
  unfolding handle_read close_valid asked accept close next
  handle_read-IsAccepting (refused e) peer a p h =
      listening-IsAccepting (asks_accept4 a.accept_socket.fd) a.handed a (sym h.polls ∙ p)
        (accept-next a h) h
  handle_read-IsAccepting (connection n) peer a p h =
      let call = asks_accept4 a.accept_socket.fd in
      let live = sym h.polls ∙ p.0 in
      let h' = listening-IsAccepting call a.handed a live (accept-next a h) h in
      if-both IsAccepting a.new_conn_cb
        (λ e. listening-IsAccepting call (a.handed ++ some n ∷ []) a live (accept-next a h) h)
        (λ e.
          listening-IsAccepting (asks_close (some n)) a.handed
            (record a { requests = a.requests ++ call ∷ [] }) live
            (ground (arith, p.1, ==_iff n fd)) h')

  run-IsAccepting :
      (es : List (Event Address)) (a : Acceptor Address)
      → Allowed es a
      → IsAccepting a
      → IsAccepting (run es a)
  unfolding run step
  run-IsAccepting [] a p h = h
  run-IsAccepting (starts answer ∷ es) a p h =
      run-IsAccepting es (start answer a) p.1 (start-IsAccepting answer a h)
  run-IsAccepting (readable answer peer ∷ es) a p h =
      run-IsAccepting es (handle_read answer peer a) p.1
        (handle_read-IsAccepting answer peer a p.0 h)

  destroy-closed : (a : Acceptor Address) → IsAccepting a → phase_of (destroy a) ≡ some closed
  unfolding destroy close_valid asked close next
  destroy-closed a h =
      let call = asks_close (some fd) in
      let closed_own : (if fd == fd then closed else listening) ≡ closed =
        rw ((==_iff fd fd).1 refl) refl in
      ap (λ sfd. phase_of (close_valid sfd a)) h.own ∙ elim (Bool-cases a.is_listing) [
        | inl e ↦
            asked-phase call a listening closed
              (h.phase ∙ ap (λ b. some (if b then listening else bound)) e) (ap some closed_own)
        | inr e ↦
            asked-phase call a bound closed
              (h.phase ∙ ap (λ b. some (if b then listening else bound)) e) (on_own_lem fd closed)
      ]

  -- What the constructor leaves.
  abbrev pub constructed : Address → Bool → Acceptor Address
  constructed addr set = record {
    accept_socket = new (some fd);
    is_listing = false;
    events = event_none;
    new_conn_cb = set;
    requests = asks_socket ∷ asks_bind (some fd) addr ∷ [];
    handed = [];
  }

  construct_lem :
      (answer : Answer) (addr : Address) (set : Bool)
      → 0 < fd
      → construct (some fd) answer addr set ≡ ok (constructed addr set)
  unfolding construct asked create_tcp_socket_fd Methods.bind Handle.new
  construct_lem answer addr set positive = ground arith

  constructed-IsAccepting : (addr : Address) (set : Bool) → IsAccepting (constructed addr set)
  unfolding phase_from next on_own
  constructed-IsAccepting addr set = record {
    own = refl;
    phase = ap (λ x. phase_from x []) (on_own_lem fd bound);
    polls = refl;
  }

  -- Let the kernel give an acceptor a descriptor above 0: its constructor returns. However often the
  -- server is then started and sockets arrive, where read events come only while the handle waits for
  -- them and `accept4` gives other descriptors, the system calls from the constructor to the destructor
  -- are in order: `socket`, `bind`, at most one `listen`, `accept4` only after it, and one `close` at the
  -- end; all are about this descriptor, but for the `close` of sockets that are not handed over.
  pub calls-ordered :
      (answer : Answer) (addr : Address) (set : Bool) (es : List (Event Address))
      → 0 < fd
      → Allowed es (constructed addr set)
      → (construct (some fd) answer addr set ≡ ok (constructed addr set))
        × (phase_of (destroy (run es (constructed addr set))) ≡ some closed)
  calls-ordered answer addr set es positive p = (
    construct_lem answer addr set positive,
    destroy-closed (run es (constructed addr set))
        (run-IsAccepting es (constructed addr set) p (constructed-IsAccepting addr set)),
  )

  -- A descriptor that could not be made, or is 0, fails the `assert`.
  pub construct-fails :
      (answer : Answer) (addr : Address) (set : Bool)
      → (construct none answer addr set ≡ err aborted)
        × (construct (some 0) answer addr set ≡ err aborted)
  unfolding construct create_tcp_socket_fd Handle.new
  construct-fails answer addr set = (refl, refl)
