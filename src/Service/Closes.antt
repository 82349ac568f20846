-- ===== src/Service/Closes.antt =====
-- tcp_server.cc and tcp_connection.cc: a report of poll(2), and the end of a connection.
use m_server.Prelude.{
  List, map, Option, none, get_elem?, remove_at, update, update_same, update_other, ℕ, ◌+◌, ◌-◌,
  ◌≤◌, ◌<◌, ◌≡◌, refl, sym, subst, [], ◌∷◌, ◌++◌, some, Bool, true, ◌==◌, ==_iff, inl, inr,
  Option-cases, Bool-cases, Result, Result-cases, Ensures, Ensures-ok, arith,
}
use m_server.Buffer.{Buffer, Readv}
use m_server.Polling.Mask.{Mask, any}
use m_server.Connection.{Connection}
use m_server.Connection.Closing.{closings, Closed, Shut, OpenOrShut}
use m_server.Server.{TcpServer}
use m_server.Server.Connections.{Naming}
use m_server.Server.Live.{Live, Shows, has, remove, after, accept, close}
use m_server.Server.Live
use m_server.Server.Live.Numbers.{has-remove_ne, has-remove_self}
use m_server.Server.Live.Runs.{step_live}
use m_server.Service.{Functor, retire, removal, Service}
use m_server.Service.Pending.{total, removes, retires}
use m_server.Service.Invariant.{
  IsOpen, Stage-of, Stage-open, StageAt, Inv, Good, removals, retirements,
}
use m_server.Connection.{Written}
use m_server.Connection
use m_server.Connection.Events
use m_server.Connection.Closing.{IsUse, use-Closed}
use m_server.Service.{
  called, handlers, remove_in_loop, remove_connection, closes, polling, use_connection, Post, sends,
  shuts_down, post_event, posted, run_post,
}
use m_server.Service.Handlers.{closers, handlers-OpenOrShut}
use m_server.Service.Steps.{changed-Good, total-left}

-- What is asked of a report: it is about a connection that was made and waits for some event, and
-- does not call both `handle_close` and `handle_read`.
pub record IsReport {ℓ} {Name : Type ℓ} (i : ℕ) (revents : Mask) (w : Service Name) : Type 0 where
  pub pos : 0 < i
  pub made_before : i < w.server.next_conn_id
  pub waits : (m : Mask) × (((w.objects i).events ≡ some m) × (any m ≡ true))
  pub one : closers (called revents) ≤ 1

-- The functor, if there is one, comes to a connection that is not closed.
abbrev pub IsOpenFor {ℓ} : {Name : Type ℓ} → Option (ℕ × Post) → Service Name → Type 0
IsOpenFor none w = Unit
IsOpenFor (some (i, p)) w = Closed 0 (w.objects i)

pub post-IsUse : (answer : Written) (p : Post) → IsUse (post_event answer p)
post-IsUse answer (sends msg n) = tt
post-IsUse answer shuts_down = tt

module _ {ℓ} {Name : Type ℓ} (conn_name : ℕ → Name) (same : Name → Name → Bool)
    (connection_cb message_cb : Bool) (buffer : Buffer) (naming : Naming conn_name same) where
  module _ (w : Service Name) (l : Live) (inv : Inv conn_name w l) (i : ℕ) (d : Connection)
      (shut : Shut d)
      (s : IsOpen (w.objects i) (removals i w) (retirements i w) (has i l.numbers) l.next i)
      (pos : 0 < i) (lt : i < l.next) where
    -- In the server's own loop the removal runs at once.
    abbrev removed : TcpServer Name → Service Name
    removed t = record w {
      server = t;
      objects = update i d w.objects;
      pending = w.pending ++ retire i ∷ [];
    }

    removed_at-i : (t : TcpServer Name) → StageAt (removed t) (after (close i) l) i
    removed_at-i t = Stage-of (update_same i d w.objects) refl refl refl (
        inr (record {
          shut = shut;
          made_before = lt;
          leaving = inr (
            omega (arith, total-left (removes i) w.pending (retire i), s.not_removed),
            has-remove_self i l.numbers inv.shows.distinct,
          );
        }))

    removed-Stage : (t : TcpServer Name) (n : ℕ) → StageAt (removed t) (after (close i) l) n
    removed-Stage t n = elim (Bool-cases (n == i)) [
      | inl e ↦
          subst (StageAt (removed t) (after (close i) l)) (sym ((==_iff n i).0 e)) (removed_at-i t)
      | inr e ↦
          Stage-of (update_other i n d w.objects e)
            (omega (arith, total-left (removes n) w.pending (retire i)))
            (ground (arith, total-left (retires n) w.pending (retire i)))
            (has-remove_ne n i l.numbers (λ k. ground arith)) (inv.stage n)
    ]

    -- In another loop it is left with the server's.
    abbrev leaving : Service Name
    leaving = record w {
      objects = update i d w.objects;
      pending = (w.pending ++ removal i ∷ []) ++ retire i ∷ [];
    }

    total-leaving :
        (weight : Functor → ℕ)
        → total weight leaving.pending
          ≡ total weight w.pending + weight (removal i) + weight (retire i)
    total-leaving weight = omega (
      arith,
      total-left weight (w.pending ++ removal i ∷ []) (retire i),
      total-left weight w.pending (removal i),
    )

    leaving_at-i : StageAt leaving l i
    leaving_at-i = Stage-of (update_same i d w.objects) refl refl refl (
        inr (record {
          shut = shut;
          made_before = lt;
          leaving = inl (ground (arith, total-leaving (removes i), s.not_removed), s.live pos lt);
        }))

    leaving-Stage : (n : ℕ) → StageAt leaving l n
    leaving-Stage n = elim (Bool-cases (n == i)) [
      | inl e ↦ subst (StageAt leaving l) (sym ((==_iff n i).0 e)) leaving_at-i
      | inr e ↦
          Stage-of (update_other i n d w.objects e) (ground (arith, total-leaving (removes n)))
            (ground (arith, total-leaving (retires n))) refl (inv.stage n)
    ]

    -- A close that poll(2) reports finds its connection in the map, or leaves it to the server's loop.
    closes-Good : Ensures (Good conn_name) (
        closes conn_name same connection_cb message_cb buffer 1 i
          (record w { objects = update i d w.objects }))
    unfolding closes remove_connection remove_in_loop Live.step
    closes-Good = elim (Option-cases (w.owners i)) [
      | inl e ↦
          let (t, f, shows) =
            step_live conn_name same naming (close i) w.server l inv.shows (s.live pos lt) in
          rw e (rw f (after (close i) l, record { shows = shows; stage = removed-Stage t }))
      | inr (o, e) ↦ rw e (l, record { shows = inv.shows; stage = leaving-Stage })
    ]

  -- Only a connection that is open can be reported.
  report-IsOpen :
      (i : ℕ) (revents : Mask) (w : Service Name) (l : Live)
      → Inv conn_name w l
      → IsReport i revents w
      → IsOpen (w.objects i) (removals i w) (retirements i w) (has i l.numbers) l.next i
  unfolding any
  report-IsOpen i revents w l inv r = elim (inv.stage i) [
    | inl s ↦ s
    | inr s ↦ absurd (ground (arith, s.shut.still, r.waits.1.0, r.waits.1.1))
  ]

  pub polling-Good :
      (i : ℕ) (revents : Mask) (got : Readv) (consume : Buffer → Result Buffer) (answer : Written)
      (w : Service Name) (l : Live)
      → Inv conn_name w l
      → IsReport i revents w
      → Ensures
          (Good conn_name)
          (polling conn_name same connection_cb message_cb buffer i revents got consume answer w)
  unfolding polling closes
  polling-Good i revents got consume answer w l inv r =
      let s = report-IsOpen i revents w l inv r in
      let c = w.objects i in
      let cbs = called revents in
      elim (Result-cases (handlers got consume answer cbs c)) [
        | inl (d, e) ↦
            elim (Ensures-ok OpenOrShut (handlers got consume answer cbs c) e
              (handlers-OpenOrShut got consume answer cbs c r.one s.opened)) [
                | inl opened ↦
                    let none_more : closings d.notices - closings c.notices ≡ 0 =
                      omega (arith, opened, s.opened) in
                    rw e (
                      rw none_more (
                        changed-Good conn_name same connection_cb message_cb buffer naming i d w l
                          inv
                          (Stage-of (update_same i d w.objects) refl refl refl
                            (Stage-open opened s))))
                | inr shut ↦
                    let one_more : closings d.notices - closings c.notices ≡ 1 =
                      omega (arith, shut.once, s.opened) in
                    rw e (
                      rw one_more (
                        closes-Good w l inv i d shut s r.pos
                          (omega (arith, r.made_before, inv.shows.next_is))))
              ]
        | inr (f, e) ↦ rw e tt
      ]

  -- What the application has left with the loops does not matter.
  posts-Good :
      (w : Service Name) (ps : List (ℕ × Post))
      → Good conn_name w
      → Good conn_name (record w { posts = ps })
  posts-Good w ps (l, inv) = (l, record { shows = inv.shows; stage = inv.stage })

  -- A call of the application on a connection that is open leaves it so.
  pub use_connection-Good :
      (i : ℕ) (e : Connection.Events.Event) (w : Service Name) (l : Live)
      → Inv conn_name w l
      → IsUse e
      → Closed 0 (w.objects i)
      → Ensures
          (Good conn_name)
          (use_connection conn_name same connection_cb message_cb buffer i e w)
  unfolding use_connection
  use_connection-Good i e w l inv u opened =
      let c = w.objects i in
      elim (inv.stage i) [
        | inl s ↦ elim (Result-cases (Connection.Events.step e c)) [
          | inl (d, f) ↦
              let still =
                Ensures-ok (Closed 0) (Connection.Events.step e c) f (use-Closed 0 e c u opened) in
              rw f (
                posts-Good (record w { objects = update i d w.objects })
                  (w.posts ++ map (λ p. (i, p)) (posted e c))
                  (changed-Good conn_name same connection_cb message_cb buffer naming i d w l inv
                    (Stage-of (update_same i d w.objects) refl refl refl (Stage-open still s))))
          | inr (x, f) ↦ rw f tt
        ]
        | inr s ↦ absurd (omega (arith, opened, s.shut.once))
      ]

  -- So does the functor that such a call left.
  pub run_post-Good :
      (j : ℕ) (answer : Written) (w : Service Name)
      → Good conn_name w
      → IsOpenFor (get_elem? w.posts j) w
      → Ensures
          (Good conn_name)
          (run_post conn_name same connection_cb message_cb buffer j answer w)
  unfolding run_post
  run_post-Good j answer w g opened = elim (Option-cases (get_elem? w.posts j)) [
    | inl e ↦ rw (e, run_post) g
    | inr ((i, p), e) ↦
        let less = record w { posts = remove_at j w.posts } in
        let (l, inv) = posts-Good w (remove_at j w.posts) g in
        let open_still : Closed 0 (w.objects i) = rw e at opened in
        rw (e, run_post)
          (use_connection-Good i (post_event answer p) less l inv (post-IsUse answer p) open_still)
  ]
