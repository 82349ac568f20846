-- ===== src/Service/Ready/Steps.antt =====
-- tcp_server.cc and tcp_connection.cc: every step keeps what the functors that wait need.
use m_server.Prelude.{
  List, map, get_elem?, remove_at, update, update_same, update_other, ℕ, zero, suc, ◌<◌, ◌≡◌, refl,
  sym, subst, [], ◌∷◌, ◌++◌, Bool, ◌==◌, ==_iff, inl, inr, Option-cases, Bool-cases, Result,
  Result-cases, Ensures, Ensures-ok, arith,
}
use m_server.Buffer.{Buffer, Readv}
use m_server.Polling.Mask.{Mask}
use m_server.Connection.{
  Connection, Written, connecting, connection_estabalished, connection_destroyed, handle_read,
  handle_write, handle_close, handle_error,
}
use m_server.Connection
use m_server.Connection.Events
use m_server.Connection.Closing.{IsUse}
use m_server.Connection.Early.{Fresh, use-Fresh, Sets, use-Sets}
use m_server.Server.{TcpServer, remove_connection_in_loop}
use m_server.Service.{
  Functor, retire, removal, Service, called, handlers, closes, remove_connection, remove_in_loop,
  polling, use_connection, Post, post_event, posted, run_post,
}
use m_server.Service.Pending.{total, retires, establishes}
use m_server.Service.Steps.{total-left}
use m_server.Service.Closes.{IsReport, post-IsUse}
use m_server.Service.Ready.{At, Ready, At-of, handlers-Sets}

remove_connection_in_loop-next {ℓ} :
    {Name : Type ℓ} (conn_name : ℕ → Name) (same : Name → Name → Bool) (name : Name)
    (s : TcpServer Name)
    → Ensures
        (λ t. t.next_conn_id ≡ s.next_conn_id)
        (remove_connection_in_loop conn_name same name s)
unfolding remove_connection_in_loop
remove_connection_in_loop-next conn_name same name s = ground arith

module _ {ℓ} {Name : Type ℓ} (conn_name : ℕ → Name) (same : Name → Name → Bool)
    (connection_cb message_cb : Bool) (buffer : Buffer) where
  abbrev Kept : Service Name → Type ℓ
  Kept = Ready connection_cb

  -- One connection changes.
  pub changed-Ready :
      (i : ℕ) (d : Connection) (w : Service Name)
      → Kept w
      → At connection_cb d (total (establishes i) w.pending) w.server.next_conn_id i
      → Kept (record w { objects = update i d w.objects })
  changed-Ready i d w r h = record {
    at = λ n. elim (Bool-cases (n == i)) [
      | inl e ↦
          subst
            (λ m.
              At connection_cb (update i d w.objects m) (total (establishes m) w.pending)
                w.server.next_conn_id m)
            (sym ((==_iff n i).0 e)) (At-of (update_same i d w.objects) refl refl h)
      | inr e ↦ At-of (update_other i n d w.objects e) refl refl (r.at n)
    ];
    named = r.named;
  }

  -- A functor is left, about the end of a connection that has a name.
  left-Ready :
      (f : Functor) (w : Service Name)
      → ((n : ℕ) → establishes n f ≡ 0)
      → retires 0 f ≡ 0
      → Kept w
      → Kept (record w { pending = w.pending ++ f ∷ [] })
  left-Ready f w e z r = record {
    at = λ n. At-of refl (omega (arith, total-left (establishes n) w.pending f, e n)) refl (r.at n);
    named = omega (arith, total-left (retires 0) w.pending f, z, r.named);
  }

  -- The map changes.
  server-Ready :
      (s : TcpServer Name) (w : Service Name)
      → s.next_conn_id ≡ w.server.next_conn_id
      → Kept w
      → Kept (record w { server = s })
  server-Ready s w e r = record { at = λ n. At-of refl refl e (r.at n); named = r.named }

  pub remove_in_loop-Ready :
      (i : ℕ) (w : Service Name)
      → Kept w
      → Ensures Kept (remove_in_loop conn_name same connection_cb message_cb buffer i w)
  unfolding remove_in_loop
  remove_in_loop-Ready i w r =
      let erased = remove_connection_in_loop conn_name same (conn_name i) w.server in
      elim (Result-cases erased) [
        | inl (s, e) ↦ rw e (
            server-Ready s w
              (Ensures-ok (λ t. t.next_conn_id ≡ w.server.next_conn_id) erased e
                (remove_connection_in_loop-next conn_name same (conn_name i) w.server))
              r)
        | inr (f, e) ↦ rw e tt
      ]

  remove_connection-Ready :
      (i : ℕ) (w : Service Name)
      → Kept w
      → Ensures Kept (remove_connection conn_name same connection_cb message_cb buffer i w)
  unfolding remove_connection
  remove_connection-Ready i w r = elim (Option-cases (w.owners i)) [
    | inl e ↦ rw (e, remove_connection) (remove_in_loop-Ready i w r)
    | inr (l, e) ↦ rw (e, remove_connection) (left-Ready (removal i) w (λ n. refl) refl r)
  ]

  closes-Ready :
      (k i : ℕ) (w : Service Name)
      → 0 < i
      → Kept w
      → Ensures Kept (closes conn_name same connection_cb message_cb buffer k i w)
  unfolding closes
  closes-Ready zero i w pos r = r
  closes-Ready (suc k) i w pos r =
      let removed = remove_connection conn_name same connection_cb message_cb buffer i w in
      elim (Result-cases removed) [
        | inl (v, e) ↦ rw e (
            closes-Ready k i (record v { pending = v.pending ++ retire i ∷ [] }) pos
              (left-Ready (retire i) v (λ n. refl) (ground arith)
                (Ensures-ok Kept removed e (remove_connection-Ready i w r))))
        | inr (f, e) ↦ rw e tt
      ]

  -- A connection that waits for an event was established.
  pub polling-Ready :
      (i : ℕ) (revents : Mask) (got : Readv) (consume : Buffer → Result Buffer) (answer : Written)
      (w : Service Name)
      → IsReport i revents w
      → Kept w
      → Ensures Kept
          (polling conn_name same connection_cb message_cb buffer i revents got consume answer w)
  unfolding polling
  polling-Ready i revents got consume answer w h r =
      let c = w.objects i in
      let all = handlers got consume answer (called revents) c in
      let (early, sets) = r.at i in
      elim (Result-cases all) [
        | inl (d, e) ↦
            let idle : total (establishes i) w.pending ≡ 0 = elim early [
              | inl z ↦ z
              | inr (one, (fresh, lt)) ↦ absurd (ground (arith, fresh.unregistered, h.waits.1.0))
            ] in
            rw e (
              closes-Ready _ i (record w { objects = update i d w.objects }) h.pos
                (changed-Ready i d w r (
                  inl idle,
                  λ p lt. Ensures-ok (Sets connection_cb) all e (
                      handlers-Sets connection_cb got consume answer (called revents) c
                        (sets p lt)),
                )))
        | inr (f, e) ↦ rw e tt
      ]

  posts-Ready : (w : Service Name) (ps : List (ℕ × Post)) → Kept w → Kept (record w { posts = ps })
  posts-Ready w ps r = record { at = r.at; named = r.named }

  pub use_connection-Ready :
      (i : ℕ) (u : Connection.Events.Event) (w : Service Name)
      → IsUse u
      → Kept w
      → Ensures Kept (use_connection conn_name same connection_cb message_cb buffer i u w)
  unfolding use_connection
  use_connection-Ready i u w is_use r =
      let c = w.objects i in
      let does = Connection.Events.step u c in
      let (early, sets) = r.at i in
      elim (Result-cases does) [
        | inl (d, e) ↦ rw e (
            posts-Ready (record w { objects = update i d w.objects })
              (w.posts ++ map (λ p. (i, p)) (posted u c))
              (changed-Ready i d w r (
                elim early [
                  | inl z ↦ inl z
                  | inr (one, (fresh, lt)) ↦
                      inr (one, (Ensures-ok Fresh does e (use-Fresh u c is_use fresh), lt))
                ],
                λ p lt.
                    Ensures-ok (Sets connection_cb) does e
                      (use-Sets connection_cb u c is_use (sets p lt)),
              )))
        | inr (f, e) ↦ rw e tt
      ]

  pub run_post-Ready :
      (j : ℕ) (answer : Written) (w : Service Name)
      → Kept w
      → Ensures Kept (run_post conn_name same connection_cb message_cb buffer j answer w)
  unfolding run_post
  run_post-Ready j answer w r = elim (Option-cases (get_elem? w.posts j)) [
    | inl e ↦ rw (e, run_post) r
    | inr ((i, p), e) ↦
        rw (e, run_post)
          (use_connection-Ready i (post_event answer p) (record w { posts = remove_at j w.posts })
            (post-IsUse answer p) (posts-Ready w (remove_at j w.posts) r))
  ]
