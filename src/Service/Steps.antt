-- ===== src/Service/Steps.antt =====
-- tcp_server.cc and tcp_connection.cc: the steps of a server and its connections.
use m_server.Prelude.{
  update, update_same, update_other, ℕ, ◌+◌, ◌-◌, ◌<◌, ◌≡◌, ◌^◌, refl, sym, ◌∙◌, subst, List, [],
  ◌∷◌, ◌++◌, Option, Bool, ◌==◌, ==_iff, inl, inr, Bool-cases, Result-cases, Ensures, arith,
}
use m_server.Buffer.{Buffer}
use m_server.Connection.{Connection}
use m_server.Connection.Closing.{closings, Closed}
use m_server.Connection.Setters.{set_connection_callback, set_message_callback, set_close_callback}
use m_server.Server.{TcpServer}
use m_server.Server.Pool.{get_next_loop}
use m_server.Server.Connections.{Naming}
use m_server.Server.Live.{Live, Shows, has, remove, after, accept, close}
use m_server.Server.Live
use m_server.Server.Live.Numbers.{has-append_eq}
use m_server.Server.Live.Runs.{step_live}
use m_server.Service.{Functor, establish, Service, made, register}
use m_server.Service.Pending.{total, total-append, removes, retires}
use m_server.Service.Invariant.{Stage-of, Stage-later, Stage-made, StageAt, Inv, Good}

-- What a functor left with a loop changes.
pub total-left :
    (weight : Functor → ℕ) (fs : List Functor) (f : Functor)
    → total weight (fs ++ f ∷ []) ≡ total weight fs + weight f
unfolding total
total-left weight fs f = omega (arith, total-append weight fs (f ∷ []))

module _ {ℓ} {Name : Type ℓ} (conn_name : ℕ → Name) (same : Name → Name → Bool)
    (connection_cb message_cb : Bool) (buffer : Buffer) (naming : Naming conn_name same) where
  abbrev fresh : Connection
  fresh = made conn_name same connection_cb message_cb buffer

  fresh-Closed : Closed 0 fresh
  unfolding set_connection_callback set_message_callback set_close_callback closings
  fresh-Closed = refl

  -- The state after `register_connection`.
  abbrev grown : Service Name → ℕ → Option ℕ → TcpServer Name → Service Name
  grown w n owner s = record {
    server = s;
    objects = update n fresh w.objects;
    owners = update n owner w.owners;
    pending = w.pending ++ establish n ∷ [];
    posts = w.posts;
  }

  module _ (w : Service Name) (l : Live) (owner : Option ℕ) (s : TcpServer Name)
      (inv : Inv conn_name w l) where
    grown_at-next : StageAt (grown w l.next owner s) (after (accept 0) l) l.next
    grown_at-next =
        let f = establish l.next in
        let more = total-left (removes l.next) w.pending f in
        let more_too = total-left (retires l.next) w.pending f in
        Stage-of (update_same l.next fresh w.objects) (omega (arith, more))
          (omega (arith, more_too)) (has-append_eq l.next l.next l.numbers ∙ ground arith)
          (Stage-made fresh-Closed (inv.stage l.next))

    grown-Stage : (n : ℕ) → StageAt (grown w l.next owner s) (after (accept 0) l) n
    grown-Stage n =
        let f = establish l.next in
        let more = total-left (removes n) w.pending f in
        let more_too = total-left (retires n) w.pending f in
        elim (Bool-cases (n == l.next)) [
          | inl e ↦
              subst (StageAt (grown w l.next owner s) (after (accept 0) l))
                (sym ((==_iff n l.next).0 e)) grown_at-next
          | inr e ↦
              Stage-of (update_other l.next n fresh w.objects e) (omega (arith, more))
                (omega (arith, more_too)) (has-append_eq n l.next l.numbers ∙ ground arith)
                (Stage-later (λ k. ground arith) (inv.stage n))
        ]

  -- `register_connection` makes an open connection, and changes no other.
  pub register-Good :
      (sock : ℕ) (w : Service Name) (l : Live)
      → Inv conn_name w l
      → l.next < 2 ^ 31 - 1
      → Ensures (Good conn_name) (register conn_name same connection_cb message_cb buffer sock w)
  unfolding register Live.step
  register-Good sock w l inv room = elim (Result-cases (get_next_loop w.server.pool)) [
    | inl (r, e) ↦
        let (s, f, shows) =
          step_live conn_name same naming (accept sock) w.server l inv.shows room in
        let good : Good conn_name (grown w l.next r.0 s) =
          (after (accept sock) l, record { shows = shows; stage = grown-Stage w l r.0 s inv }) in
        rw e (rw f (rw inv.shows.next_is good))
    | inr (f, e) ↦ rw e tt
  ]

  -- A connection that is open and stays so.
  pub changed-Good :
      (i : ℕ) (d : Connection) (w : Service Name) (l : Live)
      → Inv conn_name w l
      → StageAt (record w { objects = update i d w.objects }) l i
      → Good conn_name (record w { objects = update i d w.objects })
  changed-Good i d w l inv s = (
    l,
    record {
      shows = inv.shows;
      stage = λ n. elim (Bool-cases (n == i)) [
        | inl e ↦
            subst (StageAt (record w { objects = update i d w.objects }) l) (sym ((==_iff n i).0 e))
              s
        | inr e ↦ Stage-of (update_other i n d w.objects e) refl refl refl (inv.stage n)
      ];
    },
  )
