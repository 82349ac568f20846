-- ===== src/Service/Ready/Made.antt =====
-- tcp_server.cc: a connection that is made has one functor that establishes it.
use m_server.Prelude.{
  update, update_same, update_other, ℕ, suc, ◌≡◌, refl, sym, subst, [], ◌∷◌, ◌++◌, Bool, false,
  ◌==◌, ==_iff, inl, inr, Bool-cases, Result-cases, Ensures, Ensures-ok, arith,
}
use m_server.Buffer.{Buffer}
use m_server.Connection.{Connection}
use m_server.Connection.Setters.{set_connection_callback, set_message_callback, set_close_callback}
use m_server.Server.{TcpServer, register_connection}
use m_server.Server.Pool.{get_next_loop}
use m_server.Service.{establish, Service, made, register}
use m_server.Service.Pending.{total, retires, establishes}
use m_server.Service.Steps.{total-left}
use m_server.Service.Ready.{At, Ready, At-of}

register_connection-next {ℓ} :
    {Name : Type ℓ} (conn_name : ℕ → Name) (same : Name → Name → Bool) (sock : ℕ)
    (s : TcpServer Name)
    → Ensures (λ t. t.next_conn_id ≡ suc s.next_conn_id) (register_connection conn_name same sock s)
unfolding register_connection
register_connection-next conn_name same sock s = ground arith

module _ {ℓ} {Name : Type ℓ} (conn_name : ℕ → Name) (same : Name → Name → Bool)
    (connection_cb message_cb : Bool) (buffer : Buffer) where
  abbrev Kept : Service Name → Type ℓ
  Kept = Ready connection_cb

  fresh-At :
      (n : ℕ) → At connection_cb (made conn_name same connection_cb message_cb buffer) 1 (suc n) n
  unfolding set_connection_callback set_message_callback set_close_callback
  fresh-At n =
      (inr (refl, (record { early = refl; unregistered = refl }, omega arith)), λ p lt. refl)

  later-At :
      {c : Connection} {a next n : ℕ}
      → (n == next) ≡ false
      → At connection_cb c a next n
      → At connection_cb c a (suc next) n
  later-At ne (early, sets) = (
    elim early [ inl z ↦ inl z | inr (one, (fresh, lt)) ↦ inr (one, (fresh, omega arith)) ],
    λ p lt. sets p (ground arith),
  )

  unborn : {c : Connection} {a next : ℕ} → At connection_cb c a next next → a ≡ 0
  unborn (inl z, sets) = z
  unborn (inr (one, (fresh, lt)), sets) = absurd (omega arith)

  pub register-Ready :
      (sock : ℕ) (w : Service Name)
      → Kept w
      → Ensures Kept (register conn_name same connection_cb message_cb buffer sock w)
  unfolding register
  register-Ready sock w r =
      let next = w.server.next_conn_id in
      let fresh = made conn_name same connection_cb message_cb buffer in
      let f = establish next in
      let registers = register_connection conn_name same sock w.server in
      elim (Result-cases (get_next_loop w.server.pool)) [
        | inr (x, e) ↦ rw e tt
        | inl (turn, e) ↦ elim (Result-cases registers) [
          | inr (x, g) ↦ rw e (rw g tt)
          | inl (s, g) ↦
              let more =
                Ensures-ok (λ t. t.next_conn_id ≡ suc next) registers g
                  (register_connection-next conn_name same sock w.server) in
              rw e (
                rw g (record {
                  at = λ n. elim (Bool-cases (n == next)) [
                    | inl k ↦
                        subst
                          (λ m.
                            At connection_cb (update next fresh w.objects m)
                              (total (establishes m) (w.pending ++ f ∷ [])) s.next_conn_id m)
                          (sym ((==_iff n next).0 k))
                          (At-of (update_same next fresh w.objects)
                            (ground (
                              arith,
                              total-left (establishes next) w.pending f,
                              unborn (r.at next),
                              ==_iff next next,
                            ))
                            more (fresh-At next))
                    | inr k ↦
                        At-of (update_other next n fresh w.objects k)
                          (ground (
                            arith,
                            total-left (establishes n) w.pending f,
                            ==_iff n next,
                            ==_iff next n,
                          ))
                          more (later-At k (r.at n))
                  ];
                  named = omega (arith, total-left (retires 0) w.pending f, r.named);
                }))
        ]
      ]
