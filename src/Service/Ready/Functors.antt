-- ===== src/Service/Ready/Functors.antt =====
-- tcp_server.cc and tcp_connection.cc: every functor that runs keeps what those that wait need.
use m_server.Prelude.{
  update, update_same, update_other, ℕ, ◌≡◌, refl, sym, subst, some, Bool, ◌==◌, ==_iff, inl, inr,
  get_elem?, remove_at, Option-cases, Bool-cases, Result-cases, Ensures, Ensures-ok, arith,
}
use m_server.Buffer.{Buffer}
use m_server.Polling.Mask.{any}
use m_server.Connection.{Connection, connection_estabalished, connection_destroyed}
use m_server.Connection.Early.{Fresh, Sets, connection_estabalished-Sets, connection_destroyed-Sets}
use m_server.Service.{
  Functor, establish, retire, removal, Service, retire_in_loop, run_functor, run_at,
}
use m_server.Service.Pending.{total, total-remove_at, retires, establishes}
use m_server.Service.Ready.{At, Ready, At-of}
use m_server.Service.Ready.Steps.{changed-Ready, remove_in_loop-Ready}

module _ {ℓ} {Name : Type ℓ} (conn_name : ℕ → Name) (same : Name → Name → Bool)
    (connection_cb message_cb : Bool) (buffer : Buffer) where
  abbrev Kept : Service Name → Type ℓ
  Kept = Ready connection_cb

  -- Without the functor that stands at this index.
  module _ (j : ℕ) (w : Service Name) (r : Kept w) where
    without-Ready :
        (f : Functor)
        → get_elem? w.pending j ≡ some f
        → ((n : ℕ) → establishes n f ≡ 0)
        → Kept (record w { pending = remove_at j w.pending })
    without-Ready f e z = record {
      at = λ n.
          At-of refl (omega (arith, total-remove_at (establishes n) j f w.pending e, z n)) refl
            (r.at n);
      named = omega (arith, total-remove_at (retires 0) j f w.pending e, r.named);
    }

    -- A connection is established by one functor.
    pub establish-Fresh : (i : ℕ) → get_elem? w.pending j ≡ some (establish i) → Fresh (w.objects i)
    establish-Fresh i e = elim (r.at i).0 [
      | inl z ↦ absurd (
          ground
            (arith, total-remove_at (establishes i) j (establish i) w.pending e, z, ==_iff i i))
      | inr (one, (fresh, lt)) ↦ fresh
    ]

    established_once :
        (i : ℕ)
        → get_elem? w.pending j ≡ some (establish i)
        → total (establishes i) (remove_at j w.pending) ≡ 0
    established_once i e =
        let less = total-remove_at (establishes i) j (establish i) w.pending e in
        elim (r.at i).0 [
          | inl z ↦ omega (arith, less, z)
          | inr (one, h) ↦ ground (arith, less, one, ==_iff i i)
        ]

    without_establish-Ready :
        (i : ℕ) (d : Connection)
        → get_elem? w.pending j ≡ some (establish i)
        → (Sets connection_cb (w.objects i) → Sets connection_cb d)
        → Kept (record w { pending = remove_at j w.pending; objects = update i d w.objects })
    without_establish-Ready i d e k = record {
      at = λ n. elim (Bool-cases (n == i)) [
        | inl g ↦
            subst
              (λ m.
                At connection_cb (update i d w.objects m)
                  (total (establishes m) (remove_at j w.pending)) w.server.next_conn_id m)
              (sym ((==_iff n i).0 g))
              (At-of (update_same i d w.objects) refl refl
                (inl (established_once i e), λ p lt. k ((r.at i).1 p lt)))
        | inr g ↦
            At-of (update_other i n d w.objects g)
              (ground (
                arith,
                total-remove_at (establishes n) j (establish i) w.pending e,
                ==_iff i n,
                ==_iff n i,
              ))
              refl (r.at n)
      ];
      named = omega (arith, total-remove_at (retires 0) j (establish i) w.pending e, r.named);
    }

    establish-Ready :
        (i : ℕ)
        → get_elem? w.pending j ≡ some (establish i)
        → Ensures Kept (run_at conn_name same connection_cb message_cb buffer j w)
    unfolding run_at run_functor
    establish-Ready i e =
        let does = connection_estabalished (w.objects i) in
        elim (Result-cases does) [
          | inl (d, f) ↦
              rw (e, run_at)
                (rw f (
                  without_establish-Ready i d e (λ h.
                    Ensures-ok (Sets connection_cb) does f
                      (connection_estabalished-Sets connection_cb (w.objects i) h))))
          | inr (x, f) ↦ rw (e, run_at) (rw f tt)
        ]

    retire-Ready :
        (i : ℕ)
        → get_elem? w.pending j ≡ some (retire i)
        → Ensures Kept (run_at conn_name same connection_cb message_cb buffer j w)
    unfolding run_at run_functor retire_in_loop
    retire-Ready i e =
        let c = w.objects i in
        let does = connection_destroyed c in
        let less = without-Ready (retire i) e (λ n. refl) in
        elim (Option-cases c.events) [
          | inl none_yet ↦ rw (e, run_at) (rw none_yet tt)
          | inr (m, waits) ↦ elim (Bool-cases (any m)) [
            | inl some_event ↦ rw (e, run_at) (rw waits (rw some_event tt))
            | inr still ↦ elim (Result-cases does) [
              | inr (x, f) ↦ rw (e, run_at) (rw f (rw waits (rw still tt)))
              | inl (d, f) ↦
                  let at : At connection_cb d (total (establishes i) (remove_at j w.pending))
                      w.server.next_conn_id i =
                    (
                      elim (less.at i).0 [
                        | inl z ↦ inl z
                        | inr (one, (fresh, lt)) ↦
                            absurd (ground (arith, fresh.unregistered, waits))
                      ],
                      λ p lt.
                          Ensures-ok (Sets connection_cb) does f
                            (connection_destroyed-Sets connection_cb c ((less.at i).1 p lt)),
                    ) in
                  rw (e, run_at)
                    (rw f (
                      rw waits (
                        rw still (
                          changed-Ready conn_name same connection_cb message_cb buffer i d
                            (record w { pending = remove_at j w.pending }) less at))))
            ]
          ]
        ]

    -- Whatever functor runs.
    pub run_at-Ready : Ensures Kept (run_at conn_name same connection_cb message_cb buffer j w)
    unfolding run_at run_functor
    run_at-Ready = elim (Option-cases (get_elem? w.pending j)) [
      | inl e ↦ rw (e, run_at) r
      | inr (establish i, e) ↦ establish-Ready i e
      | inr (retire i, e) ↦ retire-Ready i e
      | inr (removal i, e) ↦
          rw (e, run_at)
            (remove_in_loop-Ready conn_name same connection_cb message_cb buffer i
              (record w { pending = remove_at j w.pending })
              (without-Ready (removal i) e (λ n. refl)))
    ]
