-- ===== src/Service/Functors.antt =====
-- tcp_server.cc and tcp_connection.cc: the functors that a server and its connections leave with their
-- loops.
use m_server.Prelude.{
  update_same, ℕ, ◌≡◌, refl, subst, some, Bool, true, ◌==◌, ==_iff, inl, inr, get_elem?, remove_at,
  Option-cases, Bool-cases, Result-cases, ok, Ensures, Ensures-ok, arith,
}
use m_server.Buffer.{Buffer}
use m_server.Polling.Mask.{any}
use m_server.Connection.Closing.{Closed, Shut}
use m_server.Server.Connections.{Naming}
use m_server.Server.Live.{Live, Shows, has, remove, after, accept, close}
use m_server.Server.Live
use m_server.Server.Live.Numbers.{has-remove_ne, has-remove_self}
use m_server.Server.Live.Runs.{step_live}
use m_server.Service.{establish, retire, removal, Service}
use m_server.Service.Pending.{removes, retires}
use m_server.Service.Invariant.{
  IsClosing, Stage-of, Stage-open, StageAt, Inv, Good, Stage-retired, removals,
}
use m_server.Connection.{connection_estabalished, connection_destroyed}
use m_server.Connection.Closing.{
  connection_estabalished-Closed, connection_estabalished-Shut, connection_destroyed-Shut,
}
use m_server.Service.{remove_in_loop, retire_in_loop, run_functor, run_at}
use m_server.Service.Pending.{total-remove_at}
use m_server.Service.Steps.{changed-Good}

module _ {ℓ} {Name : Type ℓ} (conn_name : ℕ → Name) (same : Name → Name → Bool)
    (connection_cb message_cb : Bool) (buffer : Buffer) (naming : Naming conn_name same) where
  -- Without the functor that stands at this index.
  abbrev pub without : ℕ → Service Name → Service Name
  without j w = record w { pending = remove_at j w.pending }

  module _ (j : ℕ) (w : Service Name) (l : Live) (inv : Inv conn_name w l) where
    without-establish :
        (i : ℕ) → get_elem? w.pending j ≡ some (establish i) → Inv conn_name (without j w) l
    without-establish i e = record {
      shows = inv.shows;
      stage = λ n.
          Stage-of refl (omega (arith, total-remove_at (removes n) j (establish i) w.pending e))
            (omega (arith, total-remove_at (retires n) j (establish i) w.pending e)) refl
            (inv.stage n);
    }

    establish-Good :
        (i : ℕ)
        → get_elem? w.pending j ≡ some (establish i)
        → Ensures
            (Good conn_name)
            (run_functor conn_name same connection_cb message_cb buffer (establish i) (without j w))
    unfolding run_functor
    establish-Good i e =
        let inv' = without-establish i e in
        let c = w.objects i in
        elim (inv'.stage i) [
          | inl s ↦ elim (Result-cases (connection_estabalished c)) [
            | inl (d, f) ↦ rw f (
                changed-Good conn_name same connection_cb message_cb buffer naming i d (without j w)
                  l inv'
                  (Stage-of (update_same i d w.objects) refl refl refl (
                    Stage-open
                      (Ensures-ok (Closed 0) (connection_estabalished c) f
                        (connection_estabalished-Closed c s.opened))
                      s)))
            | inr (x, f) ↦ rw f tt
          ]
          | inr s ↦ rw (connection_estabalished-Shut c s.shut) tt
        ]

    -- A connection that is to be retired was closed.
    pub retire-IsClosing :
        (i : ℕ)
        → get_elem? w.pending j ≡ some (retire i)
        → IsClosing (w.objects i) (removals i w) (has i l.numbers) l.next i
    retire-IsClosing i e = elim (inv.stage i) [
      | inl s ↦
          let t = total-remove_at (retires i) j (retire i) w.pending e in
          absurd (ground (arith, t, s.not_retired))
      | inr s ↦ s
    ]

    removals-without :
        (i n : ℕ)
        → get_elem? w.pending j ≡ some (retire i)
        → removals n (without j w) ≡ removals n w
    removals-without i n e = omega (arith, total-remove_at (removes n) j (retire i) w.pending e)

    without-retire :
        (i : ℕ) → get_elem? w.pending j ≡ some (retire i) → Inv conn_name (without j w) l
    without-retire i e = record {
      shows = inv.shows;
      stage = λ n. elim (Bool-cases (i == n)) [
        | inl f ↦
            subst (StageAt (without j w) l) ((==_iff i n).0 f)
              (Stage-of refl (removals-without i i e) refl refl (inr (retire-IsClosing i e)))
        | inr f ↦
            Stage-of refl (removals-without i n e)
              (ground (arith, total-remove_at (retires n) j (retire i) w.pending e)) refl
              (inv.stage n)
      ];
    }

    -- The poll handle of a connection that is retired waits for nothing.
    retire-Good :
        (i : ℕ)
        → get_elem? w.pending j ≡ some (retire i)
        → Ensures
            (Good conn_name)
            (run_functor conn_name same connection_cb message_cb buffer (retire i) (without j w))
    unfolding run_functor retire_in_loop any
    retire-Good i e =
        let s = retire-IsClosing i e in
        let c = w.objects i in
        elim (Result-cases (connection_destroyed c)) [
          | inl (d, f) ↦
              let shut =
                Ensures-ok Shut (connection_destroyed c) f (connection_destroyed-Shut c s.shut) in
              rw f (
                rw s.shut.still (
                  changed-Good conn_name same connection_cb message_cb buffer naming i d
                    (without j w) l (without-retire i e)
                    (Stage-of (update_same i d w.objects) (removals-without i i e) refl refl
                      (Stage-retired shut s))))
          | inr (x, f) ↦ rw f (rw s.shut.still tt)
        ]

    removal-leaving :
        (i : ℕ)
        → get_elem? w.pending j ≡ some (removal i)
        → IsClosing (w.objects i) (removals i w) (has i l.numbers) l.next i
          × (removals i w ≡ 1)
          × (has i l.numbers ≡ true)
    removal-leaving i e =
        let t = total-remove_at (removes i) j (removal i) w.pending e in
        elim (inv.stage i) [
          | inl s ↦ absurd (ground (arith, t, s.not_removed))
          | inr s ↦ elim s.leaving [
            | inl p ↦ (s, p.0, p.1)
            | inr q ↦ absurd (ground (arith, t, q.0))
          ]
        ]

    -- A removal finds its connection in the map.
    pub removal_returns :
        (i : ℕ)
        → get_elem? w.pending j ≡ some (removal i)
        → (d : Service Name) × (run_functor conn_name same connection_cb message_cb buffer
              (removal i)
              (without j w)
            ≡ ok d)
          × Good conn_name d
    unfolding run_functor remove_in_loop Live.step
    removal_returns i e =
        let (s, one, live) = removal-leaving i e in
        let (t, f, shows) = step_live conn_name same naming (close i) w.server l inv.shows live in
        let d = record (without j w) { server = t } in
        (
          d,
          rw f refl,
          (
            after (close i) l,
            record {
              shows = shows;
              stage = λ n. elim (Bool-cases (i == n)) [
                | inl g ↦ subst (StageAt d (after (close i) l)) ((==_iff i n).0 g) (
                    inr (record {
                      shut = s.shut;
                      made_before = s.made_before;
                      leaving = inr (
                        ground (arith, total-remove_at (removes i) j (removal i) w.pending e, one),
                        has-remove_self i l.numbers inv.shows.distinct,
                      );
                    }))
                | inr g ↦
                    Stage-of refl
                      (ground (arith, total-remove_at (removes n) j (removal i) w.pending e))
                      (omega (arith, total-remove_at (retires n) j (removal i) w.pending e))
                      (has-remove_ne n i l.numbers (λ k. ground arith)) (inv.stage n)
              ];
            },
          ),
        )

  -- Whatever functor runs, the server and its connections agree after it.
  pub run_at-Good :
      (j : ℕ) (w : Service Name) (l : Live)
      → Inv conn_name w l
      → Ensures (Good conn_name) (run_at conn_name same connection_cb message_cb buffer j w)
  unfolding run_at
  run_at-Good j w l inv = elim (Option-cases (get_elem? w.pending j)) [
    | inl e ↦ rw (e, run_at) (l, inv)
    | inr (establish i, e) ↦ rw (e, run_at) (establish-Good j w l inv i e)
    | inr (retire i, e) ↦ rw (e, run_at) (retire-Good j w l inv i e)
    | inr (removal i, e) ↦
        let (d, f, good) = removal_returns j w l inv i e in rw (e, run_at) (rw f good)
  ]
