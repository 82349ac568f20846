-- ===== src/Service/Drain.antt =====
-- tcp_server.cc and tcp_connection.cc with event_loop.cc: the functors that wait are all run.
use m_server.Prelude.{
  update, ℕ, ◌<◌, ◌≡◌, refl, List, some, Bool, true, ==_iff, get_elem?, remove_at, replicate, ok,
  arith,
}
use m_server.Buffer.{Buffer}
use m_server.Polling.Mask.{any}
use m_server.Connection.Early.{connection_estabalished_returns, connection_destroyed_calls}
use m_server.Server.Connections.{Naming}
use m_server.Server.Live.{Live}
use m_server.Service.{
  Functor, establish, retire, removal, Service, Event, functor_runs, retire_in_loop, run_functor,
  run_at,
}
use m_server.Service.Pending.{total-remove_at, retires}
use m_server.Service.Invariant.{Inv}
use m_server.Service.Functors.{removal_returns, retire-IsClosing}
use m_server.Service.Ready.{Ready}
use m_server.Service.Ready.Functors.{establish-Fresh}

-- So many functors run, in the order in which they were left.
abbrev pub all_run : ℕ → List Event
all_run n = replicate n (functor_runs 0)

module _ {ℓ} {Name : Type ℓ} (conn_name : ℕ → Name) (same : Name → Name → Bool) (message_cb : Bool)
    (buffer : Buffer) (naming : Naming conn_name same) where
  abbrev Runs : ℕ → Service Name → Type ℓ
  Runs j w = (d : Service Name) × (run_at conn_name same true message_cb buffer j w ≡ ok d)

  -- Where a connection callback is set, every functor that waits returns.
  pub run_at_returns :
      (j : ℕ) (f : Functor) (w : Service Name) (l : Live)
      → Inv conn_name w l
      → Ready true w
      → get_elem? w.pending j ≡ some f
      → Runs j w
  unfolding run_at run_functor retire_in_loop any
  run_at_returns j (establish i) w l inv r e =
      let fresh = establish-Fresh conn_name same true message_cb buffer j w r i e in
      let (c, f) = connection_estabalished_returns (w.objects i) fresh.early in
      (
        record w { pending = remove_at j w.pending; objects = update i c w.objects },
        rw (e, run_at) (rw f refl),
      )
  run_at_returns j (removal i) w l inv r e =
      let (d, f, good) =
        removal_returns conn_name same true message_cb buffer naming j w l inv i e in
      (d, rw (e, run_at) f)
  run_at_returns j (retire i) w l inv r e =
      let s = retire-IsClosing conn_name same true message_cb buffer naming j w l inv i e in
      let c = w.objects i in
      let less = total-remove_at (retires 0) j (retire i) w.pending e in
      let pos : 0 < i = ground (arith, less, r.named, ==_iff i 0) in
      let lt : i < w.server.next_conn_id = omega (arith, s.made_before, inv.shows.next_is) in
      let (d, f) = connection_destroyed_calls c s.shut ((r.at i).1 pos lt) in
      (
        record w { pending = remove_at j w.pending; objects = update i d w.objects },
        rw (e, run_at) (rw f (rw s.shut.still refl)),
      )
