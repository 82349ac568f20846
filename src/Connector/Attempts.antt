-- ===== src/Connector/Attempts.antt =====
-- connector.cc: attempts that fail, each with the timer of its retry, and then one that succeeds.
pub mod Succeeds
use m_server.Prelude.{
  ℕ, suc, ◌+◌, ◌*◌, ◌≡◌, refl, sym, ap, ap₂, ◌∙◌, min, List, [], ◌∷◌, ◌++◌, none, some, Bool, true,
  false, length, append_assoc, inl, inr, Result-cases, ok, ◌>>=◌, arith,
}
use m_server.Polling.Mask.{event_none}
use m_server.Polling.Handle.{changed, enable_writing, disable_all}
use m_server.Connector.{
  Connector, disconnected, connecting, opened, dangling, Answer, eagain, eaddrinuse, eaddrnotavail,
  econnrefused, enetunreach, new, release, retry_later, retry_connect, wait_writable, after_connect,
  connect_in_loop, hand_over, handle_write, handle_error, Event, connect, writeable, errored, step,
  run,
}
use m_server.Connector.Retry.{delay, delays, delay-suc}
use m_server.Connector.Handover.{is_accepted}

-- The answers on which the code tries again later.
abbrev pub is_refused : Answer → Bool
is_refused eagain = true
is_refused eaddrinuse = true
is_refused eaddrnotavail = true
is_refused econnrefused = true
is_refused enetunreach = true
is_refused _ = false

-- An attempt that fails at once, or later: the handle then reports the error, and with it that the
-- socket is writeable.
pub data Failure : Type 0 where
  at_once : (a : Answer) → is_refused a ≡ true → Failure
  later : (a : Answer) → is_accepted a ≡ true → ℕ → Failure

abbrev pub attempt : Failure → List Event
attempt (at_once a r) = connect a ∷ []
attempt (later a r so_error) = connect a ∷ errored ∷ writeable so_error ∷ []

abbrev pub attempts : List Failure → List Event → List Event
attempts [] es = es
attempts (f ∷ fs) es = attempt f ++ attempts fs es

-- Between the attempts, `n` of which have failed.
record IsIdle (n : ℕ) (c : Connector) : Type 0 where
  rests : c.state ≡ disconnected
  unpolled : c.events ≡ none
  wants : c.new_connection_cb ≡ true
  asked : c.timers ≡ delays n
  next : c.retry_delay_ms ≡ delay n
  kept : c.handed ≡ 0
  leaked : c.leaked ≡ n

abbrev failed : ℕ → Connector → Connector
failed removals c = record c {
  state = disconnected;
  events = none;
  socket = none;
  timers = c.timers ++ c.retry_delay_ms ∷ [];
  retry_timer = dangling;
  retry_delay_ms = min (c.retry_delay_ms * 2) 3000;
  removals = removals;
  leaked = suc c.leaked;
}

failed-IsIdle : (n r : ℕ) (c : Connector) → IsIdle n c → IsIdle (suc n) (failed r c)
unfolding delays
failed-IsIdle n r c v = record {
  rests = refl;
  unpolled = refl;
  wants = v.wants;
  asked = ap₂ (λ xs d. xs ++ d ∷ []) v.asked v.next;
  next = ap (λ d. min (d * 2) 3000) v.next ∙ delay-suc n;
  kept = v.kept;
  leaked = ap suc v.leaked;
}

-- The socket is polled.
abbrev waiting : Connector → Connector
waiting c = record c {
  state = connecting;
  events = some (changed enable_writing event_none);
  socket = some opened;
}

refused_lem :
    (a : Answer) (c : Connector)
    → is_refused a ≡ true
    → c.state ≡ disconnected
    → c.events ≡ none
    → connect_in_loop a c ≡ ok (failed c.removals c)
unfolding connect_in_loop after_connect retry_connect retry_later release
refused_lem a c r s e = ground arith

accepted_lem :
    (a : Answer) (c : Connector)
    → is_accepted a ≡ true
    → c.events ≡ none
    → connect_in_loop a c ≡ ok (waiting c)
unfolding connect_in_loop after_connect wait_writable
accepted_lem a c r e = ground arith

errored_lem : (c : Connector) → handle_error (waiting c) ≡ ok (failed (suc c.removals) c)
unfolding handle_error retry_connect retry_later release
errored_lem c = refl

abbrev handed_over : Connector → Connector
handed_over c = record c {
  state = connecting;
  events = some (changed disable_all (changed enable_writing event_none));
  socket = none;
  handed = suc c.handed;
}

writeable_lem :
    (c : Connector) → c.new_connection_cb ≡ true → handle_write 0 (waiting c) ≡ ok (handed_over c)
unfolding handle_write hand_over release
writeable_lem c w = ground arith

-- How many handles the failure leaves to be removed.
abbrev pub removed : Failure → ℕ
removed (at_once a r) = 0
removed (later a r so_error) = 1

attempt-failed :
    (f : Failure) (n : ℕ) (c : Connector) (es : List Event)
    → IsIdle n c
    → run (attempt f ++ es) c ≡ run es (failed (removed f + c.removals) c)
unfolding run step handle_write
attempt-failed (at_once a r) n c es v =
    ap (λ x. x >>= run es) (refused_lem a c r v.rests v.unpolled)
    ∙ ap (λ k. run es (failed k c)) (omega arith)
attempt-failed (later a r so_error) n c es v =
    rw (accepted_lem a c r v.unpolled)
      (rw (errored_lem c) (ap (λ k. run es (failed k c)) (omega arith)))

-- How many of the failures come later.
abbrev pub removals : List Failure → ℕ
removals [] = 0
removals (f ∷ fs) = removed f + removals fs

none_before : (n : ℕ) → 0 + n ≡ n
none_before n = omega arith

one_more : (k n : ℕ) → k + suc n ≡ suc k + n
one_more k n = omega arith

connects_from :
    (fs : List Failure) (a : Answer) (n : ℕ) (c : Connector)
    → is_accepted a ≡ true
    → IsIdle n c
    → (k d : Connector) × (run (attempts fs (connect a ∷ [])) c ≡ ok k)
      × (k.handed ≡ 0)
      × (handle_write 0 k ≡ ok d)
      × (d.handed ≡ 1)
      × (d.timers ≡ delays (length fs + n))
      × (d.removals ≡ removals fs + c.removals)
      × (d.leaked ≡ length fs + n)
unfolding run step
connects_from [] a n c acc v = (
  waiting c,
  handed_over c,
  rw (accepted_lem a c acc v.unpolled) refl,
  v.kept,
  writeable_lem c v.wants,
  ap suc v.kept,
  v.asked ∙ ap delays (sym (none_before n)),
  omega arith,
  omega (arith, v.leaked),
)
connects_from (f ∷ fs) a n c acc v =
    let c' = failed (removed f + c.removals) c in
    let (k, d, e, z, g, h, t, r, l) =
      connects_from fs a (suc n) c' acc (failed-IsIdle n c'.removals c v) in
    (
      k,
      d,
      attempt-failed f n c (attempts fs (connect a ∷ [])) v ∙ e,
      z,
      g,
      h,
      t ∙ ap delays (one_more (length fs) n),
      omega (arith, r),
      omega (arith, l),
    )

-- The same up to the end of the last attempt, from a new connector on.
pub run-waiting :
    (fs : List Failure) (a : Answer)
    → is_accepted a ≡ true
    → (k d : Connector) × (run (attempts fs (connect a ∷ [])) (new true) ≡ ok k)
      × (k.handed ≡ 0)
      × (handle_write 0 k ≡ ok d)
      × (d.handed ≡ 1)
      × (d.timers ≡ delays (length fs))
      × (d.removals ≡ removals fs)
      × (d.leaked ≡ length fs)
unfolding delays
run-waiting fs a acc =
    let fresh : IsIdle 0 (new true) = record {
      rests = refl;
      unpolled = refl;
      wants = refl;
      asked = refl;
      next = refl;
      kept = refl;
      leaked = refl;
    } in
    let (k, d, e, z, g, h, t, r, l) = connects_from fs a 0 (new true) acc fresh in
    let all : length fs + 0 ≡ length fs = omega arith in
    (k, d, e, z, g, h, t ∙ ap delays all, omega (arith, r), omega (arith, l))
