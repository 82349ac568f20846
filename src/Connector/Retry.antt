-- ===== src/Connector/Retry.antt =====
-- connector.cc: the delays between attempts.
use m_server.Prelude.{
  ℕ, zero, suc, ◌*◌, ◌^◌, ◌≡◌, refl, sym, ap, ap₂, ◌∙◌, min, List, some, none, [], ◌∷◌, ◌++◌, inl,
  inr, Option-cases, Bool, true, false, Result-cases, ok, Ensures, Ensures-ok, arith,
}
use native.Mathlib.Numerals.{unary_clauses}
use m_server.Polling.Mask.{event_none}
use m_server.Polling.Handle.{changed, enable_writing, disable_all}
use m_server.Connector.{
  State, stopped, connected, connecting, disconnected, Connector, opened, moved, Answer, new,
  release, retry_later, retry_connect, wait_writable, after_connect, connect_in_loop, stop,
  hand_over, handle_write, handle_error, Event, connect, writeable, errored, stop_called, step, run,
}

-- The delay before retry number `i`, counted from 0: half a second, doubled up to three seconds.
abbrev pub delay : ℕ → ℕ
delay i = min (500 * 2 ^ i) 3000

pub delay-suc : (i : ℕ) → min (delay i * 2) 3000 ≡ delay (suc i)
delay-suc i = let e : 2 ^ suc i ≡ 2 ^ i * 2 = simp unary_clauses refl in rw e (omega arith)

-- The first `n` delays.
unfoldable pub delays : ℕ → List ℕ
delays zero = []
delays (suc n) = delays n ++ delay n ∷ []

-- After `n` retries.
pub record Retried (n : ℕ) (c : Connector) : Type 0 where
  pub asked : c.timers ≡ delays n
  pub next : c.retry_delay_ms ≡ delay n

-- The states that the code sets.
abbrev pub is_running : State → Bool
is_running stopped = false
is_running connected = false
is_running connecting = true
is_running disconnected = true

pub record IsOnSchedule (c : Connector) : Type 0 where
  pub count : ℕ
  pub retried : Retried count c
  pub running : is_running c.state ≡ true

retry_later-IsOnSchedule : (c : Connector) → IsOnSchedule c → IsOnSchedule (retry_later c)
unfolding retry_later delays
retry_later-IsOnSchedule c v = record {
  count = suc v.count;
  retried = record {
    asked = ap₂ (λ xs d. xs ++ d ∷ []) v.retried.asked v.retried.next;
    next = ap (λ d. min (d * 2) 3000) v.retried.next ∙ delay-suc v.count;
  };
  running = refl;
}

-- What `IsOnSchedule` does not look at.
IsOnSchedule-eq :
    (c d : Connector)
    → c.timers ≡ d.timers
    → c.retry_delay_ms ≡ d.retry_delay_ms
    → is_running d.state ≡ true
    → IsOnSchedule c
    → IsOnSchedule d
IsOnSchedule-eq c d t r s v = record {
  count = v.count;
  retried = record { asked = sym t ∙ v.retried.asked; next = sym r ∙ v.retried.next };
  running = s;
}

release-IsOnSchedule : (c : Connector) → IsOnSchedule c → IsOnSchedule (release c)
unfolding release
release-IsOnSchedule c v =
    IsOnSchedule-eq c (release c) (ground arith) (ground arith) (ground arith) v

retry_connect-IsOnSchedule : (c : Connector) → IsOnSchedule c → IsOnSchedule (retry_connect c)
unfolding retry_connect
retry_connect-IsOnSchedule c v =
    let c' = record c { socket = none } in
    let v' = IsOnSchedule-eq c c' refl refl v.running v in
    ground (arith, retry_later-IsOnSchedule c' v')

wait_writable-IsOnSchedule :
    (c : Connector) → IsOnSchedule c → Ensures IsOnSchedule (wait_writable c)
unfolding wait_writable
wait_writable-IsOnSchedule c v =
    let c₁ = record c { state = connecting; events = some (changed enable_writing event_none) } in
    ground (arith, IsOnSchedule-eq c c₁ refl refl refl v)

after_connect-IsOnSchedule :
    (a : Answer) (c : Connector) → IsOnSchedule c → Ensures IsOnSchedule (after_connect a c)
unfolding after_connect
after_connect-IsOnSchedule a c v = ground (
  arith,
  wait_writable-IsOnSchedule c v,
  release-IsOnSchedule c v,
  retry_connect-IsOnSchedule (release c) (release-IsOnSchedule c v),
)

hand_over-IsOnSchedule : (c : Connector) → IsOnSchedule c → Ensures IsOnSchedule (hand_over c)
unfolding hand_over
hand_over-IsOnSchedule c v = elim (Option-cases c.events) [
  | inl e ↦ ground (arith, release-IsOnSchedule c v)
  | inr (m, e) ↦
      let c₁ = record c {
        events = some (changed disable_all m);
        socket = some moved;
        handed = suc c.handed;
      } in
      let w = IsOnSchedule-eq c c₁ refl refl v.running v in
      ground (arith, release-IsOnSchedule c v, release-IsOnSchedule c₁ w)
]

step-IsOnSchedule : (e : Event) (c : Connector) → IsOnSchedule c → Ensures IsOnSchedule (step e c)
unfolding step connect_in_loop handle_write handle_error stop
step-IsOnSchedule (connect a) c v =
    let c' = record c { socket = some opened } in
    after_connect-IsOnSchedule a c' (IsOnSchedule-eq c c' refl refl v.running v)
step-IsOnSchedule (writeable n) c v = ground (arith, hand_over-IsOnSchedule c v)
step-IsOnSchedule errored c v =
    let c₁ = record c { events = none; removals = suc c.removals } in
    let w = IsOnSchedule-eq c c₁ refl refl v.running v in
    ground (arith, retry_connect-IsOnSchedule (release c₁) (release-IsOnSchedule c₁ w))
step-IsOnSchedule stop_called c v = ground arith

run-IsOnSchedule :
    (es : List Event) (c : Connector) → IsOnSchedule c → Ensures IsOnSchedule (run es c)
unfolding run
run-IsOnSchedule [] c v = v
run-IsOnSchedule (e ∷ es) c v = elim (Result-cases (step e c)) [
  | inl (d, eq) ↦
      rw eq
        (run-IsOnSchedule es d (Ensures-ok IsOnSchedule (step e c) eq (step-IsOnSchedule e c v)))
  | inr f ↦ rw f.1 tt
]

-- Whatever run of its operations a new connector returns from, the delays that it asked its loop
-- for are the first of the series 500, 1000, 2000, 3000, 3000, ..., the delay kept is the next one,
-- and its state is `connecting` or `disconnected`: `connected` and `stop` are never reached.
pub run_retries :
    (es : List Event) (cb : Bool) (c : Connector)
    → run es (new cb) ≡ ok c
    → ((n : ℕ) × Retried n c) × (is_running c.state ≡ true)
unfolding delays
run_retries es cb c e =
    let v = Ensures-ok IsOnSchedule (run es (new cb)) e (
      run-IsOnSchedule es (new cb)
        (record { count = 0; retried = record { asked = refl; next = refl }; running = refl })) in
    ((v.count, v.retried), v.running)
