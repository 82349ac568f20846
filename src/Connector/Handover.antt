-- ===== src/Connector/Handover.antt =====
-- connector.cc: what a connector can still do once it has given its socket to the callback.
use m_server.Prelude.{
  suc, ◌≡◌, refl, List, [], ◌∷◌, Option, some, none, Bool, true, false, inl, inr, Option-cases,
  Result-cases, ok, err, aborted, undefined, Ensures, Ensures-ok, arith, ◌⊎◌,
}
use m_server.Polling.Handle.{changed, disable_all}
use m_server.Connector.{
  connecting, Connector, opened, Answer, success, einprogress, eintr, eisconn, release, retry_later,
  retry_connect, wait_writable, after_connect, connect_in_loop, stop, hand_over, handle_write,
  handle_error, Event, connect, writeable, errored, stop_called, step, run,
}

abbrev pub is_some {ℓ} : {A : Type ℓ} → Option A → Bool
is_some none = false
is_some (some a) = true

-- A handle is kept, and no socket.
pub record IsSpent (c : Connector) : Type 0 where
  pub polled : is_some c.events ≡ true
  pub gone : c.socket ≡ none

-- The answers on which the code waits for the socket to become writeable.
abbrev pub is_accepted : Answer → Bool
is_accepted success = true
is_accepted einprogress = true
is_accepted eintr = true
is_accepted eisconn = true
is_accepted _ = false

-- A connecting connector with a callback, whose registered socket became writeable without an
-- error, gives the socket to the callback, once, and no descriptor is leaked; it keeps the handle.
pub handle_write_hands :
    (c : Connector)
    → c.state ≡ connecting
    → c.new_connection_cb ≡ true
    → is_some c.events ≡ true
    → c.socket ≡ some opened
    → (d : Connector) × (handle_write 0 c ≡ ok d)
      × IsSpent d
      × (d.handed ≡ suc c.handed)
      × (d.leaked ≡ c.leaked)
unfolding handle_write hand_over release
handle_write_hands c s cb e o = elim (Option-cases c.events) [
  | inl n ↦ absurd (ground arith)
  | inr (m, h) ↦ (
    record c { events = some (changed disable_all m); socket = none; handed = suc c.handed },
    ground arith,
    record { polled = refl; gone = refl },
    refl,
    refl,
  )
]

step-IsSpent : (e : Event) (c : Connector) → IsSpent c → Ensures IsSpent (step e c)
unfolding step connect_in_loop after_connect wait_writable retry_connect retry_later release
    handle_write hand_over handle_error stop
step-IsSpent (connect a) c v = ground arith
step-IsSpent (writeable n) c v = ground arith
step-IsSpent errored c v = ground arith
step-IsSpent stop_called c v = ground arith

run-IsSpent : (es : List Event) (c : Connector) → IsSpent c → Ensures IsSpent (run es c)
unfolding run
run-IsSpent [] c v = v
run-IsSpent (e ∷ es) c v = elim (Result-cases (step e c)) [
  | inl (d, eq) ↦ rw eq (run-IsSpent es d (Ensures-ok IsSpent (step e c) eq (step-IsSpent e c v)))
  | inr f ↦ rw f.1 tt
]

-- A connector that keeps a handle and no socket, as it does once it has given its socket away:
-- whatever runs in between, a `connect` that the kernel accepts aborts, and `handle_error`
-- dereferences a null pointer.
pub connect_once :
    (es : List Event) (c d : Connector) (a : Answer)
    → IsSpent c
    → run es c ≡ ok d
    → is_accepted a ≡ true
    → (connect_in_loop a d ≡ err aborted) × (handle_error d ≡ err undefined)
unfolding connect_in_loop after_connect wait_writable handle_error
connect_once es c d a v e acc =
    let w = Ensures-ok IsSpent (run es c) e (run-IsSpent es c v) in (ground arith, ground arith)

-- No socket has been given away, or one has and the connector is left with a handle alone.
abbrev pub HandedOnce : Connector → Type 0
HandedOnce c = (c.handed ≡ 0) ⊎ ((c.handed ≡ 1) × IsSpent c)

pub step-HandedOnce : (e : Event) (c : Connector) → HandedOnce c → Ensures HandedOnce (step e c)
unfolding step connect_in_loop after_connect wait_writable retry_connect retry_later release
    handle_write hand_over handle_error stop
step-HandedOnce (connect a) c v = ground arith
step-HandedOnce (writeable n) c v = ground arith
step-HandedOnce errored c v = ground arith
step-HandedOnce stop_called c v = ground arith

pub step-handed :
    (e : Event) (c : Connector)
    → Ensures (λ d. (d.handed ≡ c.handed) ⊎ (d.handed ≡ suc c.handed)) (step e c)
unfolding step connect_in_loop after_connect wait_writable retry_connect retry_later release
    handle_write hand_over handle_error stop
step-handed (connect a) c = ground arith
step-handed (writeable n) c = ground arith
step-handed errored c = ground arith
step-handed stop_called c = ground arith
