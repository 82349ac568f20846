-- ===== src/Tests/Connectors.antt =====
-- Runs of the connector of src/net/source/connector.cc.
use m_server.Prelude.{ℕ, ◌≡◌, refl, List, [], ◌∷◌, true, some, none, ok, err, aborted, undefined}
use m_server.Polling.Mask.{event_none}
use m_server.Polling.Handle.{changed, enable_writing, disable_all}
use m_server.Connector.{
  Connector, new, opened, dangling, connecting, disconnected, econnrefused, eperm, success, connect,
  errored, writeable, connect_in_loop, handle_error, step, run,
}
use m_server.Connector.Handover.{connect_once}
use m_server.Connector.Attempts.{Failure, at_once, later}
use m_server.Connector.Attempts.Succeeds.{run-attempts}
use m_server.Connector.Retry.{Retried, is_running, run_retries, delays}

-- Two attempts refused.
abbrev refused : Connector
refused = record (new true) {
  retry_timer = dangling;
  retry_delay_ms = 2000;
  timers = 500 ∷ 1000 ∷ [];
  leaked = 2;
}

-- An attempt under way.
abbrev waiting : Connector
waiting = record (new true) {
  state = connecting;
  events = some (changed enable_writing event_none);
  socket = some opened;
}

abbrev spent : Connector
spent = record waiting { events = some (changed disable_all event_none); socket = none; handed = 1 }

run_retries_example : ((n : ℕ) × Retried n refused) × (is_running disconnected ≡ true)
unfolding run step connect_in_loop
run_retries_example =
    run_retries (connect econnrefused ∷ connect econnrefused ∷ []) true refused refl

-- The first attempt is refused at once, the second one later.
abbrev failures : List Failure
failures = at_once econnrefused refl ∷ later success refl 111 ∷ []

run-attempts_example :
    (d : Connector) × (run
        (connect econnrefused
          ∷ connect success
          ∷ errored
          ∷ writeable 111
          ∷ connect success
          ∷ writeable 0
          ∷ [])
        (new true)
      ≡ ok d)
    × (d.handed ≡ 1)
    × (d.timers ≡ 500 ∷ 1000 ∷ [])
    × (d.removals ≡ 1)
    × (d.leaked ≡ 2)
unfolding delays
run-attempts_example = run-attempts failures success refl

connect_once_example :
    (connect_in_loop success (record spent { leaked = 1 }) ≡ err aborted)
    × (handle_error (record spent { leaked = 1 }) ≡ err undefined)
unfolding run step connect_in_loop
connect_once_example =
    connect_once (connect eperm ∷ []) spent (record spent { leaked = 1 }) success
      (record { polled = refl; gone = refl }) refl refl
