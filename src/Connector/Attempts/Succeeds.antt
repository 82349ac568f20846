-- ===== src/Connector/Attempts/Succeeds.antt =====
-- connector.cc: a whole run of attempts, the last of which succeeds.
use m_server.Prelude.{
  ◌≡◌, refl, sym, ap, ◌∙◌, List, [], ◌∷◌, ◌++◌, true, length, append_assoc, inl, inr, Result-cases,
  ok, ◌>>=◌,
}
use m_server.Connector.{Connector, Answer, new, Event, connect, writeable, step, run}
use m_server.Connector.Retry.{delays}
use m_server.Connector.Handover.{is_accepted}
use m_server.Connector.Attempts.{Failure, attempt, attempts, removals, run-waiting}

run-append : (es es' : List Event) (c : Connector) → run (es ++ es') c ≡ (run es c >>= run es')
unfolding run
run-append [] es' c = refl
run-append (e ∷ es) es' c = elim (Result-cases (step e c)) [
  | inl (d, eq) ↦ rw eq (run-append es es' d)
  | inr (f, eq) ↦ rw eq refl
]

attempts-append :
    (fs : List Failure) (es es' : List Event) → attempts fs (es ++ es') ≡ attempts fs es ++ es'
attempts-append [] es es' = refl
attempts-append (f ∷ fs) es es' =
    ap (λ xs. attempt f ++ xs) (attempts-append fs es es')
    ∙ sym (append_assoc (attempt f) (attempts fs es) es')

-- A new connector with a callback, of which any number of attempts fail, each at once or later, and
-- which is called again by the timer of each retry, and then has an attempt that the kernel accepts and
-- whose socket becomes writeable without an error, gives one socket to its callback. It asked for as
-- many timers as attempts failed, with the delays 500, 1000, 2000, 3000, 3000, ..., left the handle of
-- each later failure to be removed, and leaked one descriptor for each failure.
pub run-attempts :
    (fs : List Failure) (a : Answer)
    → is_accepted a ≡ true
    → (d : Connector) × (run (attempts fs (connect a ∷ writeable 0 ∷ [])) (new true) ≡ ok d)
      × (d.handed ≡ 1)
      × (d.timers ≡ delays (length fs))
      × (d.removals ≡ removals fs)
      × (d.leaked ≡ length fs)
unfolding run step
run-attempts fs a acc =
    let (k, d, e, z, g, h, t, r, l) = run-waiting fs a acc in
    let whole =
      ap (λ es. run es (new true)) (attempts-append fs (connect a ∷ []) (writeable 0 ∷ []))
      ∙ run-append (attempts fs (connect a ∷ [])) (writeable 0 ∷ []) (new true) in
    (d, whole ∙ rw e (rw g refl), h, t, r, l)
