-- ===== src/EventLoop/Pending.antt =====
-- event_loop.cc: which functors a round calls, in which order, and which are left.
use m_server.Prelude.{
  ℕ, ◌+◌, ◌≡◌, refl, ap, ◌∙◌, List, [], ◌∷◌, ◌++◌, append_assoc, append-nil, Bool, true, false,
  ◌||◌, if◌then◌else◌, length, length-append, arith,
}
use m_server.EventLoop.{
  Loop, Call, queue, stop, perform, call, call_all, do_pending_functors, iterate, loop_from,
  queue_in_loop, quit_loop,
}

-- What a list of calls queues, and whether it stops the loop.
abbrev pub queued : List Call → List ℕ
queued [] = []
queued (queue fc ∷ calls) = fc ∷ queued calls
queued (stop ∷ calls) = queued calls

abbrev pub stops : List Call → Bool
stops [] = false
stops (queue fc ∷ calls) = stops calls
stops (stop ∷ calls) = true

-- The state after a list of calls in the loop's thread, in closed form.
abbrev after : List ℕ → List ℕ → Bool → Loop → Loop
after called left stopped s = record s {
  quit = s.quit || stopped;
  pending_functors = s.pending_functors ++ left;
  wakeups = if s.calling_pending_functor then s.wakeups + length left else s.wakeups;
  ran = s.ran ++ called;
}

perform_lem :
    (calls : List Call) (s : Loop) → perform calls s ≡ after [] (queued calls) (stops calls) s
unfolding perform
perform_lem [] s = ground (arith, append-nil s.pending_functors, append-nil s.ran)
perform_lem (queue fc ∷ calls) s = ground (
  arith,
  perform_lem calls (queue_in_loop true fc s),
  append_assoc s.pending_functors (fc ∷ []) (queued calls),
)
perform_lem (stop ∷ calls) s = ground (arith, perform_lem calls (quit_loop true s))

module _ (effects : ℕ → List Call) where
  -- What the calls of a list of functors queue, in order, and whether one of them stops the loop.
  abbrev pub queued_by : List ℕ → List ℕ
  queued_by [] = []
  queued_by (fc ∷ fcs) = queued (effects fc) ++ queued_by fcs

  abbrev pub stopped_by : List ℕ → Bool
  stopped_by [] = false
  stopped_by (fc ∷ fcs) = stops (effects fc) || stopped_by fcs

  call_all_lem :
      (fcs : List ℕ) (s : Loop)
      → call_all effects fcs s ≡ after fcs (queued_by fcs) (stopped_by fcs) s
  unfolding call_all call
  call_all_lem [] s = ground (arith, append-nil s.pending_functors, append-nil s.ran)
  call_all_lem (fc ∷ fcs) s =
      let r = record s { ran = s.ran ++ fc ∷ [] } in
      let calls = effects fc in
      ground (
        arith,
        perform_lem calls r,
        call_all_lem fcs (after [] (queued calls) (stops calls) r),
        append_assoc s.pending_functors (queued calls) (queued_by fcs),
        append_assoc s.ran (fc ∷ []) fcs,
        append-nil (s.ran ++ fc ∷ []),
        length-append (queued calls) (queued_by fcs),
      )

  -- What a call, and a round, add to the functors called.
  pub call-ran : (fc : ℕ) (s : Loop) → (call effects fc s).ran ≡ s.ran ++ fc ∷ []
  unfolding call
  call-ran fc s =
      ap (λ (l : Loop). l.ran) (perform_lem (effects fc) (record s { ran = s.ran ++ fc ∷ [] }))
      ∙ append-nil (s.ran ++ fc ∷ [])

  stopped_by-append :
      (fcs gcs : List ℕ) → stopped_by (fcs ++ gcs) ≡ (stopped_by fcs || stopped_by gcs)
  stopped_by-append [] gcs = refl
  stopped_by-append (fc ∷ fcs) gcs = ground (arith, stopped_by-append fcs gcs)

  -- `do_pending_functors` calls the functors that were pending, each once and in the order in which
  -- they were queued; what they queue is left pending, and each left a wakeup for the next `poll`.
  pub do_pending_functors_lem :
      (s : Loop)
      → let t = do_pending_functors effects s in
        (t.ran ≡ s.ran ++ s.pending_functors)
        × (t.pending_functors ≡ queued_by s.pending_functors)
        × (t.wakeups ≡ s.wakeups + length t.pending_functors)
        × (t.calling_pending_functor ≡ false)
        × (t.quit ≡ (s.quit || stopped_by s.pending_functors))
  unfolding do_pending_functors
  do_pending_functors_lem s =
      rw
        (call_all_lem s.pending_functors
          (record s { calling_pending_functor = true; pending_functors = [] }))
        (refl, refl, refl, refl, refl)

  pub iterate-ran :
      (callbacks : List ℕ) (s : Loop)
      → (iterate effects callbacks s).ran
        ≡ s.ran ++ (callbacks ++ (call_all effects callbacks s).pending_functors)
  unfolding iterate
  iterate-ran callbacks s =
      let m = call_all effects callbacks s in
      (do_pending_functors_lem m).0
      ∙ ap (λ l. l ++ m.pending_functors) (ap (λ (l : Loop). l.ran) (call_all_lem callbacks s))
      ∙ append_assoc s.ran callbacks m.pending_functors

  -- A round of the loop that starts outside `do_pending_functors` calls the callbacks, then the
  -- functors that were pending and those that the callbacks queued; only what these functors queue
  -- waits for another round, and each left a wakeup for it; a `quit` among them is seen.
  pub iterate_lem :
      (callbacks : List ℕ) (s : Loop)
      → s.calling_pending_functor ≡ false
      → let batch = s.pending_functors ++ queued_by callbacks in
        let t = iterate effects callbacks s in
        (t.ran ≡ s.ran ++ (callbacks ++ batch))
        × (t.pending_functors ≡ queued_by batch)
        × (t.wakeups ≡ s.wakeups + length t.pending_functors)
        × (t.quit ≡ (s.quit || stopped_by (callbacks ++ batch)))
  unfolding iterate
  iterate_lem callbacks s e =
      let m = call_all effects callbacks s in
      let (r, p, w, c, q) = do_pending_functors_lem m in
      let m_lem = call_all_lem callbacks s in
      let batch = s.pending_functors ++ queued_by callbacks in
      let taken : m.pending_functors ≡ batch = ap (λ (l : Loop). l.pending_functors) m_lem in
      let asleep : m.wakeups ≡ s.wakeups =
        ap (λ (l : Loop). l.wakeups) m_lem
        ∙ ap (λ b. if b then s.wakeups + length (queued_by callbacks) else s.wakeups) e in
      let stopped : m.quit ≡ (s.quit || stopped_by callbacks) = ap (λ (l : Loop). l.quit) m_lem in
      (
        r
            ∙ ap (λ l. l ++ m.pending_functors) (ap (λ (l : Loop). l.ran) m_lem)
            ∙ ap (λ l. (s.ran ++ callbacks) ++ l) taken
            ∙ append_assoc s.ran callbacks batch,
        p ∙ ap queued_by taken,
        w ∙ ap (λ n. n + length (do_pending_functors effects m).pending_functors) asleep,
        ground (arith, q, stopped, ap stopped_by taken, stopped_by-append callbacks batch),
      )

  -- A round in which a callback or a functor quits a running loop is its last, whatever rounds
  -- could follow.
  pub loop_from_stops :
      (callbacks : List ℕ) (rounds : List (List ℕ)) (s : Loop)
      → s.quit ≡ false
      → (iterate effects callbacks s).quit ≡ true
      → loop_from effects (callbacks ∷ rounds) s ≡ iterate effects callbacks s
  unfolding loop_from
  loop_from_stops callbacks [] s e f = ground arith
  loop_from_stops callbacks (r ∷ rounds) s e f = ground arith
