-- ===== src/Polling/Spoller/Found.antt =====
-- spoller.cc, `find_active_handles`: the handles handed to the loop are in the map.
use m_server.Prelude.{
  ℕ, ◌-◌, ◌==◌, ◌≡◌, ◌≢◌, List, [], ◌∷◌, none, inl, inr, Bool-cases, Result-cases, ok, Ensures,
  Ensures-ok, All, arith, Option-cases,
}
use m_server.Polling.Mask.{any, Mask}
use m_server.Polling.Handle.{Handle}
use m_server.Polling.Spoller.{
  PollFd, Spoller, find, modify, filled, event_num, mark, active_from, poll, answered,
}

abbrev pub Found : List Handle → List ℕ → Type 0
Found hs fds = All (λ fd. find fd hs ≢ none) fds

-- A handle that is in the first list is in the second.
abbrev Stay : List Handle → List Handle → Type 0
Stay hs hs' = (x : ℕ) → find x hs ≢ none → find x hs' ≢ none

Stay-modify :
    (fd : ℕ) (m : Mask) (hs : List Handle) → Stay hs (modify fd (λ g. record g { revents = m }) hs)
unfolding find modify
Stay-modify fd m [] x k = k
Stay-modify fd m (h ∷ hs) x k = ground (arith, Stay-modify fd m hs x)

abbrev Marked : List Handle → ℕ × List Handle → Type 0
Marked hs r = Stay hs r.1 × (find r.0 r.1 ≢ none)

mark-Found : (p : PollFd) (hs : List Handle) → Ensures (Marked hs) (mark p hs)
unfolding mark
mark-Found p hs = elim (Option-cases p.fd) [
  | inl e ↦ rw e tt
  | inr (fd, e) ↦ elim (Option-cases (find fd hs)) [
    | inl f ↦ rw e (rw f tt)
    | inr (h, f) ↦
        let stay = Stay-modify fd p.revents hs in rw e (rw f (stay, stay fd (ground (arith, f))))
  ]
]

-- What `active_from` hands over is in the map that it leaves.
abbrev pub Handed : List Handle → List ℕ × List Handle → Type 0
Handed hs q = Stay hs q.1 × Found q.1 q.0

active_from-Found :
    (n : ℕ) (ps : List PollFd) (hs : List Handle) → Ensures (Handed hs) (active_from n ps hs)
unfolding active_from
active_from-Found n [] hs = (λ x k. k, tt)
active_from-Found n (p ∷ ps) hs = elim (Bool-cases (any p.revents)) [
  | inr idle ↦ rw (idle, active_from) (active_from-Found n ps hs)
  | inl event ↦ elim (Result-cases (mark p hs)) [
    | inr (f, e) ↦ rw (event, active_from) (rw e tt)
    | inl (r, e) ↦
        let marked = Ensures-ok (Marked hs) (mark p hs) e (mark-Found p hs) in
        elim (Bool-cases (n == 1)) [
          | inl last ↦ rw (event, active_from) (rw e (rw last (marked.0, (marked.1, tt))))
          | inr more ↦ elim (Result-cases (active_from (n - 1) ps r.1)) [
            | inr (f, e') ↦ rw (event, active_from) (rw e (rw more (rw e' tt)))
            | inl (q, e') ↦
                let rest =
                  Ensures-ok (Handed r.1) (active_from (n - 1) ps r.1) e'
                    (active_from-Found (n - 1) ps r.1) in
                rw (event, active_from)
                  (rw e (
                    rw more
                      (rw e' (λ x k. rest.0 x (marked.0 x k), (rest.0 r.0 marked.1, rest.1)))))
          ]
        ]
  ]
]

-- Every descriptor that `poll` returns has a handle in the table that it leaves.
pub poll-Found :
    (ms : List Mask) (s t : Spoller) (fds : List ℕ)
    → poll (answered ms) s ≡ ok (fds, t)
    → Found t.handles fds
unfolding poll
poll-Found ms s t fds e =
    elim (Result-cases
      (active_from (event_num (filled s.pollfds ms)) (filled s.pollfds ms) s.handles)) [
        | inr (f, g) ↦ absurd (ground arith)
        | inl (q, g) ↦
            let handed =
              Ensures-ok (Handed s.handles)
                (active_from (event_num (filled s.pollfds ms)) (filled s.pollfds ms) s.handles) g
                (active_from-Found (event_num (filled s.pollfds ms)) (filled s.pollfds ms)
                  s.handles) in
            let same : (q.0 ≡ fds) × (q.1 ≡ t.handles) = (ground arith, ground arith) in
            rw (← same.0) (rw (← same.1) handed.1)
      ]
