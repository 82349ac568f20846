-- ===== src/Polling/Spoller/Active.antt =====
-- spoller.cc, `poll` and `find_active_handles`: which handles are handed to the loop.
use native.Mathlib.Decide.{ℕ_discrete}
use m_server.Prelude.{
  ◌∙◌, ℕ, suc, ◌-◌, ◌≡◌, refl, ◌≢◌, List, [], ◌∷◌, none, some, true, false, if◌then◌else◌, inl, inr,
  arith, Bool-cases, ok, All,
}
use m_server.Polling.Mask.{Mask, any}
use m_server.Polling.Handle.{Handle, is_none_event}
use m_server.Polling.Spoller.{
  PollFd, Spoller, find, modify, filled, event_num, mark, active_from, poll, answered,
}
use m_server.Polling.Spoller.Aligned.{Watches, Aligned, IsValid}

-- What poll(2) documents of its answer: an entry with a negative descriptor gets no event.
abbrev pub Answers : List PollFd → List Mask → Type 0
Answers [] [] = Unit {0}
Answers [] (m ∷ ms) = ⊥
Answers (p ∷ ps) [] = ⊥
Answers (p ∷ ps) (m ∷ ms) = (p.fd ≡ none → any m ≡ false) × Answers ps ms

-- The descriptors with an event, by index.
unfoldable pub ready : List Handle → List Mask → List ℕ
ready [] ms = []
ready (h ∷ hs) [] = []
ready (h ∷ hs) (m ∷ ms) = if any m then h.fd ∷ ready hs ms else ready hs ms

abbrev set_revents : Mask → Handle → Handle
set_revents m h = record h { revents = m }

abbrev Known : List Handle → List Handle → Type 0
Known all hs = All (λ h. find h.fd all ≢ none) hs

abbrev Keeps : List Handle → List Handle → Type 0
Keeps all all' = (i : ℕ) (ps : List PollFd) → Aligned i all ps → Aligned i all' ps

Keeps-modify : (m : Mask) (fd : ℕ) (all : List Handle) → Keeps all (modify fd (set_revents m) all)
unfolding modify is_none_event
Keeps-modify m fd [] i [] a = tt
Keeps-modify m fd [] i (p ∷ ps) a = a
Keeps-modify m fd (h ∷ hs) i [] a = absurd a
Keeps-modify m fd (h ∷ hs) i (p ∷ ps) a = ground (arith, Keeps-modify m fd hs (suc i) ps a.2)

find-modify :
    (m : Mask) (fd x : ℕ) (all : List Handle)
    → find x all ≢ none
    → find x (modify fd (set_revents m) all) ≢ none
unfolding find modify
find-modify m fd x [] k = k
find-modify m fd x (h ∷ hs) k = ground (arith, find-modify m fd x hs)

Known-modify :
    (m : Mask) (fd : ℕ) (all hs : List Handle)
    → Known all hs
    → Known (modify fd (set_revents m) all) hs
Known-modify m fd all [] k = tt
Known-modify m fd all (h ∷ hs) k = (find-modify m fd h.fd all k.0, Known-modify m fd all hs k.1)

ready-nil :
    (i : ℕ) (hs : List Handle) (ps : List PollFd) (ms : List Mask)
    → Aligned i hs ps
    → Answers ps ms
    → event_num (filled ps ms) ≡ 0
    → ready hs ms ≡ []
unfolding ready event_num filled
ready-nil i [] [] ms a w e = refl
ready-nil i [] (p ∷ ps) ms a w e = absurd a
ready-nil i (h ∷ hs) [] ms a w e = absurd a
ready-nil i (h ∷ hs) (p ∷ ps) [] a w e = refl
ready-nil i (h ∷ hs) (p ∷ ps) (m ∷ ms) a w e = ground (arith, ready-nil (suc i) hs ps ms a.2 w.1)

watched :
    (h : Handle) (p : PollFd) (m : Mask)
    → Watches h p
    → (p.fd ≡ none → any m ≡ false)
    → any m ≡ true
    → p.fd ≡ some h.fd
watched h p m w k e = ground arith

mark_lem :
    (h : Handle) (p : PollFd) (all : List Handle)
    → p.fd ≡ some h.fd
    → find h.fd all ≢ none
    → mark p all ≡ ok (h.fd, modify h.fd (set_revents p.revents) all)
unfolding mark
mark_lem h p all e k = ground arith

module _ (n : ℕ) (p : PollFd) (ps : List PollFd) (all : List Handle) where
  active_skip : any p.revents ≡ false → active_from n (p ∷ ps) all ≡ active_from n ps all
  unfolding active_from
  active_skip e = ground arith

  active_last :
      (r : ℕ × List Handle)
      → any p.revents ≡ true
      → n ≡ 1
      → mark p all ≡ ok r
      → active_from n (p ∷ ps) all ≡ ok (r.0 ∷ [], r.1)
  unfolding active_from
  active_last r e one m = ground arith

  active_more :
      (r : ℕ × List Handle) (q : List ℕ × List Handle)
      → any p.revents ≡ true
      → n ≢ 1
      → mark p all ≡ ok r
      → active_from (n - 1) ps r.1 ≡ ok q
      → active_from n (p ∷ ps) all ≡ ok (r.0 ∷ q.0, q.1)
  unfolding active_from
  active_more r q e many m rest = ground arith

active_lem :
    (i : ℕ) (hs : List Handle) (ps : List PollFd) (ms : List Mask) (all : List Handle)
    → Aligned i hs ps
    → Answers ps ms
    → Known all hs
    → (all' : List Handle) × (active_from (event_num (filled ps ms)) (filled ps ms) all
        ≡ ok (ready hs ms, all'))
      × Keeps all all'
unfolding ready event_num filled
active_lem i [] [] ms all a w k = (all, unfold active_from in refl, λ j qs b. b)
active_lem i [] (p ∷ ps) ms all a w k = absurd a
active_lem i (h ∷ hs) [] ms all a w k = absurd a
active_lem i (h ∷ hs) (p ∷ ps) [] all a w k = absurd w
active_lem i (h ∷ hs) (p ∷ ps) (m ∷ ms) all a w k =
    let p' : PollFd = record p { revents = m } in
    let marked = modify h.fd (set_revents m) all in
    let keep = Keeps-modify m h.fd all in
    let count = event_num (filled ps ms) in
    let (all', r, keeps) =
      active_lem (suc i) hs ps ms marked a.2 w.1 (Known-modify m h.fd all hs k.1) in
    let (all'', r'', keeps') = active_lem (suc i) hs ps ms all a.2 w.1 k.1 in
    elim (Bool-cases (any m)) [
      | inr e ↦ (all'', rw e (active_skip count p' (filled ps ms) all e ∙ r''), keeps')
      | inl e ↦
          let found = mark_lem h p' all (watched h p m a.1 w.0 e) k.0 in
          elim (ℕ_discrete count 0) [
            | yes z ↦ (
              marked,
              rw e (
                  rw (ready-nil (suc i) hs ps ms a.2 w.1 z)
                    (active_last (suc count) p' (filled ps ms) all _ e (omega arith) found)),
              keep,
            )
            | no more ↦
                let less : suc count - 1 ≡ count = omega arith in
                (
                  all',
                  rw e (
                      active_more (suc count) p' (filled ps ms) all _ _ e (omega arith) found
                        (rw less r)),
                  λ j qs b. keeps j qs (keep j qs b),
                )
          ]
    ]

find-cons : (h : Handle) (x : ℕ) (hs : List Handle) → find x hs ≢ none → find x (h ∷ hs) ≢ none
unfolding find
find-cons h x hs k = ground arith

find_self : (h : Handle) (hs : List Handle) → find h.fd (h ∷ hs) ≢ none
unfolding find
find_self h hs = ground arith

Known-cons : (h : Handle) (all hs : List Handle) → Known all hs → Known (h ∷ all) hs
Known-cons h all [] k = tt
Known-cons h all (g ∷ hs) k = (find-cons h g.fd all k.0, Known-cons h all hs k.1)

Known-self : (hs : List Handle) → Known hs hs
Known-self [] = tt
Known-self (h ∷ hs) = (find_self h hs, Known-cons h hs hs (Known-self hs))

Aligned-filled :
    (i : ℕ) (hs : List Handle) (ps : List PollFd) (ms : List Mask)
    → Aligned i hs ps
    → Aligned i hs (filled ps ms)
unfolding filled
Aligned-filled i hs [] ms a = a
Aligned-filled i hs (p ∷ ps) [] a = a
Aligned-filled i [] (p ∷ ps) (m ∷ ms) a = a
Aligned-filled i (h ∷ hs) (p ∷ ps) (m ∷ ms) a = (a.0, a.1, Aligned-filled (suc i) hs ps ms a.2)

-- On a valid table, when poll(2) answers, `poll` returns the descriptors with an event, all of them
-- and in the order of their indices, and the table is still valid: every entry asks for what its
-- handle wants.
pub poll-ready :
    (s : Spoller) (ms : List Mask)
    → IsValid s
    → Answers s.pollfds ms
    → (t : Spoller) × (poll (answered ms) s ≡ ok (ready s.handles ms, t)) × IsValid t
unfolding poll
poll-ready s ms v w =
    let (all, r, keeps) =
      active_lem 0 s.handles s.pollfds ms s.handles v w (Known-self s.handles) in
    (_, rw r refl, keeps 0 _ (Aligned-filled 0 s.handles s.pollfds ms v))
