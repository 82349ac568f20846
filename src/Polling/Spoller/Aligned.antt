-- ===== src/Polling/Spoller/Aligned.antt =====
-- spoller.cc: the handle of index i watches through the i-th `pollfd`.
use m_server.Prelude.{
  ℕ, suc, ◌+◌, ◌<◌, ◌≡◌, refl, ap, List, [], ◌∷◌, ◌++◌, none, some, false, Option-cases, inl, inr,
  length, get_elem?, set, arith, ◌==◌, Bool-cases, ok,
}
use m_server.Polling.Mask.{event_none}
use m_server.Polling.Handle.{Handle, Change, changed, is_none_event}
use m_server.Polling.Handle
use m_server.Polling.Spoller.{
  PollFd, Spoller, find, modify, register_polling, change_events, entry, ignored,
}

-- The entry asks for the events of the handle, and is ignored when the handle wants none.
abbrev pub Watches : Handle → PollFd → Type 0
Watches h p = (p.fd ≡ (entry h).fd) × (p.events ≡ h.events)

-- From index `i` on, handle by handle and entry by entry.
abbrev pub Aligned : ℕ → List Handle → List PollFd → Type 0
Aligned i [] [] = Unit {0}
Aligned i [] (p ∷ ps) = ⊥
Aligned i (h ∷ hs) [] = ⊥
Aligned i (h ∷ hs) (p ∷ ps) = (h.index ≡ some i) × Watches h p × Aligned (suc i) hs ps

abbrev pub IsValid : Spoller → Type 0
IsValid s = Aligned 0 s.handles s.pollfds

Aligned-length :
    (i : ℕ) (hs : List Handle) (ps : List PollFd) → Aligned i hs ps → length hs ≡ length ps
Aligned-length i [] [] a = refl
Aligned-length i [] (p ∷ ps) a = absurd a
Aligned-length i (h ∷ hs) [] a = absurd a
Aligned-length i (h ∷ hs) (p ∷ ps) a = ap suc (Aligned-length (suc i) hs ps a.2)

Aligned-append :
    (i j : ℕ) (hs : List Handle) (ps : List PollFd) (h : Handle) (p : PollFd)
    → Aligned i hs ps
    → i + length ps ≡ j
    → h.index ≡ some j
    → Watches h p
    → Aligned i (hs ++ h ∷ []) (ps ++ p ∷ [])
Aligned-append i j [] [] h p a e x w = let f : i ≡ j = omega arith in (rw f x, w, tt)
Aligned-append i j [] (q ∷ ps) h p a e x w = absurd a
Aligned-append i j (g ∷ hs) [] h p a e x w = absurd a
Aligned-append i j (g ∷ hs) (q ∷ ps) h p a e x w =
    (a.0, a.1, Aligned-append (suc i) j hs ps h p a.2 (omega arith) x w)

find-append :
    (fd : ℕ) (hs : List Handle) (h : Handle)
    → find fd hs ≡ none
    → h.fd ≡ fd
    → find fd (hs ++ h ∷ []) ≡ some h
unfolding find
find-append fd [] h e f = ground arith
find-append fd (g ∷ hs) h e f = ground (arith, find-append fd hs h)

-- The handle that `register_polling` makes.
abbrev fresh : ℕ → Spoller → Handle
fresh fd s = record {
  fd = fd;
  index = some (length s.pollfds);
  events = event_none;
  revents = event_none;
  handling_event = false;
  read_callback = false;
  write_callback = false;
  err_callback = false;
  close_callback = false;
}

register_polling-fresh :
    (fd : ℕ) (s : Spoller)
    → IsValid s
    → 0 < fd
    → find fd s.handles ≡ none
    → register_polling fd s
      ≡ ok (
        fresh fd s,
        record { pollfds = s.pollfds ++ ignored ∷ []; handles = s.handles ++ fresh fd s ∷ [] },
      )
unfolding register_polling Handle.new
register_polling-fresh fd s v pos e =
    rw (e, register_polling) (ground (arith, Aligned-length 0 s.handles s.pollfds v))

-- On a valid table, `register_polling` of a descriptor above 0 returns the handle under which it is
-- then found, and the table is still valid.
pub register_polling-IsValid :
    (fd : ℕ) (s : Spoller)
    → IsValid s
    → 0 < fd
    → (h : Handle) × (t : Spoller) × (register_polling fd s ≡ ok (h, t))
      × (find fd t.handles ≡ some h)
      × IsValid t
unfolding register_polling is_none_event
register_polling-IsValid fd s v pos = elim (Option-cases (find fd s.handles)) [
  | inl e ↦ (
    fresh fd s,
    _,
    register_polling-fresh fd s v pos e,
    find-append fd s.handles (fresh fd s) e refl,
    Aligned-append 0 (length s.pollfds) s.handles s.pollfds (fresh fd s) ignored v (omega arith)
        refl (refl, refl),
  )
  | inr (h, e) ↦ (h, s, rw (e, register_polling) refl, e, v)
]

abbrev pub change : Change → Handle → Handle
change c h = record h { events = changed c h.events }

-- The handle found under a descriptor, and the entry that it writes.
record Located (c : Change) (i fd : ℕ) (hs : List Handle) (ps : List PollFd) (h : Handle)
    : Type 0 where
  at : ℕ
  old : PollFd
  index : h.index ≡ some (i + at)
  present : get_elem? ps at ≡ some old
  found : find fd (modify fd (change c) hs) ≡ some (change c h)
  aligned : Aligned i (modify fd (change c) hs) (set ps at (entry (change c h)))

locate :
    (c : Change) (i fd : ℕ) (hs : List Handle) (ps : List PollFd) (h : Handle)
    → Aligned i hs ps
    → find fd hs ≡ some h
    → Located c i fd hs ps h
unfolding find modify is_none_event
locate c i fd [] ps h a e = cc
locate c i fd (g ∷ hs) [] h a e = absurd a
locate c i fd (g ∷ hs) (p ∷ ps) h a e = elim (Bool-cases (g.fd == fd)) [
  | inl hit ↦ record {
    at = 0;
    old = p;
    index = ground arith;
    present = refl;
    found = ground arith;
    aligned = ground arith;
  }
  | inr miss ↦
      let r = locate c (suc i) fd hs ps h a.2 (ground arith) in
      record {
        at = suc r.at;
        old = r.old;
        index = ground arith;
        present = r.present;
        found = ground arith;
        aligned = ground arith;
      }
]

-- On a valid table, `enable_reading`, `enable_writing`, `disable_writing` and `disable_all` of a
-- registered handle return; the handle wants the changed events, and the table is still valid:
-- every entry asks for what its handle wants.
pub change_events-IsValid :
    (c : Change) (fd : ℕ) (s : Spoller) (h : Handle)
    → IsValid s
    → find fd s.handles ≡ some h
    → (t : Spoller) × (change_events c fd s ≡ ok t)
      × (find fd t.handles ≡ some (record h { events = changed c h.events }))
      × IsValid t
unfolding change_events
change_events-IsValid c fd s h v e =
    let r = locate c 0 fd s.handles s.pollfds h v e in
    let zeroed : 0 + r.at ≡ r.at = omega arith in
    (_, rw r.found (rw r.index (rw zeroed (rw r.present refl))), r.found, r.aligned)
