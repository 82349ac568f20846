-- ===== src/Polling/Spoller/Removal.antt =====
-- spoller.cc, `remove_handle`: the table after a handle is gone.
use m_server.Prelude.{
  ℕ, zero, suc, ◌+◌, ◌-◌, ◌≡◌, refl, ◌∙◌, ◌≢◌, ◌≤◌, ◌<◌, List, [], ◌∷◌, some, true, inl, inr,
  length, take, set, length-take, length-set, get_elem?-of_length_le, get_elem?-of_lt, arith, ◌==◌,
  Bool-cases, ok, err, undefined,
}
use m_server.Polling.Handle.{Handle, Change, is_none_event}
use m_server.Polling.Spoller.{PollFd, Spoller, find, modify, erase, remove_handle, change_events}
use m_server.Polling.Spoller.Aligned.{Aligned, IsValid, change}

index_below :
    (i fd : ℕ) (hs : List Handle) (ps : List PollFd) (h : Handle)
    → Aligned i hs ps
    → find fd hs ≡ some h
    → (j : ℕ) × (h.index ≡ some (i + j)) × (j < length ps)
unfolding find
index_below i fd [] ps h a e = cc
index_below i fd (g ∷ hs) [] h a e = absurd a
index_below i fd (g ∷ hs) (p ∷ ps) h a e = elim (Bool-cases (g.fd == fd)) [
  | inl hit ↦ (0, ground arith, omega arith)
  | inr miss ↦
      let (j, x, lt) = index_below (suc i) fd hs ps h a.2 (ground arith) in
      (suc j, ground arith, omega arith)
]

erase-tail :
    (n i fd : ℕ) (hs : List Handle) (ps : List PollFd) (h : Handle)
    → Aligned i hs ps
    → length ps ≡ suc n
    → find fd hs ≡ some h
    → h.index ≡ some (i + n)
    → Aligned i (erase fd hs) (take n ps)
unfolding find erase
erase-tail n i fd [] ps h a l e x = cc
erase-tail n i fd (g ∷ hs) [] h a l e x = absurd a
erase-tail zero i fd (g ∷ []) (p ∷ ps) h a l e x = ground arith
erase-tail zero i fd (g ∷ g' ∷ hs) (p ∷ []) h a l e x = absurd a.2
erase-tail zero i fd (g ∷ g' ∷ hs) (p ∷ p' ∷ ps) h a l e x = absurd (omega arith)
erase-tail (suc n) i fd (g ∷ hs) (p ∷ ps) h a l e x = elim (Bool-cases (g.fd == fd)) [
  | inl hit ↦ let same : g.index ≡ some (i + suc n) = ground arith in absurd (ground arith)
  | inr miss ↦
      rw miss
        (a.0, a.1, erase-tail n (suc i) fd hs ps h a.2 (omega arith) (ground arith) (ground arith))
]

find-erase_ne : (fd x : ℕ) (hs : List Handle) → x ≢ fd → find x (erase fd hs) ≡ find x hs
unfolding find erase
find-erase_ne fd x [] n = refl
find-erase_ne fd x (h ∷ hs) n = ground (arith, find-erase_ne fd x hs n)

find-modify_self :
    (c : Change) (fd : ℕ) (hs : List Handle) (g : Handle)
    → find fd hs ≡ some g
    → find fd (modify fd (change c) hs) ≡ some (change c g)
unfolding find modify
find-modify_self c fd [] g e = cc
find-modify_self c fd (h ∷ hs) g e = ground (arith, find-modify_self c fd hs g)

change_events-stale :
    (c : Change) (fd n : ℕ) (s : Spoller) (g : Handle)
    → find fd s.handles ≡ some g
    → g.index ≡ some n
    → length s.pollfds ≤ n
    → change_events c fd s ≡ err undefined
unfolding change_events
change_events-stale c fd n s g e x le =
    rw (find-modify_self c fd s.handles g e) (ground (arith, get_elem?-of_length_le s.pollfds n))

-- On a valid table, removing a handle without events that has the last index returns a valid table.
pub remove_handle-tail :
    (fd : ℕ) (s : Spoller) (h : Handle)
    → IsValid s
    → find fd s.handles ≡ some h
    → is_none_event h ≡ true
    → h.index ≡ some (length s.pollfds - 1)
    → (t : Spoller) × (remove_handle fd s ≡ ok t) × IsValid t
unfolding remove_handle
remove_handle-tail fd s h v e quiet x =
    let (j, at, lt) = index_below 0 fd s.handles s.pollfds h v e in
    let n = length s.pollfds - 1 in
    let (p, there) = get_elem?-of_lt s.pollfds n (omega arith) in
    (_, ground arith, erase-tail n 0 fd s.handles s.pollfds h v (omega arith) e (ground arith))

-- On a valid table, removing a handle without events whose index is not the last returns, and makes
-- the table shorter by one. It leaves every other handle as it was, the one that had the last index
-- included, with that index, which is now past the end of the table: the next change of its events
-- writes out of bounds.
pub remove_handle-stale :
    (fd gfd : ℕ) (s : Spoller) (h g : Handle)
    → IsValid s
    → find fd s.handles ≡ some h
    → is_none_event h ≡ true
    → h.index ≢ some (length s.pollfds - 1)
    → find gfd s.handles ≡ some g
    → g.index ≡ some (length s.pollfds - 1)
    → (t : Spoller) × (remove_handle fd s ≡ ok t)
      × (find gfd t.handles ≡ some g)
      × ((x : ℕ) → x ≢ fd → find x t.handles ≡ find x s.handles)
      × (length t.pollfds + 1 ≡ length s.pollfds)
      × ((c : Change) → change_events c gfd t ≡ err undefined)
unfolding remove_handle
remove_handle-stale fd gfd s h g v e quiet x f y =
    let (j, at, lt) = index_below 0 fd s.handles s.pollfds h v e in
    let n = length s.pollfds - 1 in
    let (p, there) = get_elem?-of_lt s.pollfds n (omega arith) in
    let (q, here) = get_elem?-of_lt s.pollfds j (omega arith) in
    let swapped = set (set s.pollfds n q) j p in
    let gone : gfd ≢ fd = λ same. x (ground arith) in
    (
      record { pollfds = take n swapped; handles = erase fd s.handles },
      ground arith,
      find-erase_ne fd gfd s.handles gone ∙ f,
      λ x ne. find-erase_ne fd x s.handles ne,
      omega (
        arith,
        length-take n swapped,
        length-set (set s.pollfds n q) j p,
        length-set s.pollfds n q,
        lt,
      ),
      λ c.
          change_events-stale c gfd n _ g (find-erase_ne fd gfd s.handles gone ∙ f) y
            (omega (arith, length-take n swapped)),
    )
