-- ===== src/Socket/Ownership.antt =====
-- socket.cc: the descriptors that the process has open, and the objects that own them.
use m_server.Prelude.{
  ℕ, zero, suc, ◌+◌, ◌-◌, ◌≤◌, ◌≡◌, refl, sym, ap, subst, List, [], ◌∷◌, ◌++◌, Option, none, some,
  Option-cases, inl, inr, get_elem?, set, arith, remove_at,
}
use m_server.Socket.{Socket, new, move, closes, owned_by}
use m_server.Socket.Counts.{count, count-append, close_all, count-close_all, count_at, count_none}

module _ {ℓ} (Address : Type ℓ) where
  -- `opened` lists the descriptors of sockets that the process has open, `objects` the objects that
  -- have been constructed and not destroyed.
  pub record World : Type ℓ where
    pub opened : List ℕ
    pub objects : List (Socket Address)

-- What happens to the objects: one is constructed on a descriptor that a system call made, or on
-- -1; the `i`-th is moved from; the `i`-th is destroyed.
pub data Event : Type 0 where
  created : Option ℕ → Event
  moved : ℕ → Event
  destroyed : ℕ → Event

module _ {ℓ} {Address : Type ℓ} where
  unfoldable pub owned : List (Socket Address) → List ℕ
  owned [] = []
  owned (s ∷ ss) = closes s ++ owned ss

  unfoldable pub move_object : ℕ → World Address → World Address
  move_object i w = elim (get_elem? w.objects i) [
    | none ↦ w
    | some s ↦
        let (new_object, left) = move s in record w { objects = new_object ∷ set w.objects i left }
  ]

  unfoldable pub destroy_object : ℕ → World Address → World Address
  destroy_object i w = elim (get_elem? w.objects i) [
    | none ↦ w
    | some s ↦ record { opened = close_all (closes s) w.opened; objects = remove_at i w.objects }
  ]

  unfoldable pub step : Event → World Address → World Address
  step (created answer) w = record {
    opened = owned_by answer ++ w.opened;
    objects = new answer ∷ w.objects;
  }
  step (moved i) w = move_object i w
  step (destroyed i) w = destroy_object i w

  unfoldable pub run : List Event → World Address → World Address
  run [] w = w
  run (e ∷ es) w = run es (step e w)

  -- A system call makes a descriptor that is not open.
  abbrev pub Allowed : List Event → World Address → Type 0
  Allowed [] w = Unit
  Allowed (created (some fd) ∷ es) w =
      (count fd w.opened ≡ 0) × Allowed es (step (created (some fd)) w)
  Allowed (created none ∷ es) w = Allowed es (step (created none) w)
  Allowed (moved i ∷ es) w = Allowed es (step (moved i) w)
  Allowed (destroyed i ∷ es) w = Allowed es (step (destroyed i) w)

  count-owned-set :
      (n i : ℕ) (s t : Socket Address) (ss : List (Socket Address))
      → get_elem? ss i ≡ some s
      → count n (owned (set ss i t)) + count n (closes s) ≡ count n (owned ss) + count n (closes t)
  unfolding owned
  count-owned-set n i s t [] e = cc
  count-owned-set n zero s t (x ∷ ss) e =
      ground (arith, count-append n (closes x) (owned ss), count-append n (closes t) (owned ss))
  count-owned-set n (suc i) s t (x ∷ ss) e = omega (
    arith,
    count-append n (closes x) (owned ss),
    count-append n (closes x) (owned (set ss i t)),
    count-owned-set n i s t ss e,
  )

  count-owned-remove_at :
      (n i : ℕ) (s : Socket Address) (ss : List (Socket Address))
      → get_elem? ss i ≡ some s
      → count n (owned (remove_at i ss)) + count n (closes s) ≡ count n (owned ss)
  unfolding owned
  count-owned-remove_at n i s [] e = cc
  count-owned-remove_at n zero s (x ∷ ss) e = ground (arith, count-append n (closes x) (owned ss))
  count-owned-remove_at n (suc i) s (x ∷ ss) e = omega (
    arith,
    count-append n (closes x) (owned ss),
    count-append n (closes x) (owned (remove_at i ss)),
    count-owned-remove_at n i s ss e,
  )

  count-closes :
      (n : ℕ) (s : Socket Address) (xs : List ℕ)
      → count n (close_all (closes s) xs) ≡ count n xs - count n (closes s)
  unfolding closes
  count-closes n s xs = count-close_all n s.fd xs

  first :
      (e : Event) (es : List Event) (w : World Address) → Allowed (e ∷ es) w → Allowed (e ∷ []) w
  first (created none) es w a = tt
  first (created (some fd)) es w a = (a.0, tt)
  first (moved i) es w a = tt
  first (destroyed i) es w a = tt

  rest :
      (e : Event) (es : List Event) (w : World Address) → Allowed (e ∷ es) w → Allowed es (step e w)
  rest (created none) es w a = a
  rest (created (some fd)) es w a = a.1
  rest (moved i) es w a = a
  rest (destroyed i) es w a = a

  -- Each open descriptor has one owner, and what an object owns is open.
  abbrev pub IsOwned : World Address → Type 0
  IsOwned w = (n : ℕ) → (count n w.opened ≡ count n (owned w.objects)) × (count n w.opened ≤ 1)

  move_object-IsOwned : (i : ℕ) (w : World Address) → IsOwned w → IsOwned (move_object i w)
  unfolding move_object move owned closes count
  move_object-IsOwned i w v = elim (Option-cases (get_elem? w.objects i)) [
    | inl e ↦ let same : move_object i w ≡ w = rw (e, move_object) refl in rw same v
    | inr (s, e) ↦
        let left = (move s).1 in
        let moved : move_object i w ≡ record w { objects = s ∷ set w.objects i left } =
          rw (e, move_object) refl in
        subst IsOwned (sym moved) λ n. omega (
          arith,
          v n,
          count-append n (owned_by s.fd) (owned (set w.objects i left)),
          count-owned-set n i s left w.objects e,
        )
  ]

  destroy_object-IsOwned : (i : ℕ) (w : World Address) → IsOwned w → IsOwned (destroy_object i w)
  unfolding destroy_object
  destroy_object-IsOwned i w v = elim (Option-cases (get_elem? w.objects i)) [
    | inl e ↦ let same : destroy_object i w ≡ w = rw (e, destroy_object) refl in rw same v
    | inr (s, e) ↦
        let destroyed : destroy_object i w
            ≡ record { opened = close_all (closes s) w.opened; objects = remove_at i w.objects } =
          rw (e, destroy_object) refl in
        subst IsOwned (sym destroyed) λ n.
          omega (arith, v n, count-closes n s w.opened, count-owned-remove_at n i s w.objects e)
  ]

  step-IsOwned :
      (e : Event) (w : World Address) → Allowed (e ∷ []) w → IsOwned w → IsOwned (step e w)
  unfolding step owned closes count
  step-IsOwned (created none) w a v = v
  step-IsOwned (created (some fd)) w a v = λ n. ground (arith, v n, count_at fd n w.opened)
  step-IsOwned (moved i) w a v = move_object-IsOwned i w v
  step-IsOwned (destroyed i) w a v = destroy_object-IsOwned i w v

  -- However sockets are constructed, moved from and destroyed, as long as each descriptor made is new,
  -- every open descriptor has exactly one owner and no object owns a descriptor that is closed: none
  -- is leaked, and none is closed twice.
  pub run-IsOwned :
      (es : List Event) (w : World Address) → Allowed es w → IsOwned w → IsOwned (run es w)
  unfolding run
  run-IsOwned [] w a v = v
  run-IsOwned (e ∷ es) w a v =
      run-IsOwned es (step e w) (rest e es w a) (step-IsOwned e w (first e es w a) v)

  -- When every object is destroyed, no descriptor of a socket is open.
  pub run-closed :
      (es : List Event) (w : World Address)
      → Allowed es w
      → IsOwned w
      → (run es w).objects ≡ []
      → (run es w).opened ≡ []
  unfolding owned count
  run-closed es w a v e = count_none (run es w).opened λ n.
      omega (
        arith,
        (run-IsOwned es w a v n).0,
        ap (λ (ss : List (Socket Address)). count n (owned ss)) e,
      )
