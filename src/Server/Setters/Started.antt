-- ===== src/Server/Setters/Started.antt =====
-- tcp_server.cc and loop_thread_pool.cc: a server from `set_thread_num` and `start` on.
use m_server.Prelude.{
  Bool, true, false, none, inl, inr, Bool-cases, ℕ, zero, suc, ◌+◌, ◌-◌, ◌%◌, ◌^◌, ◌<◌, ◌≤◌, ◌≡◌,
  ◌≢◌, ◌↔◌, ◌⊎◌, refl, sym, ap, ap₂, ◌∙◌, List, [], ◌∷◌, ◌++◌, Option, some, ltb, length,
  length-append, get_elem?, ok, arith,
}
use native.Mathlib.Nat.{mod-eq_of_lt, mod-lt}
use m_server.Prelude.Int.{pos}
use m_server.Server.{TcpServer, new, new_acceptor, start, start_threads, listen}
use m_server.Server.Pool
use m_server.Server.Pool.{LoopThreadPool, star, star_from, get_next_loop}
use m_server.Server.Pool.Turns.{get_loops}
use m_server.Server.Pool.Cycle.{cycle, get_loops-cycle}
use m_server.Server.Setters.{set_thread_num, set_pool_thread_num, to_int}

-- Loop number `i` stands at index `i`.
abbrev IsNumbered : List ℕ → Type 0
IsNumbered ls = (i : ℕ) → i < length ls → get_elem? ls i ≡ some i

get_elem?-snoc :
    (ls : List ℕ) (y i : ℕ) → i < length ls → get_elem? (ls ++ y ∷ []) i ≡ get_elem? ls i
get_elem?-snoc [] y i h = absurd (omega arith)
get_elem?-snoc (l ∷ ls) y zero h = refl
get_elem?-snoc (l ∷ ls) y (suc i) h = get_elem?-snoc ls y i (omega arith)

get_elem?-last : (ls : List ℕ) (y : ℕ) → get_elem? (ls ++ y ∷ []) (length ls) ≡ some y
get_elem?-last [] y = refl
get_elem?-last (l ∷ ls) y = get_elem?-last ls y

snoc-IsNumbered : (ls : List ℕ) → IsNumbered ls → IsNumbered (ls ++ length ls ∷ [])
snoc-IsNumbered ls h i lt = elim (Bool-cases (ltb i (length ls))) [
  | inl e ↦
      let below : i < length ls = ground (arith, e) in
      get_elem?-snoc ls (length ls) i below ∙ h i below
  | inr e ↦
      let same : i ≡ length ls = ground (arith, e, lt, length-append ls (length ls ∷ [])) in
      ap (get_elem? (ls ++ length ls ∷ [])) same
      ∙ get_elem?-last ls (length ls)
      ∙ ap some (sym same)
]

-- If the system makes every thread, each loop is started.
star_from_lem :
    (makes : ℕ → Bool) (n : ℕ) (p : LoopThreadPool)
    → ((i : ℕ) → i < length p.loops + n → makes i ≡ true)
    → IsNumbered p.loops
    → (p' : LoopThreadPool) × (star_from makes n p ≡ some p')
      × IsNumbered p'.loops
      × (length p'.loops ≡ length p.loops + n)
      × (p'.next_thread_idx ≡ p.next_thread_idx)
unfolding star_from
star_from_lem makes zero p all h = (p, refl, h, omega arith, refl)
star_from_lem makes (suc n) p all h =
    let l = length p.loops in
    let longer = length-append p.loops (l ∷ []) in
    let (p', e, numbered, size, next) =
      star_from_lem makes n (record p { loops = p.loops ++ l ∷ [] })
        (λ i lt. all i (omega (arith, lt, longer))) (snoc-IsNumbered p.loops h) in
    (p', rw (all l (omega arith)) e, numbered, omega (arith, size, longer), next)

-- If it does not make one of them, `star` does not return.
star_from-waits :
    (makes : ℕ → Bool) (n i : ℕ) (p : LoopThreadPool)
    → length p.loops ≤ i
    → i < length p.loops + n
    → makes i ≡ false
    → star_from makes n p ≡ none
unfolding star_from
star_from-waits makes zero i p le lt fails = absurd (omega arith)
star_from-waits makes (suc n) i p le lt fails =
    let l = length p.loops in
    let longer = length-append p.loops (l ∷ []) in
    elim (Bool-cases (makes l)) [
      | inl made ↦
          let other : l ≢ i = λ same. absurd (ground (arith, made, fails, ap makes same)) in
          rw made (
            star_from-waits makes n i (record p { loops = p.loops ++ l ∷ [] })
              (omega (arith, longer, other)) (omega (arith, longer)) fails)
      | inr not_made ↦ rw not_made refl
    ]

-- The loops of `k` connections from number `i` on, in turn.
abbrev pub in_turn : ℕ → ℕ → ℕ → List (Option ℕ)
in_turn zero i n = []
in_turn (suc k) i n = some (i % n) ∷ in_turn k (suc i) n

cycle-in_turn :
    (k i : ℕ) (ls : List ℕ) → 0 < length ls → IsNumbered ls → cycle k i ls ≡ in_turn k i (length ls)
unfolding cycle
cycle-in_turn zero i ls positive h = refl
cycle-in_turn (suc k) i ls positive h =
    let at = h (i % length ls) (mod-lt i positive) in
    ap₂ ◌∷◌ at (cycle-in_turn k (suc i) ls positive h)

to_int-small : (n : ℕ) → n < 2 ^ 31 → to_int n ≡ pos n
unfolding to_int
to_int-small n h = let low : n % 2 ^ 32 ≡ n = mod-eq_of_lt (omega arith) in ground (arith, low)

module _ {ℓ} {Name : Type ℓ} where
  set_thread_num-small : (n : ℕ) → n < 2 ^ 31 → set_thread_num {Name = Name} n (new 0) ≡ new n
  unfolding set_thread_num set_pool_thread_num
  set_thread_num-small n h = rw (to_int-small n h, set_thread_num) refl

  -- A new server that is told to use `n` threads, with `n` from 1 to 2^31 - 1, all of which the system
  -- makes: `start` returns, with the acceptor marked as listening and `n` loops, and the connections to
  -- come are given to the loops 0, 1, ..., n - 1 in turn, however many connections there are. If the
  -- system does not make one of the threads, `start` waits without end.
  pub start-in_turn :
      (makes fails : ℕ → Bool) (n k i : ℕ)
      → 0 < n
      → n < 2 ^ 31
      → ((j : ℕ) → j < n → makes j ≡ true)
      → i < n
      → fails i ≡ false
      → (s : TcpServer Name) × (p : LoopThreadPool) × (start makes (set_thread_num n (new 0))
          ≡ ok (some s))
        × (s.acceptor.is_listing ≡ true)
        × (length s.pool.loops ≡ n)
        × (get_loops k s.pool ≡ ok (in_turn k 0 n, p))
        × (start fails (set_thread_num {Name = Name} n (new 0)) ≡ ok none)
  unfolding start start_threads star listen
  start-in_turn makes fails n k i positive small all lt not_made =
      let (pool, started, numbered, sum, next) =
        star_from_lem makes n (Pool.new n) (λ j h. all j (omega (arith, h)))
          (λ j h. absurd (omega arith)) in
      let size : length pool.loops ≡ n = omega (arith, sum) in
      let s : TcpServer Name = record (new n) {
        pool = pool;
        started = true;
        acceptor = listen new_acceptor;
      } in
      let serves = get_loops-cycle k pool (omega (arith, size, next, positive)) in
      let loops : cycle k pool.next_thread_idx pool.loops ≡ in_turn k 0 n =
        ap (λ m. cycle k m pool.loops) next
        ∙ cycle-in_turn k 0 pool.loops (omega (arith, size, positive)) numbered
        ∙ ap (in_turn k 0) size in
      let after = record pool {
        next_thread_idx = (pool.next_thread_idx + k) % length pool.loops;
      } in
      let waits =
        star_from-waits fails n i (Pool.new n) (omega arith) (omega (arith, lt)) not_made in
      (
        s,
        after,
        ap (start makes) (set_thread_num-small n small) ∙ rw started refl,
        refl,
        size,
        serves ∙ ap (λ ls. ok (ls, after)) loops,
        ap (start fails) (set_thread_num-small n small) ∙ rw waits refl,
      )

  -- A number of threads, as a `size_t`, is kept exactly when it is below 2^31 or among the last 2^31
  -- of its type.
  pub set_thread_num_lem :
      (n : ℕ) (s : TcpServer Name)
      → n < 2 ^ 64
      → ((set_thread_num n s).pool.thread_num ≡ n) ↔ ((n < 2 ^ 31) ⊎ (2 ^ 64 - 2 ^ 31 ≤ n))
  unfolding set_thread_num set_pool_thread_num to_int
  set_thread_num_lem n s h = ground arith
