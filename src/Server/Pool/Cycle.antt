-- ===== src/Server/Pool/Cycle.antt =====
-- loop_thread_pool.cc: the loops of all calls to come.
use native.Mathlib.Nat.{mod-eq_of_lt, mod_self, mod-add-mod, mod-lt}
use m_server.Prelude.{
  ℕ, subst, zero, suc, ◌+◌, ◌%◌, ◌<◌, ◌≡◌, sym, ap, ap₂, ◌∙◌, List, [], ◌∷◌, Option, length,
  get_elem?, get_elem?-of_lt, leb, if◌then◌else◌, Bool-cases, inl, inr, ok, arith,
}
use m_server.Server.Pool.{LoopThreadPool, get_next_loop}
use m_server.Server.Pool.Turns.{get_loops}

-- The reference: call number `i` gets loop number `i` modulo the number of loops.
unfoldable pub cycle : ℕ → ℕ → List ℕ → List (Option ℕ)
cycle zero i ls = []
cycle (suc k) i ls = get_elem? ls (i % length ls) ∷ cycle k (suc i) ls

next_idx : (i n : ℕ) → i < n → (if leb n (i + 1) then 0 else i + 1) ≡ (i + 1) % n
next_idx i n lt = elim (Bool-cases (leb n (i + 1))) [
  | inl e ↦ let last : i + 1 ≡ n = ground arith in rw e (sym (ap (λ m. m % n) last ∙ mod_self n))
  | inr e ↦ rw e (sym (mod-eq_of_lt (ground arith)))
]

get_next_loop-cycle :
    (p : LoopThreadPool)
    → p.next_thread_idx < length p.loops
    → get_next_loop p
      ≡ ok (
        get_elem? p.loops p.next_thread_idx,
        record p { next_thread_idx = (p.next_thread_idx + 1) % length p.loops },
      )
unfolding get_next_loop
get_next_loop-cycle p lt =
    let (l, at) = get_elem?-of_lt p.loops p.next_thread_idx lt in
    ground (arith, at, next_idx p.next_thread_idx (length p.loops) lt)

get_loops_from :
    (k i : ℕ) (p : LoopThreadPool)
    → 0 < length p.loops
    → p.next_thread_idx ≡ i % length p.loops
    → get_loops k p
      ≡ ok (cycle k i p.loops, record p { next_thread_idx = (i + k) % length p.loops })
unfolding get_loops cycle
get_loops_from zero i p pos e =
    let same : i ≡ i + 0 = omega arith in
    ap (λ m. ok ([], record p { next_thread_idx = m })) (e ∙ ap (λ m. m % length p.loops) same)
get_loops_from (suc k) i p pos e =
    let n = length p.loops in
    let next : (p.next_thread_idx + 1) % n ≡ suc i % n =
      ap (λ m. (m + 1) % n) e ∙ mod-add-mod i n 1 ∙ ap (λ m. m % n) (omega arith) in
    let p' = record p { next_thread_idx = (p.next_thread_idx + 1) % n } in
    let rest = get_loops_from k (suc i) p' pos next in
    let lt : p.next_thread_idx < n = subst (λ m. m < n) (sym e) (mod-lt i pos) in
    rw (get_next_loop-cycle p lt) (
      rw rest (
        ap₂
          (λ m j.
            ok
              (get_elem? p.loops m ∷ cycle k (suc i) p.loops, record p { next_thread_idx = j % n }))
          e (omega arith)))

-- However many calls of `get_next_loop` are made on a pool of one loop or more whose index is that of
-- a loop, they return, and give the loops in turn: call `i` from there on gets the loop whose number
-- is that index plus `i`, modulo the number of loops.
pub get_loops-cycle :
    (k : ℕ) (p : LoopThreadPool)
    → p.next_thread_idx < length p.loops
    → get_loops k p
      ≡ ok (
        cycle k p.next_thread_idx p.loops,
        record p { next_thread_idx = (p.next_thread_idx + k) % length p.loops },
      )
get_loops-cycle k p lt = get_loops_from k p.next_thread_idx p (omega arith) (sym (mod-eq_of_lt lt))
