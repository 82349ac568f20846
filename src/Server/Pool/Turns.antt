-- ===== src/Server/Pool/Turns.antt =====
-- loop_thread_pool.cc: which loop is next.
use m_server.Prelude.{
  ℕ, zero, suc, ◌+◌, ◌<◌, ◌≡◌, refl, sym, ap, ap₂, ◌∙◌, List, [], ◌∷◌, ◌++◌, map, append_assoc,
  Option, some, length, length-append, get_elem?, Result, ok, ◌>>=◌, arith,
}
use m_server.Server.Pool.{LoopThreadPool, loop_at, get_next_loop}

-- `n` calls of `get_next_loop`, with the loops that they return.
unfoldable pub get_loops : ℕ → LoopThreadPool → Result (List (Option ℕ) × LoopThreadPool)
get_loops zero p = ok ([], p)
get_loops (suc n) p = get_next_loop p >>= λ r. get_loops n r.1 >>= λ s. ok (r.0 ∷ s.0, s.1)

get_elem?-append : (xs ys : List ℕ) (y : ℕ) → get_elem? (xs ++ y ∷ ys) (length xs) ≡ some y
get_elem?-append [] ys y = refl
get_elem?-append (x ∷ xs) ys y = get_elem?-append xs ys y

get_next_loop_lem :
    (xs ys : List ℕ) (y : ℕ) (p : LoopThreadPool)
    → p.loops ≡ xs ++ y ∷ ys
    → p.next_thread_idx ≡ length xs
    → get_next_loop p
      ≡ ok (some y, record p { next_thread_idx = elim ys [ [] ↦ 0 | _ ∷ _ ↦ length xs + 1 ] })
unfolding get_next_loop loop_at
get_next_loop_lem xs ys y p e i =
    let at : get_elem? p.loops p.next_thread_idx ≡ some y =
      ap₂ get_elem? e i ∙ get_elem?-append xs ys y in
    let size : length p.loops ≡ length xs + length (y ∷ ys) =
      ap length e ∙ length-append xs (y ∷ ys) in
    elim ys [ [] ↦ ground arith | _ ∷ _ ↦ ground arith ]

-- From any loop on, as many calls as there are loops left return them in order; then the first one
-- is next.
walk :
    (xs ys : List ℕ) (y : ℕ) (p : LoopThreadPool)
    → p.loops ≡ xs ++ y ∷ ys
    → p.next_thread_idx ≡ length xs
    → get_loops (length (y ∷ ys)) p ≡ ok (map some (y ∷ ys), record p { next_thread_idx = 0 })
unfolding get_loops
walk xs [] y p e i = rw (get_next_loop_lem xs [] y p e i) refl
walk xs (z ∷ zs) y p e i =
    let p' = record p { next_thread_idx = length xs + 1 } in
    let rest =
      walk (xs ++ y ∷ []) zs z p' (e ∙ sym (append_assoc xs (y ∷ []) (z ∷ zs)))
        (omega (arith, length-append xs (y ∷ []))) in
    rw (get_next_loop_lem xs (z ∷ zs) y p e i) (rw rest refl)

turn :
    (ls : List ℕ) (p : LoopThreadPool)
    → p.loops ≡ ls
    → p.next_thread_idx ≡ 0
    → 0 < length ls
    → get_loops (length ls) p ≡ ok (map some ls, p)
turn [] p e i h = absurd (omega arith)
turn (y ∷ ys) p e i h =
    walk [] ys y p e i ∙ ap (λ n. ok (map some (y ∷ ys), record p { next_thread_idx = n })) (sym i)
