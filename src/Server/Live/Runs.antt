-- ===== src/Server/Live/Runs.antt =====
-- tcp_server.cc: a run on the map of connections, and on the numbers of those that are live.
use m_server.Prelude.{
  ℕ, suc, ◌-◌, ◌^◌, ◌<◌, ◌≡◌, ◌≢◌, refl, sym, ap, ap₂, ◌∙◌, List, [], ◌∷◌, ◌++◌, map, Bool, true,
  false, inl, inr, All, ok, arith,
}
use mathlib.Core.List.{map-append}
use m_server.Server.{Entry, TcpServer, erase, register_connection, remove_connection_in_loop}
use m_server.Server.Connections.{Naming, IsNumbered, assign_fresh, same_self, same_ne}
use m_server.Server.Live.{
  get_next_loop_returns, Op, accept, close, Live, remove, has, after, spec, Possible, Fits,
  Distinct, names, Shows, step, run,
}
use m_server.Server.Live.Numbers.{
  Distinct-append, Distinct-remove, Below-append, Below-remove, absent_split, present_split,
}

module _ {ℓ} {Name : Type ℓ} (conn_name : ℕ → Name) (same : Name → Name → Bool) where
  numbered :
      (n : ℕ) (js : List ℕ) (xs : List (Entry Name))
      → names xs ≡ map conn_name js
      → All (λ j. j < n) js
      → All (IsNumbered conn_name same n) xs
  numbered n [] [] e a = tt
  numbered n [] (x ∷ xs) e a = absurd (ground arith)
  numbered n (j ∷ js) [] e a = tt
  numbered n (j ∷ js) (x ∷ xs) e a =
      let both : (x.name ≡ conn_name j) × (names xs ≡ map conn_name js) = (cc, cc) in
      ((j, a.0, both.0), numbered n js xs both.1 a.1)

  module _ (naming : Naming conn_name same) where
    pub name_ne :
        (x : Entry Name) (i j : ℕ)
        → x.name ≡ conn_name j
        → j ≢ i
        → same x.name (conn_name i) ≡ false
    name_ne x i j e d =
        same_ne conn_name same naming x.name (conn_name i) λ f. d (naming.injective j i (sym e ∙ f))

    pub name_eq :
        (x : Entry Name) (i j : ℕ) → x.name ≡ conn_name j → j ≡ i → same x.name (conn_name i) ≡ true
    name_eq x i j e f = rw e (rw f (same_self conn_name same naming (conn_name i)))

    erase_here :
        (x : Entry Name) (i j : ℕ) (xs : List (Entry Name))
        → x.name ≡ conn_name j
        → j ≡ i
        → erase conn_name same (conn_name i) xs ≡ (0, xs)
        → erase conn_name same (conn_name i) (x ∷ xs) ≡ (1, xs)
    unfolding erase
    erase_here x i j xs e f rest = rw rest (rw (name_eq x i j e f) refl)

    erase_other :
        (x : Entry Name) (i j n : ℕ) (xs ys : List (Entry Name))
        → x.name ≡ conn_name j
        → j ≢ i
        → erase conn_name same (conn_name i) xs ≡ (n, ys)
        → erase conn_name same (conn_name i) (x ∷ xs) ≡ (n, x ∷ ys)
    unfolding erase
    erase_other x i j n xs ys e d rest = rw rest (rw (name_ne x i j e d) refl)

    erase_absent :
        (i : ℕ) (js : List ℕ) (xs : List (Entry Name))
        → names xs ≡ map conn_name js
        → has i js ≡ false
        → erase conn_name same (conn_name i) xs ≡ (0, xs)
    unfolding erase
    erase_absent i js [] e h = refl
    erase_absent i [] (x ∷ xs) e h = absurd (ground arith)
    erase_absent i (j ∷ js) (x ∷ xs) e h =
        let both : (x.name ≡ conn_name j) × (names xs ≡ map conn_name js) = (cc, cc) in
        let (ne, left) = absent_split i j js h in
        erase_other x i j 0 xs xs both.0 ne (erase_absent i js xs both.1 left)

    erase_present :
        (i : ℕ) (js : List ℕ) (xs : List (Entry Name))
        → names xs ≡ map conn_name js
        → Distinct js
        → has i js ≡ true
        → (ys : List (Entry Name)) × (erase conn_name same (conn_name i) xs ≡ (1, ys))
          × (names ys ≡ map conn_name (remove i js))
    erase_present i [] xs e d h = absurd (ground arith)
    erase_present i (j ∷ js) [] e d h = absurd (ground arith)
    erase_present i (j ∷ js) (x ∷ xs) e d h =
        let both : (x.name ≡ conn_name j) × (names xs ≡ map conn_name js) = (cc, cc) in
        elim (present_split i j js h) [
          | inl f ↦ (
            xs,
            erase_here x i j xs both.0 f.0 (erase_absent i js xs both.1 (rw (sym f.0) d.0)),
            both.1 ∙ sym (ap (map conn_name) f.1),
          )
          | inr f ↦
              let (ys, g, k) = erase_present i js xs both.1 d.1 f.1 in
              (
                x ∷ ys,
                erase_other x i j 1 xs ys both.0 f.0 g,
                ap₂ (λ a bs. a ∷ bs) both.0 k ∙ sym (ap (map conn_name) f.2),
              )
        ]

    accepting_lem :
        (sock : ℕ) (s : TcpServer Name) (l : Live)
        → Shows conn_name s l
        → l.next < 2 ^ 31 - 1
        → (d : TcpServer Name) × (step conn_name same (accept sock) s ≡ ok d)
          × Shows conn_name d (after (accept sock) l)
    unfolding step register_connection
    accepting_lem sock s l h lt =
        let (owner, q, turn, ready) = get_next_loop_returns s.pool h.pool in
        let n = s.next_conn_id in
        let e : Entry Name = record { name = conn_name n; owner = owner; socket = sock } in
        let fresh =
          assign_fresh conn_name same naming n s.connections_map e
            (numbered n l.numbers s.connections_map h.held (rw h.next_is h.below)) refl in
        (
          record s {
            pool = q;
            next_conn_id = suc n;
            connections_map = s.connections_map ++ e ∷ [];
          },
          ground (arith, turn, fresh, h.next_is, lt),
          record {
            held =
                map-append (λ x. x.name) s.connections_map (e ∷ [])
                ∙ ap₂ (λ xs ys. xs ++ ys) h.held (ap (λ j. conn_name j ∷ []) h.next_is)
                ∙ sym (map-append conn_name l.numbers (l.next ∷ []));
            below = Below-append l.next l.numbers h.below;
            distinct = Distinct-append l.next l.numbers h.below h.distinct;
            next_is = ap suc h.next_is;
            pool = ready;
          },
        )

    closing_lem :
        (i : ℕ) (s : TcpServer Name) (l : Live)
        → Shows conn_name s l
        → has i l.numbers ≡ true
        → (d : TcpServer Name) × (step conn_name same (close i) s ≡ ok d)
          × Shows conn_name d (after (close i) l)
    unfolding step remove_connection_in_loop
    closing_lem i s l h live =
        let (ys, gone, left) = erase_present i l.numbers s.connections_map h.held h.distinct live in
        (
          record s { connections_map = ys },
          ground (arith, gone),
          record {
            held = left;
            below = Below-remove l.next i l.numbers h.below;
            distinct = Distinct-remove i l.numbers h.distinct;
            next_is = h.next_is;
            pool = h.pool;
          },
        )

    pub step_live :
        (op : Op) (s : TcpServer Name) (l : Live)
        → Shows conn_name s l
        → Possible op l
        → (d : TcpServer Name) × (step conn_name same op s ≡ ok d) × Shows conn_name d (after op l)
    step_live (accept sock) s l h p = accepting_lem sock s l h p
    step_live (close i) s l h p = closing_lem i s l h p

    -- Let the map of a server hold the connections with the numbers of a list, in its order, each
    -- number once and below the next one. Over a run of `register_connection` and
    -- `remove_connection_in_loop` in which a connection that is removed is live, and the `int` of
    -- the numbers is not exhausted, every call returns, and the map holds the connections that the
    -- specification leaves: a new number at the end for each socket, less those removed.
    pub run_live :
        (ops : List Op) (s : TcpServer Name) (l : Live)
        → Shows conn_name s l
        → Fits ops l
        → (d : TcpServer Name) × (run conn_name same ops s ≡ ok d) × Shows conn_name d (spec ops l)
    unfolding run spec
    run_live [] s l h f = (s, refl, h)
    run_live (op ∷ ops) s l h f =
        let (m, e, h1) = step_live op s l h f.0 in
        let (d, e2, h2) = run_live ops m (after op l) h1 f.1 in (d, rw e e2, h2)
