-- ===== src/Server/Connections.antt =====
-- tcp_server.cc: the map of connections.
use m_server.Prelude.{
  ℕ, suc, ◌-◌, ◌^◌, ◌<◌, ◌≡◌, ◌↔◌, refl, sym, ◌∙◌, List, [], ◌∷◌, ◌++◌, Option, Bool, true, false,
  inl, inr, Bool-cases, All, ok, err, aborted, arith, ◌≢◌,
}
use m_server.Server.Pool.{LoopThreadPool, get_next_loop}
use m_server.Server.{
  Entry, TcpServer, assign, erase, register_connection, remove_connection_in_loop,
}

-- `same` decides equality, and two connections get two names.
pub record Naming {ℓ} {Name : Type ℓ} (conn_name : ℕ → Name) (same : Name → Name → Bool)
    : Type ℓ where
  pub decides : (a b : Name) → (same a b ≡ true) ↔ (a ≡ b)
  pub injective : (i j : ℕ) → conn_name i ≡ conn_name j → i ≡ j

module _ {ℓ} {Name : Type ℓ} (conn_name : ℕ → Name) (same : Name → Name → Bool) where
  -- The entry has the name of a number below `n`.
  abbrev pub IsNumbered : ℕ → Entry Name → Type ℓ
  IsNumbered n e = (i : ℕ) × (i < n) × (e.name ≡ conn_name i)

  module _ (naming : Naming conn_name same) where
    same_fresh : (n : ℕ) (e : Entry Name) → IsNumbered n e → same e.name (conn_name n) ≡ false
    same_fresh n e (i, lt, eq) = elim (Bool-cases (same e.name (conn_name n))) [
      | inl t ↦
          let d : e.name ≡ conn_name n = (naming.decides e.name (conn_name n)).0 t in
          let k = naming.injective i n (sym eq ∙ d) in absurd (omega arith)
      | inr f ↦ f
    ]

    pub same_self : (a : Name) → same a a ≡ true
    same_self a = (naming.decides a a).1 refl

    pub same_ne : (a b : Name) → a ≢ b → same a b ≡ false
    same_ne a b d = elim (Bool-cases (same a b)) [
      | inl t ↦ absurd (d ((naming.decides a b).0 t))
      | inr f ↦ f
    ]

    pub assign_fresh :
        (n : ℕ) (xs : List (Entry Name)) (e : Entry Name)
        → All (IsNumbered n) xs
        → e.name ≡ conn_name n
        → assign conn_name same e xs ≡ xs ++ e ∷ []
    unfolding assign
    assign_fresh n [] e h eq = refl
    assign_fresh n (x ∷ xs) e h eq = ground (arith, assign_fresh n xs e h.1 eq, same_fresh n x h.0)

    erase_fresh :
        (n : ℕ) (xs : List (Entry Name)) (e : Entry Name)
        → All (IsNumbered n) xs
        → e.name ≡ conn_name n
        → erase conn_name same (conn_name n) (xs ++ e ∷ []) ≡ (1, xs)
    unfolding erase
    erase_fresh n [] e h eq = ground (arith, same_self (conn_name n))
    erase_fresh n (x ∷ xs) e h eq = ground (arith, erase_fresh n xs e h.1 eq, same_fresh n x h.0)

    IsNumbered-suc :
        (n : ℕ) (xs : List (Entry Name)) → All (IsNumbered n) xs → All (IsNumbered (suc n)) xs
    IsNumbered-suc n [] h = tt
    IsNumbered-suc n (x ∷ xs) h = ((h.0.0, omega (arith, h.0.1), h.0.2), IsNumbered-suc n xs h.1)

    IsNumbered-append :
        (n : ℕ) (xs : List (Entry Name)) (e : Entry Name)
        → All (IsNumbered n) xs
        → e.name ≡ conn_name n
        → All (IsNumbered (suc n)) (xs ++ e ∷ [])
    IsNumbered-append n [] e h eq = ((n, omega arith, eq), tt)
    IsNumbered-append n (x ∷ xs) e h eq =
        ((h.0.0, omega (arith, h.0.1), h.0.2), IsNumbered-append n xs e h.1 eq)

    -- While the names in the map are those of numbers already given, and `int` is not exhausted,
    -- and numbers have different names, `register_connection` adds a connection with the next
    -- number and the loop whose turn it is, overwrites none, and keeps it so; removing that one
    -- brings back the map.
    pub register_connection_lem :
        (sock : ℕ) (s : TcpServer Name) (owner : Option ℕ) (pool : LoopThreadPool)
        → All (IsNumbered s.next_conn_id) s.connections_map
        → s.next_conn_id < 2 ^ 31 - 1
        → get_next_loop s.pool ≡ ok (owner, pool)
        → (d : TcpServer Name) × (register_connection conn_name same sock s ≡ ok d)
          × (d.connections_map
              ≡ s.connections_map
                ++ record { name = conn_name s.next_conn_id; owner = owner; socket = sock } ∷ [])
          × (d.pool ≡ pool)
          × All (IsNumbered d.next_conn_id) d.connections_map
          × (remove_connection_in_loop conn_name same (conn_name s.next_conn_id) d
              ≡ ok (record d { connections_map = s.connections_map }))
    unfolding register_connection remove_connection_in_loop
    register_connection_lem sock s owner pool h lt turn =
        let n = s.next_conn_id in
        let e : Entry Name = record { name = conn_name n; owner = owner; socket = sock } in
        (
          record s {
            pool = pool;
            next_conn_id = suc n;
            connections_map = s.connections_map ++ e ∷ [];
          },
          ground (arith, assign_fresh n s.connections_map e h refl),
          refl,
          refl,
          IsNumbered-append n s.connections_map e h refl,
          ground (arith, erase_fresh n s.connections_map e h refl),
        )

  erase_twice :
      (name : Name) (xs : List (Entry Name))
      → erase conn_name same name (erase conn_name same name xs).1
        ≡ (0, (erase conn_name same name xs).1)
  unfolding erase
  erase_twice name [] = refl
  erase_twice name (x ∷ xs) = ground (arith, erase_twice name xs)

  -- After `remove_connection_in_loop` has returned, the same call again fails its `assert`.
  pub remove_connection_twice :
      (name : Name) (s d : TcpServer Name)
      → remove_connection_in_loop conn_name same name s ≡ ok d
      → remove_connection_in_loop conn_name same name d ≡ err aborted
  unfolding remove_connection_in_loop
  remove_connection_twice name s d e = ground (arith, erase_twice name s.connections_map)
