-- ===== src/Service/Ends.antt =====
-- tcp_server.cc with its connections: what becomes of a connection that was closed.
use m_server.Prelude.{
  ℕ, ◌<◌, ◌≡◌, refl, ap, ◌∙◌, List, [], ◌∷◌, some, Bool, true, false, ◌==◌, ==_iff, inl, inr,
  get_elem?, Bool-cases, ok, arith,
}
use m_server.Buffer.{Buffer}
use m_server.Connection.Closing.{Closed}
use m_server.Server.Connections.{Naming}
use m_server.Server.Live.{Live, Shows, has, remove, after, accept, close}
use m_server.Server.Live
use m_server.Service.{removal, Service}
use m_server.Service.Pending.{total, removes}
use m_server.Service.Invariant.{Good}
use m_server.Prelude.{map, ◌||◌, ◌↔◌}
use m_server.Server.{Entry}
use m_server.Server.Live.Runs.{name_ne, name_eq}
use m_server.Server.Live.{names}
use m_server.Service.{Event, run_at, run}
use m_server.Service.Functors.{removal_returns}
use m_server.Service.Runs.{Allowed, run-Good}

-- After the constructor of a server whose pool has these loops, nothing is pending.
abbrev pub IsStart {ℓ} : {Name : Type ℓ} → Service Name → Type ℓ
IsStart w =
    (w.server.connections_map ≡ [])
    × ((w.server.next_conn_id ≡ 1)
        × ((w.pending ≡ [])
            × (Live.IsPool w.server.pool × (((n : ℕ) → Closed 0 (w.objects n)) × (w.posts ≡ [])))))

-- Whether the map has an entry with this name.
abbrev pub holds {ℓ} : {Name : Type ℓ} → (Name → Name → Bool) → Name → List (Entry Name) → Bool
holds same name [] = false
holds same name (x ∷ xs) = same x.name name || holds same name xs

holds-has {ℓ} :
    {Name : Type ℓ} (conn_name : ℕ → Name) (same : Name → Name → Bool)
    → Naming conn_name same
    → (n : ℕ) (js : List ℕ) (xs : List (Entry Name)) → names xs ≡ map conn_name js
    → holds same (conn_name n) xs ≡ has n js
holds-has conn_name same naming n [] [] e = refl
holds-has conn_name same naming n [] (x ∷ xs) e = absurd (ground arith)
holds-has conn_name same naming n (j ∷ js) [] e = absurd (ground arith)
holds-has conn_name same naming n (j ∷ js) (x ∷ xs) e =
    let both : (x.name ≡ conn_name j) × (names xs ≡ map conn_name js) = (cc, cc) in
    let rest = holds-has conn_name same naming n js xs both.1 in
    elim (Bool-cases (j == n)) [
      | inl f ↦ rw f (rw (name_eq conn_name same naming x n j both.0 ((==_iff j n).0 f)) refl)
      | inr f ↦ rw f (rw (name_ne conn_name same naming x n j both.0 (λ k. ground arith)) rest)
    ]

module _ {ℓ} {Name : Type ℓ} (conn_name : ℕ → Name) (same : Name → Name → Bool)
    (connection_cb message_cb : Bool) (buffer : Buffer) (naming : Naming conn_name same) where
  pub start-Good : (w : Service Name) → IsStart w → Good conn_name w
  unfolding total
  start-Good w (empty, (first, (none_left, (pool, (opened, no_posts))))) = (
    record { numbers = []; next = 1 },
    record {
      shows = record {
        held = rw empty refl;
        below = tt;
        distinct = tt;
        next_is = first;
        pool = pool;
      };
      stage = λ n. inl (record {
        opened = opened n;
        not_removed = rw none_left refl;
        not_retired = rw none_left refl;
        live = λ p q. absurd (omega (arith, p, q));
      });
    },
  )

  -- When no functor is pending, the map holds the connections that are not closed.
  pub holds-Closed :
      (d : Service Name)
      → Good conn_name d
      → (n : ℕ) → 0 < n
      → n < d.server.next_conn_id
      → d.pending ≡ []
      → (holds same (conn_name n) d.server.connections_map ≡ true) ↔ Closed 0 (d.objects n)
  unfolding total
  holds-Closed d good n pos lt none_left =
      let (l, inv) = good in
      let same_as =
        holds-has conn_name same naming n l.numbers d.server.connections_map inv.shows.held in
      elim (inv.stage n) [
        | inl s ↦
            let live : has n l.numbers ≡ true = s.live pos (omega (arith, lt, inv.shows.next_is)) in
            (λ h. s.opened, λ h. same_as ∙ live)
        | inr s ↦
            let gone : has n l.numbers ≡ false = elim s.leaving [
              | inl p ↦ absurd (ground (arith, p.0, ap (total (removes n)) none_left))
              | inr p ↦ p.1
            ] in
            (
              λ h. absurd (ground (arith, h, same_as, gone)),
              λ h. absurd (omega (arith, h, s.shut.once)),
            )
      ]

  module _ (es : List Event) (w d : Service Name) (starts : IsStart w)
      (allowed : Allowed conn_name same connection_cb message_cb buffer es w)
      (ran : run conn_name same connection_cb message_cb buffer es w ≡ ok d) where
    reached : Good conn_name d
    reached =
        run-Good conn_name same connection_cb message_cb buffer naming es w d (start-Good w starts)
          allowed ran

    -- After every run of a new server and its connections, in whatever order its events came (as
    -- for `run-Good`), the functor that removes a connection, whenever its loop runs it, returns:
    -- it finds the connection in the map, and the `assert` holds.
    pub run_at-removal :
        (i j : ℕ)
        → get_elem? d.pending j ≡ some (removal i)
        → (d' : Service Name) × (run_at conn_name same connection_cb message_cb buffer j d ≡ ok d')
    unfolding run_at
    run_at-removal i j e =
        let (l, inv) = reached in
        let (d', f, good) =
          removal_returns conn_name same connection_cb message_cb buffer naming j d l inv i e in
        (d', rw (e, run_at) f)

    -- After every run of a new server and its connections, in whatever order its events came (as
    -- for `run-Good`), when no functor is pending the map holds, of the connections that were made,
    -- exactly those that are not closed.
    pub drained :
        (n : ℕ)
        → 0 < n
        → n < d.server.next_conn_id
        → d.pending ≡ []
        → (holds same (conn_name n) d.server.connections_map ≡ true) ↔ Closed 0 (d.objects n)
    drained n pos lt none_left = holds-Closed d reached n pos lt none_left
