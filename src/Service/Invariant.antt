-- ===== src/Service/Invariant.antt =====
-- tcp_server.cc and tcp_connection.cc: how a server, its connections and the functors that wait agree.
use m_server.Prelude.{ℕ, suc, ◌<◌, ◌≡◌, ◌≢◌, refl, Bool, true, false, ◌⊎◌, inl, inr, arith}
use m_server.Connection.{Connection}
use m_server.Connection.Closing.{Closed, Shut}
use m_server.Server.Live.{Live, Shows, has}
use m_server.Service.{Service}
use m_server.Service.Pending.{total, removes, retires}

-- A connection that is not closed: no functor is about its end, and once it was made it is live. `a`
-- functors remove it and `b` retire it, `h` says whether it is live.
pub record IsOpen (c : Connection) (a b : ℕ) (h : Bool) (next n : ℕ) : Type 0 where
  pub opened : Closed 0 c
  pub not_removed : a ≡ 0
  pub not_retired : b ≡ 0
  pub live : 0 < n → n < next → h ≡ true

-- A connection that was closed, once: it is live until its one removal has run.
pub record IsClosing (c : Connection) (a : ℕ) (h : Bool) (next n : ℕ) : Type 0 where
  pub shut : Shut c
  pub made_before : n < next
  pub leaving : ((a ≡ 1) × (h ≡ true)) ⊎ ((a ≡ 0) × (h ≡ false))

abbrev pub Stage : Connection → ℕ → ℕ → Bool → ℕ → ℕ → Type 0
Stage c a b h next n = IsOpen c a b h next n ⊎ IsClosing c a h next n

pub Stage-of :
    {c d : Connection} {a₁ a₂ b₁ b₂ : ℕ} {h₁ h₂ : Bool} {next n : ℕ}
    → d ≡ c
    → a₂ ≡ a₁
    → b₂ ≡ b₁
    → h₂ ≡ h₁
    → Stage c a₁ b₁ h₁ next n
    → Stage d a₂ b₂ h₂ next n
Stage-of o a b h s = rw (o, a, b, h) s

-- Another connection was made.
pub Stage-later :
    {c : Connection} {a b : ℕ} {h : Bool} {next n : ℕ}
    → n ≢ next
    → Stage c a b h next n
    → Stage c a b h (suc next) n
Stage-later ne (inl s) = inl (record {
  opened = s.opened;
  not_removed = s.not_removed;
  not_retired = s.not_retired;
  live = λ p q. s.live p (omega arith);
})
Stage-later ne (inr s) =
    inr (record { shut = s.shut; made_before = omega (arith, s.made_before); leaving = s.leaving })

-- This one was made.
pub Stage-made :
    {c d : Connection} {a b : ℕ} {h : Bool} {next : ℕ}
    → Closed 0 d
    → Stage c a b h next next
    → Stage d a b true (suc next) next
Stage-made fresh (inl s) = inl (record {
  opened = fresh;
  not_removed = s.not_removed;
  not_retired = s.not_retired;
  live = λ p q. refl;
})
Stage-made fresh (inr s) = absurd (omega (arith, s.made_before))

-- It changed, and was not closed.
pub Stage-open :
    {c d : Connection} {a b : ℕ} {h : Bool} {next n : ℕ}
    → Closed 0 d
    → IsOpen c a b h next n
    → Stage d a b h next n
Stage-open opened s = inl (record {
  opened = opened;
  not_removed = s.not_removed;
  not_retired = s.not_retired;
  live = s.live;
})

-- A retired one.
pub Stage-retired :
    {c d : Connection} {a b : ℕ} {h : Bool} {next n : ℕ}
    → Shut d
    → IsClosing c a h next n
    → Stage d a b h next n
Stage-retired shut s =
    inr (record { shut = shut; made_before = s.made_before; leaving = s.leaving })

module _ {ℓ} {Name : Type ℓ} where
  abbrev pub removals : ℕ → Service Name → ℕ
  removals n w = total (removes n) w.pending

  abbrev pub retirements : ℕ → Service Name → ℕ
  retirements n w = total (retires n) w.pending

  abbrev pub StageAt : Service Name → Live → ℕ → Type 0
  StageAt w l n = Stage (w.objects n) (removals n w) (retirements n w) (has n l.numbers) l.next n

  -- The map holds the connections of these numbers, and each connection is at a stage.
  pub record Inv (conn_name : ℕ → Name) (w : Service Name) (l : Live) : Type ℓ where
    pub shows : Shows conn_name w.server l
    pub stage : (n : ℕ) → StageAt w l n

  -- So it is for the connections that are live.
  abbrev pub Good : (ℕ → Name) → Service Name → Type ℓ
  Good conn_name w = (l : Live) × Inv conn_name w l
