-- ===== src/Server/Live.antt =====
-- tcp_server.cc: the connections of a server against the set of the numbers of those that are live.
pub mod Numbers
pub mod Runs
use m_server.Prelude.{
  ℕ, suc, ◌+◌, ◌-◌, ◌^◌, ◌<◌, ◌≡◌, ◌≢◌, refl, sym, ap, ap₂, ◌∙◌, List, [], ◌∷◌, ◌++◌, map, Option,
  none, some, Bool, true, false, ◌||◌, ◌⊎◌, inl, inr, Bool-cases, All, if◌then◌else◌, ◌==◌, length,
  get_elem?-of_lt, Result, ok, ◌>>=◌, arith, leb, ==_iff,
}
use mathlib.Core.List.{map-append}
use m_server.Server.Pool.{LoopThreadPool, get_next_loop}
use m_server.Server.{Entry, TcpServer, erase, register_connection, remove_connection_in_loop}
use m_server.Server.Connections.{Naming, IsNumbered, assign_fresh, same_self, same_ne}

-- The next index is that of a loop, or there are none.
abbrev pub IsPool : LoopThreadPool → Type 0
IsPool p = (p.loops ≡ []) ⊎ (p.next_thread_idx < length p.loops)

pub get_next_loop_returns :
    (p : LoopThreadPool)
    → IsPool p
    → (owner : Option ℕ) × (q : LoopThreadPool) × (get_next_loop p ≡ ok (owner, q)) × IsPool q
unfolding get_next_loop
get_next_loop_returns p (inl e) = (none, p, ground arith, inl e)
get_next_loop_returns p (inr lt) =
    let (l, at) = get_elem?-of_lt p.loops p.next_thread_idx lt in
    let next = p.next_thread_idx + 1 in
    (
      some l,
      record p { next_thread_idx = if leb (length p.loops) next then 0 else next },
      ground (arith, at),
      inr (ground arith),
    )

-- What happens to a server: a socket is accepted, the connection of this number is closed.
pub data Op : Type 0 where
  accept : ℕ → Op
  close : ℕ → Op

-- The numbers of the live connections, and the next one.
pub record Live : Type 0 where
  pub numbers : List ℕ
  pub next : ℕ

abbrev pub remove : ℕ → List ℕ → List ℕ
remove i [] = []
remove i (j ∷ js) = if j == i then js else j ∷ remove i js

abbrev pub has : ℕ → List ℕ → Bool
has i [] = false
has i (j ∷ js) = j == i || has i js

-- The specification.
abbrev pub after : Op → Live → Live
after (accept sock) l = record { numbers = l.numbers ++ l.next ∷ []; next = suc l.next }
after (close i) l = record l { numbers = remove i l.numbers }

unfoldable pub spec : List Op → Live → Live
spec [] l = l
spec (op ∷ ops) l = spec ops (after op l)

-- A connection that is closed is live, and the `int` of the numbers is not exhausted.
abbrev pub Possible : Op → Live → Type 0
Possible (accept sock) l = l.next < 2 ^ 31 - 1
Possible (close i) l = has i l.numbers ≡ true

abbrev pub Fits : List Op → Live → Type 0
Fits [] l = Unit
Fits (op ∷ ops) l = Possible op l × Fits ops (after op l)

abbrev pub Distinct : List ℕ → Type 0
Distinct [] = Unit
Distinct (j ∷ js) = (has j js ≡ false) × Distinct js

module _ {ℓ} {Name : Type ℓ} where
  abbrev pub names : List (Entry Name) → List Name
  names = map (λ e. e.name)

  -- The map holds the connections with these numbers.
  pub record Shows (conn_name : ℕ → Name) (s : TcpServer Name) (l : Live) : Type ℓ where
    pub held : names s.connections_map ≡ map conn_name l.numbers
    pub below : All (λ j. j < l.next) l.numbers
    pub distinct : Distinct l.numbers
    pub next_is : s.next_conn_id ≡ l.next
    pub pool : IsPool s.pool

  module _ (conn_name : ℕ → Name) (same : Name → Name → Bool) where
    unfoldable pub step : Op → TcpServer Name → Result (TcpServer Name)
    step (accept sock) s = register_connection conn_name same sock s
    step (close i) s = remove_connection_in_loop conn_name same (conn_name i) s

    unfoldable pub run : List Op → TcpServer Name → Result (TcpServer Name)
    run [] s = ok s
    run (op ∷ ops) s = step op s >>= run ops
