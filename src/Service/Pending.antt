-- ===== src/Service/Pending.antt =====
-- event_loop.cc: how many of the functors that wait are about a connection.
use m_server.Prelude.{
  ℕ, zero, suc, ◌+◌, ◌≡◌, List, [], ◌∷◌, ◌++◌, some, ◌==◌, if◌then◌else◌, get_elem?, remove_at,
  arith,
}
use m_server.Service.{Functor, establish, retire, removal}

unfoldable pub total : (Functor → ℕ) → List Functor → ℕ
total weight [] = 0
total weight (f ∷ fs) = weight f + total weight fs

pub total-append :
    (weight : Functor → ℕ) (fs gs : List Functor)
    → total weight (fs ++ gs) ≡ total weight fs + total weight gs
unfolding total
total-append weight [] gs = omega arith
total-append weight (f ∷ fs) gs = omega (arith, total-append weight fs gs)

pub total-remove_at :
    (weight : Functor → ℕ) (j : ℕ) (f : Functor) (fs : List Functor)
    → get_elem? fs j ≡ some f
    → total weight (remove_at j fs) + weight f ≡ total weight fs
unfolding total
total-remove_at weight j f [] e = cc
total-remove_at weight zero f (g ∷ fs) e = ground arith
total-remove_at weight (suc j) f (g ∷ fs) e = omega (arith, total-remove_at weight j f fs e)

-- The functors that remove, or retire, this connection.
abbrev pub removes : ℕ → Functor → ℕ
removes n (removal i) = if i == n then 1 else 0
removes n (retire i) = 0
removes n (establish i) = 0

abbrev pub retires : ℕ → Functor → ℕ
retires n (removal i) = 0
retires n (retire i) = if i == n then 1 else 0
retires n (establish i) = 0

abbrev pub establishes : ℕ → Functor → ℕ
establishes n (removal i) = 0
establishes n (retire i) = 0
establishes n (establish i) = if i == n then 1 else 0
