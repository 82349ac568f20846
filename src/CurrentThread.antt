-- ===== src/CurrentThread.antt =====
-- src/base/source/current_thread.cc: the id of the thread that asks, kept in a variable of each
-- thread. A thread is a number, and `gettid` is what the kernel answers it.
use m_server.Prelude.{ℕ, ◌≡◌, ◌<◌, ◌%◌, ◌^◌, ◌==◌, ==_iff, ◌⊎◌, if◌then◌else◌, update, arith}

-- `chached_tid__` of every thread; 0 where it was never set.
abbrev pub Cache : Type 0
Cache = ℕ → ℕ

-- What is known of `gettid` in so many threads: ids are positive, fit an `int`, and belong to one
-- thread each.
pub record KernelLaws (threads : ℕ) (gettid : ℕ → ℕ) : Type 0 where
  pub positive : (t : ℕ) → t < threads → 0 < gettid t
  pub fits : (t : ℕ) → t < threads → gettid t < 2 ^ 31
  pub injective : (t u : ℕ) → t < threads → u < threads → gettid t ≡ gettid u → t ≡ u

-- A variable is not set, or holds the id of its thread.
abbrev pub IsCache : ℕ → (ℕ → ℕ) → Cache → Type 0
IsCache threads gettid c = (t : ℕ) → t < threads → (c t ≡ 0) ⊎ (c t ≡ gettid t)

module _ (gettid : ℕ → ℕ) where
  -- `static_cast<int>` keeps the low 32 bits.
  unfoldable pub tid : ℕ → Cache → ℕ × Cache
  tid t c = let id = gettid t % 2 ^ 32 in if c t == 0 then (id, update t id c) else (c t, c)

  module _ {threads : ℕ} (laws : KernelLaws threads gettid) (t : ℕ) (c : Cache) (lt : t < threads)
      (cached : IsCache threads gettid c) where
    -- The answer is that of the kernel.
    pub tid_lem : (tid t c).0 ≡ gettid t
    unfolding tid
    tid_lem = ground (arith, laws.positive t lt, laws.fits t lt, cached t lt)

    pub tid-IsCache : IsCache threads gettid (tid t c).1
    unfolding tid
    tid-IsCache u lu = ground (arith, laws.fits t lt, cached u lu, ==_iff u t)
