-- ===== src/Prelude/Update.antt =====
-- Functions of a number, changed at one argument.
use Prim.Native.Nat.{ℕ}
use mathlib.Core.Path.{◌≡◌, refl}
use mathlib.Core.Bool.{false}
use m_server.Prelude.Order.{◌==◌, ==_iff, if◌then◌else◌}

module _ {ℓ} {A : Type ℓ} where
  abbrev pub update : ℕ → A → (ℕ → A) → ℕ → A
  update i a f j = if j == i then a else f j

  pub update_same : (i : ℕ) (a : A) (f : ℕ → A) → update i a f i ≡ a
  update_same i a f = rw ((==_iff i i).1 refl) refl

  pub update_other : (i j : ℕ) (a : A) (f : ℕ → A) → (j == i) ≡ false → update i a f j ≡ f j
  update_other i j a f e = rw e refl
