-- ===== src/Socket/Counts.antt =====
-- socket.cc: how often a descriptor is in a list.
use m_server.Prelude.{
  ℕ, suc, ◌+◌, ◌-◌, ◌≡◌, refl, List, [], ◌∷◌, ◌++◌, Option, none, some, ◌==◌, if◌then◌else◌, arith,
}
use m_server.Socket.{owned_by}

unfoldable pub count : ℕ → List ℕ → ℕ
count n [] = 0
count n (x ∷ xs) = if x == n then suc (count n xs) else count n xs

pub count-append : (n : ℕ) (xs ys : List ℕ) → count n (xs ++ ys) ≡ count n xs + count n ys
unfolding count
count-append n [] ys = omega arith
count-append n (x ∷ xs) ys = ground (arith, count-append n xs ys)

-- `::close`: the table without this descriptor.
pub close : ℕ → List ℕ → List ℕ
close fd [] = []
close fd (x ∷ xs) = if x == fd then xs else x ∷ close fd xs

pub close_all : List ℕ → List ℕ → List ℕ
close_all [] opened = opened
close_all (fd ∷ fds) opened = close_all fds (close fd opened)

pub count-close :
    (n fd : ℕ) (xs : List ℕ)
    → count n (close fd xs) ≡ (if fd == n then count n xs - 1 else count n xs)
unfolding count close
count-close n fd [] = ground arith
count-close n fd (x ∷ xs) = ground (arith, count-close n fd xs)

pub count-close_all :
    (n : ℕ) (o : Option ℕ) (xs : List ℕ)
    → count n (close_all (owned_by o) xs) ≡ count n xs - count n (owned_by o)
unfolding close_all count
count-close_all n none xs = omega arith
count-close_all n (some fd) xs = ground (arith, count-close n fd xs)

pub count_at : (m n : ℕ) (xs : List ℕ) → m ≡ n → count m xs ≡ 0 → count n xs ≡ 0
count_at m n xs e h = rw (← e) h

pub count_none : (xs : List ℕ) → ((n : ℕ) → count n xs ≡ 0) → xs ≡ []
unfolding count
count_none [] h = refl
count_none (x ∷ xs) h = absurd (ground (arith, h x))
