-- ===== src/Timers/Clock/Parse.antt =====
-- clock.cc: the seconds and nanoseconds of a difference of two time points.
use m_server.Prelude.{ℕ, suc, refl, ◌+◌, ◌-◌, ◌*◌, ◌/◌, ◌%◌, ◌≤◌, ◌<◌, ◌≡◌, arith}
use m_server.Prelude.Int.{pos, negsuc, neg}
use m_server.Timers.Clock.{second, difference, parse_time_duration}

-- The two parts of a difference that is not negative.
pub parse-parts :
    (a b : ℕ)
    → b ≤ a
    → (s n : ℕ) × (parse_time_duration (difference a b) ≡ (pos s, pos n))
      × (b + s * second + n ≡ a)
      × (n < second)
unfolding parse_time_duration
parse-parts a b h = ((a - b) / second, (a - b) % second, ground arith, omega arith, omega arith)

difference-negsuc : (a b : ℕ) → a < b → difference a b ≡ negsuc (b - a - 1)
difference-negsuc a b h = ground arith

parse-negsuc :
    (n d : ℕ) → suc n ≡ d → parse_time_duration (negsuc n) ≡ (neg (d / second), neg (d % second))
unfolding parse_time_duration
parse-negsuc n d e = rw e refl

-- So do those of a difference that is negative, both parts with their sign.
pub parse-difference_late :
    (a b : ℕ)
    → a < b
    → (s n : ℕ) × (parse_time_duration (difference a b) ≡ (neg s, neg n))
      × (a + s * second + n ≡ b)
      × (n < second)
parse-difference_late a b h = (
  (b - a) / second,
  (b - a) % second,
  rw (difference-negsuc a b h) (parse-negsuc (b - a - 1) (b - a) (omega arith)),
  omega arith,
  omega arith,
)
