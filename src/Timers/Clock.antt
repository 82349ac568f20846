-- ===== src/Timers/Clock.antt =====
-- clock.hh and clock.cc. A `time_point` is its count of nanoseconds since the epoch of the steady
-- clock (the start of the machine), a number; a difference of two is an integer.
pub mod Parse
pub mod Shown
use m_server.Prelude.{ℕ, ◌*◌, ◌/◌, ◌%◌, suc}
use m_server.Prelude.Int.{ℤ, pos, negsuc, neg, sub_ℕ, sub_ℤ}

-- 1e9 and 1e6.
abbrev pub second : ℕ
second = 1000000000

abbrev pub millisecond : ℕ
millisecond = 1000000

-- `a - b` of two time points.
abbrev pub difference : ℕ → ℕ → ℤ
difference a b = sub_ℕ a b

-- Both results are cut towards zero. The code divides in `double` and keeps the seconds in an `int`:
-- this is the function for the counts below 2 ^ 53 (104 days) alone, for which the quotient of the
-- `double`s, cut to an `int`, is that of the numbers.
unfoldable pub parse_time_duration : ℤ → ℤ × ℤ
parse_time_duration (pos n) = (pos (n / second), pos (n % second))
parse_time_duration (negsuc n) = (neg (suc n / second), neg (suc n % second))

-- For the delays that are not negative.
unfoldable pub get_duration_from_ms : ℕ → ℕ
get_duration_from_ms milliseconds = milliseconds * millisecond

-- The time on the system clock reads `sys_now`, on the steady clock `now`, both in nanoseconds;
-- `to_time_t` and `ctime` are of the C++ library.
module _ {ℓ κ} {Time : Type ℓ} {Text : Type κ} (to_time_t : ℤ → Time) (ctime : Time → Text) where
  unfoldable pub time_point_to_str : ℕ → ℕ → ℕ → Text
  time_point_to_str sys_now now tp = ctime (to_time_t (sub_ℤ sys_now (difference tp now)))
