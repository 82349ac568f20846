-- ===== src/Timers/Clock/Shown.antt =====
-- clock.cc: which time is printed for a time point.
use m_server.Prelude.{ℕ, ◌+◌, ◌-◌, ◌≤◌, ◌≡◌, arith}
use m_server.Prelude.Int.{ℤ, pos}
use m_server.Timers.Clock.{time_point_to_str}

module _ {ℓ κ} {Time : Type ℓ} {Text : Type κ} (to_time_t : ℤ → Time) (ctime : Time → Text)
    (sys_now now : ℕ) where
  -- A time point of the past is printed as a time that is as long after now.
  pub time_point_to_str-past :
      (d tp : ℕ)
      → tp + d ≡ now
      → time_point_to_str to_time_t ctime sys_now now tp ≡ ctime (to_time_t (pos (sys_now + d)))
  unfolding time_point_to_str
  time_point_to_str-past d tp e = ground arith

  -- A time point of the future is printed as a time that is as long before now.
  pub time_point_to_str-future :
      (d tp : ℕ)
      → now + d ≡ tp
      → d ≤ sys_now
      → time_point_to_str to_time_t ctime sys_now now tp ≡ ctime (to_time_t (pos (sys_now - d)))
  unfolding time_point_to_str
  time_point_to_str-future d tp e h = ground arith
