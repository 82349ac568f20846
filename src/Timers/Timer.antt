-- ===== src/Timers/Timer.antt =====
-- timer.hh and timer.cc.
use m_server.Prelude.{ℕ, ◌+◌, Bool, ltb, if◌then◌else◌}

-- The callback is opaque, and named by a number; `sequence` stands for the address of the timer too.
pub record Timer : Type 0 where
  pub callback : ℕ
  pub interval : ℕ
  pub expiration : ℕ
  pub reapeat : Bool
  pub sequence : ℕ

-- The constructor, given how many timers were made before, `s_num_created_`.
unfoldable pub new : ℕ → ℕ → ℕ → ℕ → Timer
new num_created cb at interval = record {
  callback = cb;
  interval = interval;
  expiration = at;
  reapeat = ltb 0 interval;
  sequence = num_created + 1;
}

unfoldable pub restart : ℕ → Timer → Timer
restart now t = if t.reapeat then record t { expiration = now + t.interval } else t
