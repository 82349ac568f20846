-- ===== src/Tests/Latches.antt =====
-- Runs of the latch of src/base/source/latch.cc.
use m_server.Prelude.{◌≡◌, refl}
use m_server.Prelude.Int.{pos}
use m_server.Latch.{Latch, new, test, count_down, pred, Reach, here, next, waits, counts_down}
use m_server.Latch.Waiting.{test_all, wait_returns}

-- A count of 2: a thread waits, one counts down, another waits.
abbrev half : Latch
half = record { count = pos 1; asleep = 2; awake = 0; passed = 0; downs = 1 }

half-Reach : Reach (new 2) half
unfolding test count_down pred
half-Reach = next (next (next here waits) counts_down) waits

-- Then one more counts down.
abbrev opened : Latch
opened = record { count = pos 0; asleep = 0; awake = 2; passed = 0; downs = 2 }

opened-Reach : Reach (new 2) opened
unfolding test count_down pred
opened-Reach = next half-Reach counts_down

wait_returns_example :
    let t = test_all opened.awake opened in
    Reach (new 2) t × (opened.asleep ≡ 0) × (t.asleep ≡ 0) × (t.awake ≡ 0) × (t.passed ≡ 2)
wait_returns_example = wait_returns opened-Reach refl
