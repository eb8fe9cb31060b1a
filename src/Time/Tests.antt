-- ===== src/Time/Tests.antt =====
-- Runs of `Clock::now` (core/inc/sc-api/core/time.h), and the example of its theorem.
use sc_api.Common.{◌*◌, ◌/◌, ◌≡◌, refl, some, arith}
use sc_api.Time.{den, now, split_time, mul64, add64}
use sc_api.Time.Exact.{now-exact}

now-exact_example : now 24000000 100 ≡ some (100 * den / 24000000)
now-exact_example = now-exact 24000000 100 (omega arith) (omega arith) (omega arith)

-- The short cut.
runs_fast : now 10000000 12345 ≡ some 1234500
unfolding now mul64
runs_fast = refl

-- Elsewhere than on Windows the frequency is 1 and the tick 0.
runs_still : now 1 0 ≡ some 0
unfolding now split_time mul64 add64
runs_still = refl
