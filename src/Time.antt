-- ===== src/Time.antt =====
-- `Clock::now` of core/inc/sc-api/core/time.h. The tick and the frequency are what
-- core/src/time.cpp has from the system. Integers are `int64_t` and not negative; an overflow has no
-- result, where C++ leaves the behaviour undefined.
pub mod Exact
mod Tests
use sc_api.Common.{ℕ, ◌+◌, ◌*◌, ◌/◌, ◌%◌, ◌^◌, Option, none, some, ltb, ◌==◌, if◌then◌else◌, ◌>>=◌}

-- `period::den`
abbrev pub den : ℕ
den = 1000000000

-- A product and a sum of `int64_t`.
unfoldable pub mul64 : ℕ → ℕ → Option ℕ
mul64 a b = if ltb (a * b) (2 ^ 63) then some (a * b) else none

unfoldable pub add64 : ℕ → ℕ → Option ℕ
add64 a b = if ltb (a + b) (2 ^ 63) then some (a + b) else none

-- The branches for 24 MHz and for every other frequency have the same expressions.
unfoldable pub split_time : ℕ → ℕ → Option ℕ
split_time freq ticks = mul64 (ticks / freq) den >>= λ whole.
    mul64 (ticks % freq) den >>= λ part. add64 whole (part / freq)

unfoldable pub now : ℕ → ℕ → Option ℕ
now freq ticks =
    if freq == 10000000
    then mul64 ticks (den / 10000000)
    else if freq == 24000000
    then split_time 24000000 ticks
    else split_time freq ticks
