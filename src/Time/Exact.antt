-- ===== src/Time/Exact.antt =====
-- What `Clock::now` (core/inc/sc-api/core/time.h) computes, for every frequency.
use native.Mathlib.Nat.{mul-add-div, div-add-mod, mod-lt}
use sc_api.Common.{
  ℕ, ◌+◌, ◌*◌, ◌/◌, ◌%◌, ◌^◌, ◌≤◌, ◌<◌, ◌≡◌, refl, sym, ◌∙◌, ap, some, ◌==◌, arith, lt→ltb, ==_iff,
  Bool-cases, inl, inr,
}
use sc_api.Time.{den, mul64, add64, split_time, now}

-- `whole + part` is the time rounded down.
split-exact :
    (freq ticks : ℕ)
    → 0 < freq
    → (ticks / freq) * den + (ticks % freq) * den / freq ≡ ticks * den / freq
split-exact freq ticks h =
    let q : ℕ = ticks / freq in
    let r : ℕ = ticks % freq in
    let whole : freq * q + r ≡ ticks = div-add-mod ticks freq in
    let e : ticks * den ≡ freq * (q * den) + r * den = ring_step q r freq ticks whole in
    sym (ap (λ n. n / freq) e ∙ mul-add-div h (q * den) (r * den))
  where
    ring_step : (q r f t : ℕ) → f * q + r ≡ t → t * den ≡ f * (q * den) + r * den
    ring_step q r f t w = omega (arith, w)

mul64-some : (a b : ℕ) → a * b < 2 ^ 63 → mul64 a b ≡ some (a * b)
unfolding mul64
mul64-some a b h = rw (lt→ltb (a * b) (2 ^ 63) h) refl

add64-some : (a b : ℕ) → a + b < 2 ^ 63 → add64 a b ≡ some (a + b)
unfolding add64
add64-some a b h = rw (lt→ltb (a + b) (2 ^ 63) h) refl

split_time-exact :
    (freq ticks : ℕ)
    → 0 < freq
    → freq ≤ 9000000000
    → ticks * den / freq < 2 ^ 63
    → split_time freq ticks ≡ some (ticks * den / freq)
unfolding split_time
split_time-exact freq ticks a b c =
    let e = split-exact freq ticks a in
    let m : ticks % freq < freq = mod-lt ticks a in
    rw
      (
        mul64-some (ticks / freq) den (omega (arith, e)),
        mul64-some (ticks % freq) den (omega (arith, m)),
      )
      (add64-some ((ticks / freq) * den) ((ticks % freq) * den / freq) (omega (arith, e))
        ∙ ap some e)

-- With a frequency up to 9 GHz and ticks whose time fits 63 bits, no step overflows, and the time is
-- that of the ticks in nanoseconds, rounded down, in the short cut for 10 MHz as well.
pub now-exact :
    (freq ticks : ℕ)
    → 0 < freq
    → freq ≤ 9000000000
    → ticks * den / freq < 2 ^ 63
    → now freq ticks ≡ some (ticks * den / freq)
unfolding now
now-exact freq ticks a b c = elim (Bool-cases (freq == 10000000)) [
  | inl e ↦
      let q : freq ≡ 10000000 = (==_iff freq 10000000).0 e in
      let c' : ticks * den / 10000000 < 2 ^ 63 = rw q at c in
      rw q (mul64-some ticks 100 (omega (arith, c')) ∙ ap some (omega arith))
  | inr e ↦ elim (Bool-cases (freq == 24000000)) [
    | inl f ↦
        let q : freq ≡ 24000000 = (==_iff freq 24000000).0 f in
        rw (e, f) (ap (λ n. split_time n ticks) (sym q) ∙ split_time-exact freq ticks a b c)
    | inr f ↦ rw (e, f) (split_time-exact freq ticks a b c)
  ]
]
