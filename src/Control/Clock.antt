-- ===== src/Control/Clock.antt =====
-- Go's `time.Time` and `time.Duration` as internal/control uses them: a time is its number of
-- nanoseconds, a duration an int64 of nanoseconds.
pub mod Laws
use linker_agent.Prelude.{
  ℕ, ◌+◌, ◌-◌, ◌^◌, min, Bool, true, false, not, ◌==◌, leb, ltb, if◌then◌else◌, ℤ, pos, negsuc,
  leb_ℤ,
}

-- The greatest int64, and what the least one is the negative successor of.
abbrev pub max_i64 : ℕ
max_i64 = 2 ^ 63 - 1

-- `t.Sub(u)`, which stops at the ends of int64.
unfoldable pub time_sub : ℕ → ℕ → ℤ
time_sub t u = if leb u t then pos (min (t - u) max_i64) else negsuc (min (u - t - 1) max_i64)

-- `-d` on int64: the least one is its own negative.
unfoldable pub neg : ℤ → ℤ
neg (pos n) = if n == 0 then pos 0 else negsuc (n - 1)
neg (negsuc n) = if n == max_i64 then negsuc n else pos (n + 1)

-- `d > e`.
unfoldable pub exceeds : ℤ → ℤ → Bool
exceeds d e = not (leb_ℤ d e)

-- The distance of `Verify`: the difference, negated if it is negative.
unfoldable pub time_diff : ℕ → ℕ → ℤ
time_diff now t = let d = time_sub now t in if exceeds (pos 0) d then neg d else d
