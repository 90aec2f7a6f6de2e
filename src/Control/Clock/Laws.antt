-- ===== src/Control/Clock/Laws.antt =====
-- The window and the age of a timestamp as bounds on natural numbers.
use linker_agent.Prelude.{ℕ, ◌+◌, ◌^◌, ◌≤◌, ◌<◌, ◌≡◌, ◌↔◌, ◌⊎◌, true, false, pos, arith}
use linker_agent.Control.Clock.{max_i64, time_sub, neg, exceeds, time_diff}

-- A timestamp is older than a duration of at least zero exactly when it lies so far in the past; at
-- the greatest duration nothing is older.
pub exceeds-time_sub_iff :
    (now t ttl : ℕ)
    → (exceeds (time_sub now t) (pos ttl) ≡ true) ↔ ((t + ttl < now) × (ttl < max_i64))
unfolding exceeds time_sub
exceeds-time_sub_iff now t ttl = ground arith

-- For a window that is at least zero and below the greatest duration, a timestamp is inside it
-- exactly when it is no further from the present than the window, or when it lies 2 ^ 63
-- nanoseconds or more in the future.
pub time_diff_iff :
    (now t skew : ℕ)
    → skew < max_i64
    → (exceeds (time_diff now t) (pos skew) ≡ false)
      ↔ (((now ≤ t + skew) × (t ≤ now + skew)) ⊎ (now + 2 ^ 63 ≤ t))
unfolding exceeds time_diff time_sub neg
time_diff_iff now t skew h = ground arith
