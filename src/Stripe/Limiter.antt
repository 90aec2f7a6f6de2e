-- ===== src/Stripe/Limiter.antt =====
-- internal/connectors/stripe/stripe.go: the token bucket in front of Stripe's API.
pub mod Laws
use linker_agent.Prelude.{
  ℕ, suc, ◌+◌, ◌-◌, Bool, true, false, List, [], ◌∷◌, if◌then◌else◌, ltb, ℤ, is_nonpos,
}

-- Times are readings of the monotonic clock, in nanoseconds.
pub record Limiter : Type 0 where
  pub max_rps : ℕ
  pub tokens : ℕ
  pub last_fill : ℕ

unfoldable pub new_limiter : (max_rps now : ℕ) → Limiter
new_limiter max_rps now = record { max_rps = max_rps; tokens = max_rps; last_fill = now }

pub data Acquired : Type 0 where
  granted canceled waiting : Acquired

-- `to_add elapsed max_rps` is `int(elapsed.Seconds() * float64(maxRPS))`.
module _ (to_add : ℕ → ℕ → ℕ) where
  unfoldable pub refill : Limiter → (now : ℕ) → Limiter
  refill l now =
      let more = to_add (now - l.last_fill) l.max_rps in
      if ltb 0 more
      then record l {
        tokens = if ltb l.max_rps (l.tokens + more) then l.max_rps else l.tokens + more;
        last_fill = now;
      }
      else l

  -- One pass of the loop, under the mutex: whether it took a token.
  unfoldable pub pass : Limiter → (now : ℕ) → Limiter × Bool
  pass l now =
      let l' = refill l now in
      if ltb 0 l'.tokens then (record l' { tokens = l'.tokens - 1 }, true) else (l', false)

  -- The loop over the times of its passes, each with whether the context is canceled in the wait after it.
  unfoldable pub acquire : Limiter → List (ℕ × Bool) → Limiter × Acquired
  acquire l [] = (l, waiting)
  acquire l ((now, stops) ∷ rest) =
      let (l', took) = pass l now in
      elim took [
        | true ↦ (l', granted)
        | false ↦ elim stops [ true ↦ (l', canceled) | false ↦ acquire l' rest ]
      ]

  -- Passes of any callers, one after the other: the tokens taken.
  unfoldable pub passes : Limiter → List ℕ → Limiter × ℕ
  passes l [] = (l, 0)
  passes l (now ∷ times) =
      let (l', took) = pass l now in
      let (l'', n) = passes l' times in (l'', (if took then suc n else n))
