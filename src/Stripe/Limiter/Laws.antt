-- ===== src/Stripe/Limiter/Laws.antt =====
-- How many tokens the bucket gives out, and that it does give them out.
use native.Mathlib.Nat.{add-mul}
use linker_agent.Prelude.{
  ℕ, ◌+◌, ◌-◌, ◌*◌, ◌^◌, ◌≤◌, ◌<◌, ◌≡◌, refl, ap, ◌∙◌, subst, inl, inr, Bool, true, false, List, [],
  ◌∷◌, ◌++◌, map, if◌then◌else◌, ltb, Bool-cases, arith,
}
use linker_agent.Stripe.Limiter.{Limiter, new_limiter, refill, pass, granted, acquire, passes}

-- The times do not fall, from one time to another.
abbrev pub IsRising : ℕ → List ℕ → ℕ → Type 0
IsRising low [] high = low ≤ high
IsRising low (t ∷ ts) high = (low ≤ t) × IsRising t ts high

-- The conversion goes through `float64`: the seconds and the rate are rounded, the nanoseconds are divided, added and
-- multiplied with a rounding each, and the result is cut off. Every rounding adds at most one part in 2^53, so that
-- together they add less than one in 2^50.
abbrev pub a_token : ℕ
a_token = 1000000000 * 2 ^ 50

abbrev pub with_rounding : ℕ → ℕ
with_rounding max_rps = max_rps * (2 ^ 50 + 1)

-- No more than a second's share for each second but for the rounding, and at least one once a whole share has run up.
abbrev pub AtMostShare : (ℕ → ℕ → ℕ) → Type 0
AtMostShare to_add = (e r : ℕ) → to_add e r * a_token ≤ e * with_rounding r

abbrev pub FromOneShare : (ℕ → ℕ → ℕ) → Type 0
FromOneShare to_add = (e r : ℕ) → 1000000000 ≤ e * r → 0 < to_add e r

share-split : (a b c r : ℕ) → a ≤ b → b ≤ c → (c - a) * r ≡ (c - b) * r + (b - a) * r
share-split a b c r ab bc = ap (λ (x : ℕ). x * r) (omega arith) ∙ add-mul (c - b) (b - a) r

module _ (to_add : ℕ → ℕ → ℕ) where
  -- What a step from a bucket to another may have given out.
  abbrev Spends : Limiter → ℕ → ℕ → Limiter → Type 0
  Spends l now n l' =
      (n * a_token + l'.tokens * a_token
        ≤ l.tokens * a_token + (l'.last_fill - l.last_fill) * with_rounding l.max_rps)
      × (l.last_fill ≤ l'.last_fill)
      × (l'.last_fill ≤ now)
      × (l'.max_rps ≡ l.max_rps)

  refill_lem :
      AtMostShare to_add
      → (l : Limiter) (now : ℕ) → l.last_fill ≤ now
      → Spends l now 0 (refill to_add l now)
  unfolding refill
  refill_lem share l now le = elim (Bool-cases (ltb 0 (to_add (now - l.last_fill) l.max_rps))) [
    | inl h ↦ rw h (ground (arith, share (now - l.last_fill) l.max_rps), le, omega arith, refl)
    | inr h ↦ rw h (omega arith, omega arith, le, refl)
  ]

  abbrev taken : Bool → ℕ
  taken took = if took then 1 else 0

  pass_lem :
      AtMostShare to_add
      → (l : Limiter) (now : ℕ) → l.last_fill ≤ now
      → Spends l now (taken ((pass to_add l now).1)) ((pass to_add l now).0)
  unfolding pass
  pass_lem share l now le =
      let (spent, a, b, c) = refill_lem share l now le in
      elim (Bool-cases (ltb 0 ((refill to_add l now).tokens))) [
        | inl h ↦ rw h (ground (arith, spent, h), a, b, c)
        | inr h ↦ rw h (omega (arith, spent), a, b, c)
      ]

  passes_cons :
      (l : Limiter) (now : ℕ) (times : List ℕ)
      → (passes to_add l (now ∷ times)).1
        ≡ taken ((pass to_add l now).1) + (passes to_add ((pass to_add l now).0) times).1
  unfolding passes
  passes_cons l now times = ground arith

  later :
      (a b : ℕ) (times : List ℕ) (high : ℕ) → a ≤ b → IsRising b times high → IsRising a times high
  later a b [] high ab h = omega arith
  later a b (t ∷ ts) high ab (bt, r) = (omega arith, r)

  rising_end : (a : ℕ) (times : List ℕ) (high : ℕ) → IsRising a times high → a ≤ high
  rising_end a [] high h = h
  rising_end a (t ∷ ts) high (at_, r) = omega (arith, rising_end t ts high r)

  spent_in :
      AtMostShare to_add
      → (l : Limiter) (times : List ℕ) (stop : ℕ) → IsRising l.last_fill times stop
      → (passes to_add l times).1 * a_token
        ≤ l.tokens * a_token + (stop - l.last_fill) * with_rounding l.max_rps
  unfolding passes
  spent_in share l [] stop r = omega arith
  spent_in share l (now ∷ times) stop (le, r) =
      let l' = (pass to_add l now).0 in
      let (spent, up, below, same) = pass_lem share l now le in
      let rest = spent_in share l' times stop (later l'.last_fill now times stop below r) in
      let end : l'.last_fill ≤ stop = omega (arith, rising_end now times stop r) in
      let split = share-split l.last_fill l'.last_fill stop (with_rounding l.max_rps) up end in
      rw (passes_cons l now times) (
        omega (
          arith,
          spent,
          subst
              (λ m.
                (passes to_add l' times).1 * a_token
                ≤ l'.tokens * a_token + (stop - l'.last_fill) * with_rounding m)
              same rest,
          split,
        ))

  refill_enough :
      FromOneShare to_add
      → (l : Limiter) (now : ℕ) → 0 < l.max_rps
      → 1000000000 ≤ (now - l.last_fill) * l.max_rps
      → (pass to_add l now).1 ≡ true
  unfolding pass refill
  refill_enough share l now p enough = ground (arith, p, share (now - l.last_fill) l.max_rps enough)

  refill_idle :
      (l : Limiter) (now : ℕ)
      → 0 < l.max_rps
      → (pass to_add l now).1 ≡ false
      → (pass to_add l now).0 ≡ l
  unfolding pass refill
  refill_idle l now p no_ = ground (arith, p, no_)

  acquire_taken :
      (l : Limiter) (now : ℕ) (stops : Bool) (rest : List (ℕ × Bool))
      → (pass to_add l now).1 ≡ true
      → (acquire to_add l ((now, stops) ∷ rest)).1 ≡ granted
  unfolding acquire
  acquire_taken l now stops rest e = ground (arith, e)

  acquire_waits :
      (l : Limiter) (now : ℕ) (rest : List (ℕ × Bool))
      → (pass to_add l now).1 ≡ false
      → acquire to_add l ((now, false) ∷ rest) ≡ acquire to_add ((pass to_add l now).0) rest
  unfolding acquire
  acquire_waits l now rest e = ground (arith, e)

-- The passes of all callers together, at times that do not fall, take no more tokens than a full bucket and one
-- for each whole share of a second that passed since the bucket was made, up to one part in 2^50 for rounding,
-- whatever their number and however they are spread, provided that the conversion of a duration adds no more tokens
-- than its share up to that part.
pub passes_bound :
    (to_add : ℕ → ℕ → ℕ) (max_rps start stop : ℕ) (times : List ℕ)
    → AtMostShare to_add
    → IsRising start times stop
    → (passes to_add (new_limiter max_rps start) times).1 * a_token
      ≤ max_rps * a_token + (stop - start) * with_rounding max_rps
unfolding new_limiter
passes_bound to_add max_rps start stop times share r =
    spent_in to_add share (new_limiter max_rps start) times stop r

-- A caller who is not canceled gets a token, whatever the passes before gave: at the latest in the pass at which
-- a share of a second has run up since the bucket was last filled, provided that the conversion of such a
-- duration adds a token.
pub acquire_grants :
    (to_add : ℕ → ℕ → ℕ) (l : Limiter) (waits : List ℕ) (now : ℕ) (stops : Bool)
    (rest : List (ℕ × Bool))
    → FromOneShare to_add
    → 0 < l.max_rps
    → 1000000000 ≤ (now - l.last_fill) * l.max_rps
    → (acquire to_add l (map (λ t. (t, false)) waits ++ (now, stops) ∷ rest)).1 ≡ granted
acquire_grants to_add l [] now stops rest share p enough =
    acquire_taken to_add l now stops rest (refill_enough to_add share l now p enough)
acquire_grants to_add l (t ∷ waits) now stops rest share p enough =
    elim (Bool-cases ((pass to_add l t).1)) [
      | inl took ↦
          acquire_taken to_add l t false (map (λ t. (t, false)) waits ++ (now, stops) ∷ rest) took
      | inr none_ ↦
          ap (λ r. r.1)
            (acquire_waits to_add l t (map (λ t. (t, false)) waits ++ (now, stops) ∷ rest) none_)
          ∙ ap (λ l'. (acquire to_add l' (map (λ t. (t, false)) waits ++ (now, stops) ∷ rest)).1)
              (refill_idle to_add l t p none_)
          ∙ acquire_grants to_add l waits now stops rest share p enough
    ]
