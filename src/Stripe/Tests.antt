-- ===== src/Stripe/Tests.antt =====
-- The rate limiter at concrete inputs with the theorems about it applied there, and a list that breaks off.
use native.Mathlib.Nat.{div-mul-le_self, le-div_iff_mul-le}
use linker_agent.Prelude.{
  ℕ, ◌+◌, ◌*◌, ◌/◌, ◌≤◌, ◌<◌, ◌≡◌, refl, Bool, true, false, List, [], ◌∷◌, none, some, codes, pos,
  arith,
}
use linker_agent.Stripe.{RawSubscription}
use linker_agent.Stripe.Limiter.{Limiter, new_limiter, refill, pass, granted, acquire, passes}
use linker_agent.Stripe.Limiter.Laws.{
  a_token, with_rounding, AtMostShare, FromOneShare, passes_bound, acquire_grants,
}
use linker_agent.Stripe.Client.{
  Client, Params, Fetched, got, broke, list_failed, gather, with_token, list_raw_subscriptions,
}

-- A conversion that rounds up as far as it may.
abbrev share : ℕ → ℕ → ℕ
share elapsed max_rps = elapsed * with_rounding max_rps / a_token

share-AtMostShare : AtMostShare share
share-AtMostShare e r = div-mul-le_self (e * with_rounding r) a_token

share-FromOneShare : FromOneShare share
share-FromOneShare e r enough =
    (le-div_iff_mul-le {k = a_token} {x = 1} {y = e * with_rounding r} (omega arith)).1
      (omega (arith, enough))

-- `float64` gives a token more than the share here, which the rounding allows.
rounded_up : 65960900990099 * 101 < 6662051 * 1000000000
rounded_up = omega arith

rounded_up_within : 6662051 * a_token ≤ 65960900990099 * with_rounding 101
rounded_up_within = omega arith

-- A bucket for two, three passes in the first half second.
abbrev start : Limiter
start = new_limiter 2 0

abbrev times : List ℕ
times = 0 ∷ 1 ∷ 500000000 ∷ []

taken_all : (passes share start times).1 ≡ 3
unfolding passes pass refill new_limiter
taken_all = refl

passes_bound_example :
    (passes share start times).1 * a_token ≤ 2 * a_token + 700000000 * with_rounding 2
passes_bound_example =
    passes_bound share 2 0 700000000 times share-AtMostShare
      (omega arith, (omega arith, (omega arith, omega arith)))

abbrev empty_bucket : Limiter
empty_bucket = record { max_rps = 2; tokens = 0; last_fill = 0 }

acquire_grants_example :
    (acquire share empty_bucket ((100, false) ∷ (600000000, true) ∷ [])).1 ≡ granted
acquire_grants_example =
    acquire_grants share empty_bucket (100 ∷ []) 600000000 true [] share-FromOneShare (omega arith)
      (omega arith)

abbrev raw : RawSubscription
raw = record {
  id = codes "sub_1";
  customer = some (codes "cus_1");
  status = codes "active";
  items = none;
  created = 5;
}

abbrev client : Client
client = record { account = []; limiter = start }

-- The second page breaks off.
abbrev api : Params → List (Fetched RawSubscription)
api p = got raw ∷ broke ∷ []

abbrev rounds : List (ℕ × Bool)
rounds = (0, false) ∷ []

granted_first : (acquire share start rounds).1 ≡ granted
unfolding acquire pass refill new_limiter
granted_first = refl

broken_list : (list_raw_subscriptions share api client rounds [] (pos 1)).1 ≡ list_failed
unfolding list_raw_subscriptions with_token gather acquire pass refill new_limiter
broken_list = refl
