-- ===== src/Stripe/Client/Laws.antt =====
-- What a list gives, on every way through it.
use linker_agent.Prelude.{
  ℕ, ◌≡◌, refl, ap, inl, inr, ◌⊎◌, Bool, List, [], ◌∷◌, ◌++◌, map, Text, ℤ, arith,
}
use linker_agent.Stripe.{RawSubscription, done}
use linker_agent.Stripe.Limiter.{granted, acquire}
use linker_agent.Stripe.Client.{
  Client, Params, Fetched, got, broke, Listed, listed, list_failed, gather, with_token, params_of,
  list_raw_subscriptions,
}

-- What the iterator does: it hands out objects to its end, or up to an error.
abbrev pub Hands : {A : Type 0} → List (Fetched A) → Listed (List A) → Type 0
Hands {A} fs out =
    ((xs : List A) × (fs ≡ map got xs) × (out ≡ listed xs))
    ⊎ ((xs : List A) × (rest : List (Fetched A)) × (fs ≡ map got xs ++ broke ∷ rest)
        × (out ≡ list_failed))

hands_lem : {A : Type 0} (fs : List (Fetched A)) → Hands fs (gather (λ (x : A). done x) fs)
unfolding gather
hands_lem [] = inl ([], refl, refl)
hands_lem (broke ∷ fs) = inr ([], fs, refl, refl)
hands_lem (got x ∷ fs) = elim (hands_lem fs) [
  | inl (xs, e, g) ↦ inl (x ∷ xs, ap (λ l. got x ∷ l) e, rw g refl)
  | inr (xs, rest, e, g) ↦ inr (x ∷ xs, rest, ap (λ l. got x ∷ l) e, rw g refl)
]

with_token-granted :
    {A : Type 0} (to_add : ℕ → ℕ → ℕ) (c : Client) (rounds : List (ℕ × Bool)) (r : Listed A)
    → (acquire to_add c.limiter rounds).1 ≡ granted
    → (with_token to_add c rounds r).1 ≡ r
unfolding with_token
with_token-granted to_add c rounds r e = ground (arith, e)

-- With a token, the list of raw subscriptions is every object that the iterator hands out, in order and however
-- many they are, or an error if the iterator breaks off, after whatever it handed out.
pub list_raw_subscriptions_lem :
    (to_add : ℕ → ℕ → ℕ) (api : Params → List (Fetched RawSubscription)) (c : Client)
    (rounds : List (ℕ × Bool)) (customer : Text) (limit : ℤ)
    → (acquire to_add c.limiter rounds).1 ≡ granted
    → Hands
        (api (params_of to_add c customer [] limit))
        ((list_raw_subscriptions to_add api c rounds customer limit).1)
unfolding list_raw_subscriptions
list_raw_subscriptions_lem to_add api c rounds customer limit e =
    rw
      (with_token-granted to_add c rounds
        (gather (λ (s : RawSubscription). done s) (api (params_of to_add c customer [] limit))) e)
      (hands_lem (api (params_of to_add c customer [] limit)))
