-- ===== src/Stripe/Client.antt =====
-- internal/connectors/stripe/stripe.go: the client's lists, over the iterators of Stripe's library.
pub mod Laws
use linker_agent.Prelude.{
  ℕ, zero, suc, Bool, true, false, List, [], ◌∷◌, Option, none, some, Text, eq_text, if◌then◌else◌,
  ℤ, pos, is_nonpos, to_ℕ,
}
use linker_agent.Stripe.{
  RawPrice, RawItem, RawSubscription, RawInvoice, SubItem, Subscription, Invoice, Outcome, done,
  failed, panicked, ◌>>=◌, deref, is_paid,
}
use linker_agent.Stripe.Limiter.{Limiter, new_limiter, granted, canceled, waiting, acquire}

pub record Client : Type 0 where
  pub account : Text
  pub limiter : Limiter

unfoldable pub new_client : (api_key account : Text) → (max_rps : ℤ) → (now : ℕ) → Option Client
new_client api_key account max_rps now =
    if eq_text api_key []
    then none
    else some (record {
      account = account;
      limiter = new_limiter (if is_nonpos max_rps then 1 else to_ℕ max_rps) now;
    })

-- The parameters of a list; an empty text stands for one that is not set.
pub record Params : Type 0 where
  pub limit : ℤ
  pub customer : Text
  pub subscription : Text
  pub account : Text

-- What the iterator hands to its callback.
pub data Fetched {ℓ} (A : Type ℓ) : Type ℓ where
  got : A → Fetched A
  broke : Fetched A

pub data Listed {ℓ} (A : Type ℓ) : Type ℓ where
  listed : A → Listed A
  rate_limited list_failed crashed pending : Listed A

-- `sanitizeSubscription` and `sanitizeInvoice` of stripe.go, which keep Stripe's identifiers.
unfoldable pub plain_item : RawItem → Outcome SubItem
plain_item i = do
  price ← deref i.price
  product ← deref price.product
  done (record { price_id = price.id; product_id = product; quantity = i.quantity })

unfoldable pub plain_items : List RawItem → Outcome (List SubItem)
plain_items [] = done []
plain_items (i ∷ is) = do item ← plain_item i; rest ← plain_items is; done (item ∷ rest)

unfoldable pub plain_subscription : RawSubscription → Outcome Subscription
plain_subscription s = do
  raw ← deref s.items
  items ← plain_items raw
  customer ← deref s.customer
  done (record {
    id = s.id;
    customer = customer;
    status = s.status;
    items = items;
    created_at = s.created;
  })

unfoldable pub first_line : List (Option Text) → Text
first_line [] = []
first_line (none ∷ lines) = first_line lines
first_line (some id ∷ lines) = id

unfoldable pub plain_invoice : RawInvoice → Outcome Invoice
plain_invoice i = do
  customer ← deref i.customer
  done (record {
    id = i.id;
    customer = customer;
    subscription = elim i.lines [ none ↦ [] | some lines ↦ first_line lines ];
    total = i.total;
    currency = i.currency;
    status = i.status;
    created_at = i.created;
    paid = is_paid i.status;
  })

-- The callback, over what the iterator hands out.
unfoldable pub gather : {A B : Type 0} → (A → Outcome B) → List (Fetched A) → Listed (List B)
gather each [] = listed []
gather each (broke ∷ xs) = list_failed
gather each (got x ∷ xs) = elim (each x) [
  | done y ↦ elim (gather each xs) [
    | listed ys ↦ listed (y ∷ ys)
    | rate_limited ↦ rate_limited
    | list_failed ↦ list_failed
    | crashed ↦ crashed
    | pending ↦ pending
  ]
  | failed e ↦ crashed
  | panicked ↦ crashed
]

-- The rounds are those of the rate limiter.
module _ (to_add : ℕ → ℕ → ℕ) where
  unfoldable pub with_token : {A : Type 0} → Client → List (ℕ × Bool) → Listed A → Client × Listed A
  with_token c rounds result =
      let (l, a) = acquire to_add c.limiter rounds in
      (
        record c { limiter = l },
        elim a [ granted ↦ result | canceled ↦ rate_limited | waiting ↦ pending ],
      )

  abbrev pub params_of : Client → (customer subscription : Text) → (limit : ℤ) → Params
  params_of c customer subscription limit = record {
    limit = if is_nonpos limit then pos 10 else limit;
    customer = customer;
    subscription = subscription;
    account = c.account;
  }

  unfoldable pub list_subscriptions :
      (Params → List (Fetched RawSubscription))
      → Client
      → List (ℕ × Bool)
      → (customer : Text) → ℤ
      → Client × Listed (List Subscription)
  list_subscriptions api c rounds customer limit =
      with_token c rounds (gather plain_subscription (api (params_of c customer [] limit)))

  unfoldable pub list_raw_subscriptions :
      (Params → List (Fetched RawSubscription))
      → Client
      → List (ℕ × Bool)
      → (customer : Text) → ℤ
      → Client × Listed (List RawSubscription)
  list_raw_subscriptions api c rounds customer limit =
      with_token c rounds (gather (λ s. done s) (api (params_of c customer [] limit)))

  unfoldable pub list_invoices :
      (Params → List (Fetched RawInvoice))
      → Client
      → List (ℕ × Bool)
      → (customer subscription : Text) → ℤ
      → Client × Listed (List Invoice)
  list_invoices api c rounds customer subscription limit =
      with_token c rounds (gather plain_invoice (api (params_of c customer subscription limit)))

  unfoldable pub list_raw_invoices :
      (Params → List (Fetched RawInvoice))
      → Client
      → List (ℕ × Bool)
      → (customer subscription : Text) → ℤ
      → Client × Listed (List RawInvoice)
  list_raw_invoices api c rounds customer subscription limit =
      with_token c rounds (gather (λ i. done i) (api (params_of c customer subscription limit)))

  -- The number of customers that the iterator hands out.
  unfoldable pub count_fetched : List (Fetched (Unit {0})) → Listed ℕ
  count_fetched [] = listed 0
  count_fetched (broke ∷ xs) = list_failed
  count_fetched (got x ∷ xs) = elim (count_fetched xs) [
    | listed n ↦ listed (suc n)
    | rate_limited ↦ rate_limited
    | list_failed ↦ list_failed
    | crashed ↦ crashed
    | pending ↦ pending
  ]

  unfoldable pub smoke_check :
      (Params → List (Fetched (Unit {0}))) → Client → List (ℕ × Bool) → Client × Listed ℕ
  smoke_check api c rounds = with_token c rounds (
      count_fetched
        (api (record { limit = pos 5; customer = []; subscription = []; account = c.account })))
