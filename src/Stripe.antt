-- ===== src/Stripe.antt =====
-- internal/connectors/stripe: sanitize.go and to_lite.go, from Stripe's objects to the matchers' inputs.
pub mod Client
pub mod Limiter
pub mod Laws
mod Tests
use linker_agent.Prelude.{
  ℕ, Bool, true, false, List, [], ◌∷◌, Option, none, some, Text, codes, eq_text, if◌then◌else◌, map,
}
use linker_agent.Crypto.{Error, Result, ok, err, Hashes, synthetic_id}
use linker_agent.Matchers.{SubscriptionLite, InvoiceLite}

-- Stripe's objects, as far as they are read; a pointer that may be nil is an option.
pub record RawPrice : Type 0 where
  pub id : Text
  pub product : Option Text

pub record RawItem : Type 0 where
  pub price : Option RawPrice
  pub quantity : ℕ

pub record RawSubscription : Type 0 where
  pub id : Text
  pub customer : Option Text
  pub status : Text
  pub items : Option (List RawItem)
  pub created : ℕ

-- The lines are the identifiers of their subscriptions.
pub record RawInvoice : Type 0 where
  pub id : Text
  pub customer : Option Text
  pub status : Text
  pub total : ℕ
  pub currency : Text
  pub created : ℕ
  pub lines : Option (List (Option Text))

-- `models.SubItem`, `models.Subscription` and `models.Invoice`; those of stripe.go have the same fields.
pub record SubItem : Type 0 where
  pub price_id : Text
  pub product_id : Text
  pub quantity : ℕ

pub record Subscription : Type 0 where
  pub id : Text
  pub customer : Text
  pub status : Text
  pub items : List SubItem
  pub created_at : ℕ

pub record Invoice : Type 0 where
  pub id : Text
  pub customer : Text
  pub subscription : Text
  pub total : ℕ
  pub currency : Text
  pub status : Text
  pub created_at : ℕ
  pub paid : Bool

-- A nil pointer that is read ends in a panic.
pub data Outcome {ℓ} (A : Type ℓ) : Type ℓ where
  done : A → Outcome A
  failed : Error → Outcome A
  panicked : Outcome A

infixl 5 ◌>>=◌
abbrev pub ◌>>=◌ {ℓ κ} : {A : Type ℓ} {B : Type κ} → Outcome A → (A → Outcome B) → Outcome B
done a >>= f = f a
failed e >>= f = failed e
panicked >>= f = panicked

abbrev pub deref {ℓ} : {A : Type ℓ} → Option A → Outcome A
deref none = panicked
deref (some a) = done a

abbrev pub checked {ℓ} : {A : Type ℓ} → Result A → Outcome A
checked (ok a) = done a
checked (err e) = failed e

-- The text of a call whose error is ignored.
abbrev pub ignored : Result Text → Text
ignored (ok t) = t
ignored (err e) = []

unfoldable pub is_paid : Text → Bool
is_paid status = eq_text status (codes "paid")

module _ (h : Hashes) (salt : Text) where
  -- An identifier that may be empty.
  unfoldable pub optional_id : Text → (prefix : Text) → Text
  optional_id raw prefix = if eq_text raw [] then [] else ignored (synthetic_id h salt raw prefix)

  unfoldable pub price_id_of : Option RawPrice → Text
  price_id_of none = []
  price_id_of (some p) = optional_id p.id (codes "syn_price")

  unfoldable pub product_id_of : Option RawPrice → Text
  product_id_of none = []
  product_id_of (some p) = elim p.product [
    | none ↦ []
    | some id ↦ optional_id id (codes "syn_prod")
  ]

  unfoldable pub sanitize_item : RawItem → SubItem
  sanitize_item i = record {
    price_id = price_id_of i.price;
    product_id = product_id_of i.price;
    quantity = i.quantity;
  }

  unfoldable pub sanitize_subscription : RawSubscription → Outcome Subscription
  sanitize_subscription s = do
    id ← checked (synthetic_id h salt s.id (codes "syn_sub"))
    raw ← deref s.customer
    customer ← checked (synthetic_id h salt raw (codes "syn_cust"))
    items ← deref s.items
    done (record {
      id = id;
      customer = customer;
      status = s.status;
      items = map sanitize_item items;
      created_at = s.created;
    })

  -- The subscription of the first line that has one.
  unfoldable pub subscription_of : List (Option Text) → Outcome Text
  subscription_of [] = done []
  subscription_of (none ∷ lines) = subscription_of lines
  subscription_of (some id ∷ lines) =
      let rest = subscription_of lines in
      if eq_text id [] then rest else checked (synthetic_id h salt id (codes "syn_sub"))

  unfoldable pub sanitize_invoice : RawInvoice → Outcome Invoice
  sanitize_invoice i = do
    id ← checked (synthetic_id h salt i.id (codes "syn_inv"))
    raw ← deref i.customer
    customer ← checked (synthetic_id h salt raw (codes "syn_cust"))
    subscription ← elim i.lines [ none ↦ done [] | some lines ↦ subscription_of lines ]
    done (record {
      id = id;
      customer = customer;
      subscription = subscription;
      total = i.total;
      currency = i.currency;
      status = i.status;
      created_at = i.created;
      paid = is_paid i.status;
    })

-- The identifiers that are not empty.
unfoldable pub given : List Text → List Text
given [] = []
given (t ∷ ts) = let rest = given ts in if eq_text t [] then rest else t ∷ rest

unfoldable pub to_subscription_lite : Subscription → SubscriptionLite
to_subscription_lite s = record {
  id = s.id;
  customer = s.customer;
  price_ids = given (map (λ (i : SubItem). i.price_id) s.items);
  product_ids = given (map (λ (i : SubItem). i.product_id) s.items);
  created_at = s.created_at;
  status = s.status;
}

unfoldable pub to_invoice_lite : Invoice → InvoiceLite
to_invoice_lite i = record {
  id = i.id;
  customer = i.customer;
  subscription = i.subscription;
  total = i.total;
  currency = i.currency;
  status = i.status;
  created_at = i.created_at;
  paid = i.paid;
}

unfoldable pub to_subscription_lites : List Subscription → List SubscriptionLite
to_subscription_lites ss = map to_subscription_lite ss

unfoldable pub to_invoice_lites : List Invoice → List InvoiceLite
to_invoice_lites is = map to_invoice_lite is
