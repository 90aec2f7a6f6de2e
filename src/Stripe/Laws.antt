-- ===== src/Stripe/Laws.antt =====
-- What sanitized objects are like: synthetic identifiers that the pipeline's validation lets pass.
use linker_agent.Prelude.{
  ◌≡◌, refl, subst, inl, inr, ◌⊎◌, Bool, true, false, List, [], ◌∷◌, ◌++◌, map, Option, none, some,
  Text, codes, eq_text, if◌then◌else◌, All, Bool-cases,
}
use linker_agent.Crypto.{Result, ok, err, Hashes, synthetic_id}
use linker_agent.Crypto as Crypto
use linker_agent.Crypto.Laws.{synthetic_id-IsHidden}
use linker_agent.Matchers.Privacy.{SafeSubscription}
use linker_agent.Pipeline.{is_synthetic_id}
use linker_agent.Stripe.{
  RawPrice, RawItem, RawSubscription, RawInvoice, SubItem, Subscription, Invoice, Outcome, done,
  failed, panicked, ◌>>=◌, deref, checked, ignored, optional_id, price_id_of, product_id_of,
  sanitize_item, sanitize_subscription, subscription_of, sanitize_invoice, given,
  to_subscription_lite,
}

abbrev pub IsSynthetic : Text → Type 0
IsSynthetic t = is_synthetic_id t ≡ true

-- What holds of an outcome that is done.
abbrev pub OnDone {ℓ κ} : {A : Type ℓ} → (A → Type κ) → Outcome A → Type κ
OnDone Q (done a) = Q a
OnDone Q (failed e) = Unit
OnDone Q panicked = Unit

pub OnDone-then {ℓ μ κ ν} :
    {A : Type ℓ} {B : Type μ} (P : A → Type κ) (Q : B → Type ν) (r : Outcome A) (k : A → Outcome B)
    → OnDone P r
    → ((a : A) → P a → OnDone Q (k a))
    → OnDone Q (r >>= k)
OnDone-then P Q (done a) k p next = next a p
OnDone-then P Q (failed e) k p next = tt
OnDone-then P Q panicked k p next = tt

OnDone-deref {ℓ} : {A : Type ℓ} (o : Option A) → OnDone (λ (a : A). Unit {0}) (deref o)
OnDone-deref none = tt
OnDone-deref (some a) = tt

pub done_lem {ℓ κ} :
    {A : Type ℓ} (P : A → Type κ) (r : Outcome A) (a : A) → r ≡ done a → OnDone P r → P a
done_lem P r a e p = subst (OnDone P) e p

-- Empty, or synthetic.
abbrev pub IsClear : Text → Type 0
IsClear t = (t ≡ []) ⊎ IsSynthetic t

abbrev pub ClearItem : SubItem → Type 0
ClearItem i = IsClear i.price_id × IsClear i.product_id

abbrev pub ClearSubscription : Subscription → Type 0
ClearSubscription s = IsSynthetic s.id × IsSynthetic s.customer × All ClearItem s.items

abbrev pub ClearInvoice : Invoice → Type 0
ClearInvoice i = IsSynthetic i.id × IsSynthetic i.customer × IsClear i.subscription

module _ (h : Hashes) (salt : Text) where
  synthetic_lem :
      (raw kind id : Text) → synthetic_id h salt raw (codes "syn_" ++ kind) ≡ ok id → IsSynthetic id
  unfolding is_synthetic_id Crypto.is_synthetic_id
  synthetic_lem raw kind id e = (synthetic_id-IsHidden h salt raw kind id e).0

  checked_lem :
      (raw kind : Text)
      → OnDone IsSynthetic (checked (synthetic_id h salt raw (codes "syn_" ++ kind)))
  checked_lem raw kind =
      go (synthetic_id h salt raw (codes "syn_" ++ kind)) (synthetic_lem raw kind)
    where
      go :
          (r : Result Text)
          → ((id : Text) → r ≡ ok id → IsSynthetic id)
          → OnDone IsSynthetic (checked r)
      go (ok id) all = all id refl
      go (err e) all = tt

  optional_id_lem : (raw kind : Text) → IsClear (optional_id h salt raw (codes "syn_" ++ kind))
  unfolding optional_id
  optional_id_lem raw kind =
      go (eq_text raw []) (synthetic_id h salt raw (codes "syn_" ++ kind)) (synthetic_lem raw kind)
    where
      go :
          (b : Bool) (r : Result Text)
          → ((id : Text) → r ≡ ok id → IsSynthetic id)
          → IsClear (if b then [] else ignored r)
      go true r all = inl refl
      go false (ok id) all = inr (all id refl)
      go false (err e) all = inl refl

  price_id_lem : (p : Option RawPrice) → IsClear (price_id_of h salt p)
  unfolding price_id_of
  price_id_lem none = inl refl
  price_id_lem (some p) = optional_id_lem p.id (codes "price")

  product_id_lem : (p : Option RawPrice) → IsClear (product_id_of h salt p)
  unfolding product_id_of
  product_id_lem none = inl refl
  product_id_lem (some p) = go p.product
    where
      go :
          (o : Option Text)
          → IsClear (elim o [ none ↦ [] | some id ↦ optional_id h salt id (codes "syn_prod") ])
      go none = inl refl
      go (some id) = optional_id_lem id (codes "prod")

  items_lem : (is : List RawItem) → All ClearItem (map (sanitize_item h salt) is)
  unfolding sanitize_item
  items_lem [] = tt
  items_lem (i ∷ is) = ((price_id_lem i.price, product_id_lem i.price), items_lem is)

  -- The two identifiers that every object has.
  ids_lem :
      {B : Type 0} (Q : B → Type 0) (raw kind : Text) (customer : Option Text)
      (k : Text → Text → Outcome B)
      → ((id c : Text) → IsSynthetic id → IsSynthetic c → OnDone Q (k id c))
      → OnDone Q (
          checked (synthetic_id h salt raw (codes "syn_" ++ kind)) >>= λ id.
          deref customer >>= λ raw'.
          checked (synthetic_id h salt raw' (codes "syn_cust")) >>= λ c. k id c)
  ids_lem Q raw kind customer k all =
      OnDone-then IsSynthetic Q (checked (synthetic_id h salt raw (codes "syn_" ++ kind))) _
        (checked_lem raw kind)
        (λ id hid.
          OnDone-then (λ _. Unit {0}) Q (deref customer) _ (OnDone-deref customer)
            (λ raw' _.
              OnDone-then IsSynthetic Q (checked (synthetic_id h salt raw' (codes "syn_cust"))) _
                (checked_lem raw' (codes "cust")) (λ c hc. all id c hid hc)))

  -- The time of creation is kept.
  abbrev pub SanitizedFrom : RawSubscription → Subscription → Type 0
  SanitizedFrom s m = ClearSubscription m × (m.created_at ≡ s.created)

  pub sanitize_subscription_lem :
      (s : RawSubscription) → OnDone (SanitizedFrom s) (sanitize_subscription h salt s)
  unfolding sanitize_subscription
  sanitize_subscription_lem s =
      ids_lem (SanitizedFrom s) s.id (codes "sub") s.customer _ (λ id c hid hc.
        OnDone-then (λ _. Unit {0}) (SanitizedFrom s) (deref s.items) _ (OnDone-deref s.items)
          (λ items _. ((hid, hc, items_lem items), refl)))

  subscription_of_lem : (lines : List (Option Text)) → OnDone IsClear (subscription_of h salt lines)
  unfolding subscription_of
  subscription_of_lem [] = inl refl
  subscription_of_lem (none ∷ lines) = subscription_of_lem lines
  subscription_of_lem (some id ∷ lines) =
      go (eq_text id []) (checked (synthetic_id h salt id (codes "syn_sub")))
        (checked_lem id (codes "sub")) (subscription_of h salt lines) (subscription_of_lem lines)
    where
      go :
          (b : Bool) (r : Outcome Text)
          → OnDone IsSynthetic r
          → (rest : Outcome Text) → OnDone IsClear rest
          → OnDone IsClear (if b then rest else r)
      go true r hr rest hrest = hrest
      go false (done id) hr rest hrest = inr hr
      go false (failed e) hr rest hrest = tt
      go false panicked hr rest hrest = tt

  pub sanitize_invoice_lem : (i : RawInvoice) → OnDone ClearInvoice (sanitize_invoice h salt i)
  unfolding sanitize_invoice
  sanitize_invoice_lem i = ids_lem ClearInvoice i.id (codes "inv") i.customer _ (λ id c hid hc.
      OnDone-then IsClear ClearInvoice (lines_of i.lines) _ (lines_lem i.lines)
        (λ sub hsub. (hid, hc, hsub)))
    where
      lines_of : Option (List (Option Text)) → Outcome Text
      lines_of o = elim o [ none ↦ done [] | some lines ↦ subscription_of h salt lines ]

      lines_lem : (o : Option (List (Option Text))) → OnDone IsClear (lines_of o)
      lines_lem none = inl refl
      lines_lem (some lines) = subscription_of_lem lines

not_empty : (t : Text) → t ≡ [] → eq_text t [] ≡ false → ⊥
unfolding eq_text
not_empty [] e f = cc
not_empty (x ∷ t) e f = cc

given_lem : (ts : List Text) → All IsClear ts → All IsSynthetic (given ts)
unfolding given
given_lem [] all = tt
given_lem (t ∷ ts) (clear, all) = elim (Bool-cases (eq_text t [])) [
  | inl empty ↦ rw empty (given_lem ts all)
  | inr full ↦ elim clear [
    | inl e ↦ absurd (not_empty t e full)
    | inr syn ↦ rw full (syn, given_lem ts all)
  ]
]

All-map :
    {A : Type 0} (f : A → Text) (P : A → Type 0) (xs : List A)
    → ((x : A) → P x → IsClear (f x))
    → All P xs
    → All IsClear (map f xs)
All-map f P [] each all = tt
All-map f P (x ∷ xs) each (p, all) = (each x p, All-map f P xs each all)

pub to_subscription_lite_lem :
    (s : Subscription)
    → ClearSubscription s
    → SafeSubscription is_synthetic_id (to_subscription_lite s)
unfolding to_subscription_lite
to_subscription_lite_lem s (id, c, items) = (
  id,
  c,
  given_lem (map (λ (i : SubItem). i.price_id) s.items)
      (All-map (λ (i : SubItem). i.price_id) ClearItem s.items (λ i p. p.0) items),
  given_lem (map (λ (i : SubItem). i.product_id) s.items)
      (All-map (λ (i : SubItem). i.product_id) ClearItem s.items (λ i p. p.1) items),
)
