-- ===== src/Pipeline/Validate.antt =====
-- What inputs that `validateInputs` lets pass are like.
use linker_agent.Prelude.{
  ℕ, suc, ◌≡◌, refl, inl, inr, ◌⊎◌, arith, eq_text, Bool, true, false, not, List, [], ◌∷◌, Option,
  none, some, Text, if◌then◌else◌, All, is_nonpos, to_i64,
}
use linker_agent.Matchers.{UsageEvent, SubscriptionLite, InvoiceLite}
use linker_agent.Matchers.Privacy.{SafeUsage, SafeSubscription, SafeInvoice}
use linker_agent.Pipeline.{
  Inputs, InputError, sub_price, sub_product, is_synthetic_id, validate_usages, validate_ids,
  validate_subs, validate_invs, validate_inputs, first_error,
}

abbrev IsSynthetic : Text → Type 0
IsSynthetic t = is_synthetic_id t ≡ true

first_error-none : {E : Type 0} (a b : Option E) → first_error a b ≡ none → (a ≡ none) × (b ≡ none)
first_error-none (some e) b h = absurd (cc)
first_error-none none b h = (refl, h)

-- A guard that did not fail.
guard_lem :
    {E : Type 0} (b : Bool) (e : E) (next : Option E)
    → (if not b then some e else next) ≡ none
    → (b ≡ true) × (next ≡ none)
guard_lem true e next h = (refl, h)
guard_lem false e next h = absurd (cc)

guard_next :
    {E : Type 0} (b : Bool) (e : E) (next : Option E)
    → (if b then some e else next) ≡ none
    → next ≡ none
guard_next true e next h = absurd (cc)
guard_next false e next h = h

validate_usages_lem :
    (i : ℕ) (us : List UsageEvent)
    → validate_usages i us ≡ none
    → All (SafeUsage is_synthetic_id) us
unfolding validate_usages
validate_usages_lem i [] h = tt
validate_usages_lem i (u ∷ us) h =
    let (user, more) = guard_lem (is_synthetic_id u.user) _ _ h in
    (user, validate_usages_lem (suc i) us (guard_next (is_nonpos (to_i64 u.at)) _ _ more))

validate_ids_lem :
    (error : ℕ → InputError) (j : ℕ) (ids : List Text)
    → validate_ids error j ids ≡ none
    → All IsSynthetic ids
unfolding validate_ids
validate_ids_lem error j [] h = tt
validate_ids_lem error j (id ∷ ids) h =
    let (here, more) = guard_lem (is_synthetic_id id) _ _ h in
    (here, validate_ids_lem error (suc j) ids more)

validate_subs_lem :
    (i : ℕ) (ss : List SubscriptionLite)
    → validate_subs i ss ≡ none
    → All (SafeSubscription is_synthetic_id) ss
unfolding validate_subs
validate_subs_lem i [] h = tt
validate_subs_lem i (s ∷ ss) h =
    let (id, more) = guard_lem (is_synthetic_id s.id) _ _ h in
    let (customer, more') = guard_lem (is_synthetic_id s.customer) _ _ more in
    let (prices, more'') = first_error-none _ _ more' in
    let (products, rest) = first_error-none _ _ more'' in
    (
      (
        id,
        customer,
        validate_ids_lem _ 0 s.price_ids prices,
        validate_ids_lem _ 0 s.product_ids products,
      ),
      validate_subs_lem (suc i) ss rest,
    )

validate_invs_lem :
    (i : ℕ) (vs : List InvoiceLite)
    → validate_invs i vs ≡ none
    → All (SafeInvoice is_synthetic_id) vs
unfolding validate_invs
validate_invs_lem i [] h = tt
validate_invs_lem i (v ∷ vs) h =
    let (id, more) = guard_lem (is_synthetic_id v.id) _ _ h in
    let (customer, more') = guard_lem (is_synthetic_id v.customer) _ _ more in
    ((id, customer), validate_invs_lem (suc i) vs (guard_next _ _ _ more'))

abbrev pub SafeInputs : Inputs → Type 0
SafeInputs inp =
    All (SafeUsage is_synthetic_id) inp.usages
    × All (SafeSubscription is_synthetic_id) inp.subs
    × All (SafeInvoice is_synthetic_id) inp.invs

pub validate_inputs_lem : (inp : Inputs) → validate_inputs inp ≡ none → SafeInputs inp
unfolding validate_inputs
validate_inputs_lem inp h =
    let (usages, more) = first_error-none _ _ h in
    let (subs, invs) = first_error-none _ _ more in
    (
      validate_usages_lem 0 inp.usages usages,
      validate_subs_lem 0 inp.subs subs,
      validate_invs_lem 0 inp.invs invs,
    )

-- The other way round: identifiers that are synthetic pass, at times after 0.
abbrev pub PassingUsage : UsageEvent → Type 0
PassingUsage u = IsSynthetic u.user × (is_nonpos (to_i64 u.at) ≡ false)

pub validate_usages-none :
    (i : ℕ) (us : List UsageEvent) → All PassingUsage us → validate_usages i us ≡ none
unfolding validate_usages
validate_usages-none i [] all = refl
validate_usages-none i (u ∷ us) ((user, time), all) =
    rw user (rw time (validate_usages-none (suc i) us all))

validate_ids-none :
    (error : ℕ → InputError) (j : ℕ) (ids : List Text)
    → All IsSynthetic ids
    → validate_ids error j ids ≡ none
unfolding validate_ids
validate_ids-none error j [] all = refl
validate_ids-none error j (id ∷ ids) (h, all) = rw h (validate_ids-none error (suc j) ids all)

validate_subs-none :
    (i : ℕ) (ss : List SubscriptionLite)
    → All (SafeSubscription is_synthetic_id) ss
    → validate_subs i ss ≡ none
unfolding validate_subs
validate_subs-none i [] all = refl
validate_subs-none i (s ∷ ss) ((id, customer, prices, products), all) = rw id (
    rw customer (
      rw (validate_ids-none (sub_price i) 0 s.price_ids prices) (
        rw (validate_ids-none (sub_product i) 0 s.product_ids products)
          (validate_subs-none (suc i) ss all))))

-- An invoice may have no subscription.
abbrev pub PassingInvoice : InvoiceLite → Type 0
PassingInvoice v =
    SafeInvoice is_synthetic_id v × ((v.subscription ≡ []) ⊎ IsSynthetic v.subscription)

validate_invs-none :
    (i : ℕ) (vs : List InvoiceLite) → All PassingInvoice vs → validate_invs i vs ≡ none
unfolding validate_invs eq_text
validate_invs-none i [] all = refl
validate_invs-none i (v ∷ vs) (((id, customer), inl empty), all) =
    rw id (rw customer (rw empty (validate_invs-none (suc i) vs all)))
validate_invs-none i (v ∷ vs) (((id, customer), inr syn), all) =
    ground (arith, id, customer, syn, validate_invs-none (suc i) vs all)

pub validate_inputs-none :
    (inp : Inputs)
    → validate_usages 0 inp.usages ≡ none
    → All (SafeSubscription is_synthetic_id) inp.subs
    → All PassingInvoice inp.invs
    → validate_inputs inp ≡ none
unfolding validate_inputs
validate_inputs-none inp usages subs invs =
    rw usages (rw (validate_subs-none 0 inp.subs subs) (validate_invs-none 0 inp.invs invs))
