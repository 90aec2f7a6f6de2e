-- ===== src/Matchers/Privacy/Exact.antt =====
-- The exact joins give edges between the identifiers of their inputs.
use linker_agent.Prelude.{Bool, List, [], ◌∷◌, Text, codes, eq_text, All, All-append}
use linker_agent.Crypto.{ok, Hashes}
use linker_agent.Matchers.{
  Float, UsageEvent, SubscriptionLite, InvoiceLite, LinkEdge, add_to, list_of, generate_proof,
}
use linker_agent.Matchers.Privacy.{
  OnOk, OnOk-any, OnOk-collect, OnOk-if, InLists, add_to-InLists, list_of-All, IsSafe, SafeUsage,
  SafeSubscription, SafeInvoice, SafeEdge, SafeMatcher, SafeResult, one_edge_lem, then_edges,
  both_edges,
}
use linker_agent.Matchers.Deterministic as Deterministic

module _ (is_safe : Text → Bool) (f : Float) (h : Hashes) (salt : Text) where
  open f use {F}

  exact_edge_lem :
      (id_mode : Text) (u : UsageEvent) (to kind notes : Text)
      → SafeUsage is_safe u
      → IsSafe is_safe to
      → OnOk
          (λ (e : LinkEdge F). SafeEdge is_safe e)
          (Deterministic.exact_edge f h salt id_mode u to kind notes)
  unfolding Deterministic.exact_edge
  exact_edge_lem id_mode u to kind notes hu ht =
      OnOk-any (λ (e : LinkEdge F). SafeEdge is_safe e)
        (generate_proof h salt (u.user ∷ to ∷ kind ∷ Deterministic.name ∷ u.sku ∷ id_mode ∷ [])) _
        (λ proof. (hu, ht))

  sku_edges_lem :
      (id_mode : Text) (u : UsageEvent) (kind notes id : Text)
      → SafeUsage is_safe u
      → IsSafe is_safe id
      → SafeResult is_safe f h salt (Deterministic.sku_edges f h salt id_mode u kind notes id)
  unfolding Deterministic.sku_edges
  sku_edges_lem id_mode u kind notes id hu hi =
      OnOk-if (All (λ (e : LinkEdge F). SafeEdge is_safe e)) (eq_text u.sku id) _ (ok [])
        (λ eq.
          one_edge_lem is_safe f h salt (Deterministic.exact_edge f h salt id_mode u id kind notes)
            (exact_edge_lem id_mode u id kind notes hu hi))
        (λ eq. tt)

  deterministic_subscription :
      (id_mode : Text) (u : UsageEvent) (s : SubscriptionLite)
      → SafeUsage is_safe u
      → SafeSubscription is_safe s
      → SafeResult is_safe f h salt (Deterministic.subscription_edges f h salt id_mode u s)
  unfolding Deterministic.subscription_edges
  deterministic_subscription id_mode u s hu (hid, hc, hp, hq) =
      then_edges is_safe f h salt (λ (e : LinkEdge F). SafeEdge is_safe e) _ _
        (exact_edge_lem id_mode u s.id (codes "user->subscription")
          (codes "exact customer ID match") hu hid)
        (λ e he.
          then_edges is_safe f h salt (All (λ (e : LinkEdge F). SafeEdge is_safe e)) _ _
            (OnOk-collect (IsSafe is_safe) (λ (e : LinkEdge F). SafeEdge is_safe e) _ s.price_ids hp
              (λ id hi.
                sku_edges_lem id_mode u (codes "user->price") (codes "exact SKU-price match") id hu
                  hi))
            (λ prices hprices.
              then_edges is_safe f h salt (All (λ (e : LinkEdge F). SafeEdge is_safe e)) _ _
                (OnOk-collect (IsSafe is_safe) (λ (e : LinkEdge F). SafeEdge is_safe e) _
                  s.product_ids hq
                  (λ id hi.
                    sku_edges_lem id_mode u (codes "user->product")
                      (codes "exact SKU-product match") id hu hi))
                (λ products hproducts. (
                  he,
                  All-append (λ (e : LinkEdge F). SafeEdge is_safe e) prices products hprices
                      hproducts,
                ))))

  deterministic_usage :
      (id_mode : Text) (subs : List (Text × List SubscriptionLite))
      (invs : List (Text × List InvoiceLite)) (u : UsageEvent)
      → InLists (SafeSubscription is_safe) subs
      → InLists (SafeInvoice is_safe) invs
      → SafeUsage is_safe u
      → SafeResult is_safe f h salt (Deterministic.usage_edges f h salt id_mode subs invs u)
  unfolding Deterministic.usage_edges Deterministic.invoice_edges
  deterministic_usage id_mode subs invs u hs hi hu =
      both_edges is_safe f h salt _ _
        (OnOk-collect (SafeSubscription is_safe) (λ (e : LinkEdge F). SafeEdge is_safe e) _
          (list_of u.user subs) (list_of-All (SafeSubscription is_safe) u.user subs hs)
          (λ s safe. deterministic_subscription id_mode u s hu safe))
        (OnOk-collect (SafeInvoice is_safe) (λ (e : LinkEdge F). SafeEdge is_safe e) _
          (list_of u.user invs) (list_of-All (SafeInvoice is_safe) u.user invs hi)
          (λ i safe.
            one_edge_lem is_safe f h salt
              (Deterministic.exact_edge f h salt id_mode u i.id (codes "user->invoice")
                (codes "exact customer ID match"))
              (exact_edge_lem id_mode u i.id (codes "user->invoice")
                (codes "exact customer ID match") hu (safe.0))))

  subs_by_customer_lem :
      (subs : List SubscriptionLite) (m : List (Text × List SubscriptionLite))
      → All (SafeSubscription is_safe) subs
      → InLists (SafeSubscription is_safe) m
      → InLists (SafeSubscription is_safe) (Deterministic.subs_by_customer subs m)
  unfolding Deterministic.subs_by_customer
  subs_by_customer_lem [] m all inm = inm
  subs_by_customer_lem (s ∷ subs) m (here, all) inm =
      subs_by_customer_lem subs (add_to s.customer s m) all
        (add_to-InLists (SafeSubscription is_safe) s.customer s m here inm)

  invs_by_customer_lem :
      (invs : List InvoiceLite) (m : List (Text × List InvoiceLite))
      → All (SafeInvoice is_safe) invs
      → InLists (SafeInvoice is_safe) m
      → InLists (SafeInvoice is_safe) (Deterministic.invs_by_customer invs m)
  unfolding Deterministic.invs_by_customer
  invs_by_customer_lem [] m all inm = inm
  invs_by_customer_lem (i ∷ invs) m (here, all) inm =
      invs_by_customer_lem invs (add_to i.customer i m) all
        (add_to-InLists (SafeInvoice is_safe) i.customer i m here inm)

  pub deterministic-SafeMatcher :
      (id_mode : Text) → SafeMatcher is_safe (Deterministic.matcher f h salt id_mode)
  unfolding Deterministic.matcher
  deterministic-SafeMatcher id_mode usages subs invs hu hs hi =
      OnOk-collect (SafeUsage is_safe) (λ (e : LinkEdge F). SafeEdge is_safe e) _ usages hu
        (λ u safe.
          deterministic_usage id_mode (Deterministic.subs_by_customer subs [])
            (Deterministic.invs_by_customer invs []) u (subs_by_customer_lem subs [] hs tt)
            (invs_by_customer_lem invs [] hi tt) safe)
