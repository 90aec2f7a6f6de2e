-- ===== src/Matchers/Privacy/Indirect.antt =====
-- The temporal and the SKU matcher give edges between the identifiers of their inputs.
use linker_agent.Prelude.{
  ◌≡◌, refl, sym, subst, inl, inr, ◌⊎◌, Bool, true, List, [], ◌∷◌, Text, codes, eq_text, eq_text→eq,
  All, Bool-cases, arith, ℕ,
}
use linker_agent.Crypto.{ok, Hashes}
use linker_agent.Matchers.{
  Float, UsageEvent, SubscriptionLite, InvoiceLite, LinkEdge, add_to, list_of, within,
  generate_proof,
}
use linker_agent.Matchers.Privacy.{
  OnOk, OnOk-any, OnOk-collect, OnOk-if, InLists, add_to-InLists, list_of-All, IsSafe, SafeUsage,
  SafeSubscription, SafeInvoice, SafeEdge, SafeMatcher, SafeResult, one_edge_lem, then_edges,
  both_edges,
}
use linker_agent.Matchers.Temporal as Temporal
use linker_agent.Matchers.SkuOverlap as SkuOverlap
use linker_agent.Matchers.SkuOverlap.{
  MatchType, price, product, no_type, is_among, match_type, index_ids, sku_to_subs,
}

module _ (is_safe : Text → Bool) (f : Float) (h : Hashes) (salt : Text) where
  open f use {F}

  near_edges_lem :
      (window : ℕ) (u : UsageEvent) (to kind what : Text) (created_at : ℕ)
      → SafeUsage is_safe u
      → IsSafe is_safe to
      → SafeResult is_safe f h salt (Temporal.near_edges f h window salt u to kind what created_at)
  unfolding Temporal.near_edges
  near_edges_lem window u to kind what created_at hu ht =
      OnOk-if (All (λ (e : LinkEdge F). SafeEdge is_safe e)) (within u.at created_at window) _
        (ok [])
        (λ eq.
          OnOk-any (All (λ (e : LinkEdge F). SafeEdge is_safe e)) (generate_proof h salt _) _
            (λ proof. ((hu, ht), tt)))
        (λ eq. tt)

  temporal_usage :
      (window : ℕ) (subs : List SubscriptionLite) (invs : List InvoiceLite) (u : UsageEvent)
      → All (SafeSubscription is_safe) subs
      → All (SafeInvoice is_safe) invs
      → SafeUsage is_safe u
      → SafeResult is_safe f h salt (Temporal.usage_edges f h window salt subs invs u)
  unfolding Temporal.usage_edges
  temporal_usage window subs invs u hs hi hu =
      both_edges is_safe f h salt _ _
        (OnOk-collect (SafeSubscription is_safe) (λ (e : LinkEdge F). SafeEdge is_safe e) _ subs hs
          (λ s safe.
            near_edges_lem window u s.id (codes "user->subscription") (codes "subscription")
              s.created_at hu (safe.0)))
        (OnOk-collect (SafeInvoice is_safe) (λ (e : LinkEdge F). SafeEdge is_safe e) _ invs hi
          (λ i safe.
            near_edges_lem window u i.id (codes "user->invoice") (codes "invoice") i.created_at hu
              (safe.0)))

  pub temporal-SafeMatcher : (window : ℕ) → SafeMatcher is_safe (Temporal.matcher f h window salt)
  unfolding Temporal.matcher
  temporal-SafeMatcher window usages subs invs hu hs hi =
      OnOk-collect (SafeUsage is_safe) (λ (e : LinkEdge F). SafeEdge is_safe e) _ usages hu
        (λ u safe. temporal_usage window subs invs u hs hi safe)

  overlap_edge_lem :
      (u : UsageEvent) (to kind notes : Text) (c : F)
      → SafeUsage is_safe u
      → IsSafe is_safe to
      → OnOk
          (λ (e : LinkEdge F). SafeEdge is_safe e)
          (SkuOverlap.overlap_edge f h salt u to kind notes c)
  unfolding SkuOverlap.overlap_edge
  overlap_edge_lem u to kind notes c hu ht =
      OnOk-any (λ (e : LinkEdge F). SafeEdge is_safe e) (generate_proof h salt _) _
        (λ proof. (hu, ht))

  -- A SKU that is among safe identifiers is safe.
  among-IsSafe :
      (sku : Text) (ids : List Text)
      → is_among sku ids ≡ true
      → All (IsSafe is_safe) ids
      → IsSafe is_safe sku
  unfolding is_among
  among-IsSafe sku [] i all = absurd (cc)
  among-IsSafe sku (id ∷ ids) i (here, all) = elim (Bool-cases (eq_text sku id)) [
    | inl eq ↦ subst (λ t. is_safe t ≡ true) (sym (eq_text→eq sku id eq)) here
    | inr ne ↦ among-IsSafe sku ids (ground (arith, i, ne)) all
  ]

  -- A match by price or product is with a safe identifier.
  match_type_lem :
      (sku : Text) (s : SubscriptionLite)
      → SafeSubscription is_safe s
      → (IsSafe is_safe sku) ⊎ (match_type sku s ≡ no_type)
  unfolding match_type
  match_type_lem sku s (hid, hc, hp, hq) = elim (Bool-cases (is_among sku s.price_ids)) [
    | inl by_price ↦ inl (among-IsSafe sku s.price_ids by_price hp)
    | inr not_price ↦ elim (Bool-cases (is_among sku s.product_ids)) [
      | inl by_product ↦ inl (among-IsSafe sku s.product_ids by_product hq)
      | inr not_product ↦ inr (rw not_price (rw not_product refl))
    ]
  ]

  direct_edges_lem :
      (u : UsageEvent) (m : MatchType)
      → SafeUsage is_safe u
      → (IsSafe is_safe u.sku) ⊎ (m ≡ no_type)
      → SafeResult is_safe f h salt (SkuOverlap.direct_edges f h salt u m)
  unfolding SkuOverlap.direct_edges
  direct_edges_lem u no_type hu why = tt
  direct_edges_lem u price hu (inl safe) = one_edge_lem is_safe f h salt _ (
      overlap_edge_lem u u.sku (codes "user->price") (codes "exact SKU-price match") (f.tenths 9) hu
        safe)
  direct_edges_lem u price hu (inr e) = absurd (cc)
  direct_edges_lem u product hu (inl safe) = one_edge_lem is_safe f h salt _ (
      overlap_edge_lem u u.sku (codes "user->product") (codes "exact SKU-product match")
        (f.tenths 9) hu safe)
  direct_edges_lem u product hu (inr e) = absurd (cc)

  sku_subscription :
      (u : UsageEvent) (s : SubscriptionLite)
      → SafeUsage is_safe u
      → SafeSubscription is_safe s
      → SafeResult is_safe f h salt (SkuOverlap.subscription_edges f h salt u s)
  unfolding SkuOverlap.subscription_edges
  sku_subscription u s hu hs =
      then_edges is_safe f h salt (λ (e : LinkEdge F). SafeEdge is_safe e) _ _
        (overlap_edge_lem u s.id (codes "user->subscription") _ (f.tenths 8) hu (hs.0))
        (λ e he.
          then_edges is_safe f h salt (All (λ (e : LinkEdge F). SafeEdge is_safe e)) _ _
            (direct_edges_lem u (match_type u.sku s) hu (match_type_lem u.sku s hs))
            (λ es hes. (he, hes)))

  index_ids_lem :
      (s : SubscriptionLite) (ids : List Text) (m : List (Text × List SubscriptionLite))
      → SafeSubscription is_safe s
      → InLists (SafeSubscription is_safe) m
      → InLists (SafeSubscription is_safe) (index_ids s ids m)
  unfolding index_ids
  index_ids_lem s [] m hs hm = hm
  index_ids_lem s (id ∷ ids) m hs hm =
      index_ids_lem s ids (add_to id s m) hs
        (add_to-InLists (SafeSubscription is_safe) id s m hs hm)

  sku_to_subs_lem :
      (subs : List SubscriptionLite) (m : List (Text × List SubscriptionLite))
      → All (SafeSubscription is_safe) subs
      → InLists (SafeSubscription is_safe) m
      → InLists (SafeSubscription is_safe) (sku_to_subs subs m)
  unfolding sku_to_subs
  sku_to_subs_lem [] m hs hm = hm
  sku_to_subs_lem (s ∷ subs) m (hs, all) hm =
      sku_to_subs_lem subs (index_ids s s.product_ids (index_ids s s.price_ids m)) all (
        index_ids_lem s s.product_ids (index_ids s s.price_ids m) hs
          (index_ids_lem s s.price_ids m hs hm))

  pub sku_overlap-SafeMatcher : SafeMatcher is_safe (SkuOverlap.matcher f h salt)
  unfolding SkuOverlap.matcher SkuOverlap.usage_edges
  sku_overlap-SafeMatcher usages subs invs hu hs hi =
      OnOk-collect (SafeUsage is_safe) (λ (e : LinkEdge F). SafeEdge is_safe e) _ usages hu
        (λ u safe.
          OnOk-collect (SafeSubscription is_safe) (λ (e : LinkEdge F). SafeEdge is_safe e) _
            (list_of u.sku (sku_to_subs subs []))
            (list_of-All (SafeSubscription is_safe) u.sku (sku_to_subs subs [])
              (sku_to_subs_lem subs [] hs tt))
            (λ s hsafe. sku_subscription u s safe hsafe))
