-- ===== src/Matchers/SkuOverlap.antt =====
-- internal/matchers/sku_overlap.go: usage of a price or a product of a subscription.
use linker_agent.Prelude.{
  Bool, true, false, List, [], ◌∷◌, ◌++◌, Text, codes, eq_text, if◌then◌else◌,
}
use linker_agent.Crypto.{Result, ok, ◌>>=◌, Hashes}
use linker_agent.Matchers.{
  Float, UsageEvent, SubscriptionLite, LinkEdge, no_meta, Matcher, collect, add_to, list_of,
  generate_proof,
}

unfoldable pub name : Text
name = codes "sku_overlap"

unfoldable pub index_ids :
    SubscriptionLite
    → List Text
    → List (Text × List SubscriptionLite)
    → List (Text × List SubscriptionLite)
index_ids s [] m = m
index_ids s (id ∷ ids) m = index_ids s ids (add_to id s m)

unfoldable pub sku_to_subs :
    List SubscriptionLite
    → List (Text × List SubscriptionLite)
    → List (Text × List SubscriptionLite)
sku_to_subs [] m = m
sku_to_subs (s ∷ ss) m = sku_to_subs ss (index_ids s s.product_ids (index_ids s s.price_ids m))

unfoldable pub is_among : Text → List Text → Bool
is_among id [] = false
is_among id (x ∷ xs) = let rest = is_among id xs in if eq_text id x then true else rest

-- The type of a match.
pub data MatchType : Type 0 where
  price product no_type : MatchType

unfoldable pub match_type : Text → SubscriptionLite → MatchType
match_type sku s =
    if is_among sku s.price_ids
    then price
    else if is_among sku s.product_ids
    then product
    else no_type

unfoldable pub type_text : MatchType → Text
type_text price = codes "price"
type_text product = codes "product"
type_text no_type = []

module _ (f : Float) (h : Hashes) (tenant_salt : Text) where
  open f use {F}

  unfoldable pub overlap_edge : UsageEvent → (to kind notes : Text) → F → Result (LinkEdge F)
  overlap_edge u to kind notes confidence =
      generate_proof h tenant_salt (u.user ∷ to ∷ kind ∷ name ∷ u.sku ∷ []) >>= λ proof.
      ok (record {
        meta = no_meta;
        from = u.user;
        to = to;
        kind = kind;
        confidence = confidence;
        proof = proof;
        recipe = codes "sku_overlap/v1";
        at = u.at;
        notes = notes;
      })

  -- The edge to the price or the product itself.
  unfoldable pub direct_edges : UsageEvent → MatchType → Result (List (LinkEdge F))
  direct_edges u price =
      overlap_edge u u.sku (codes "user->price") (codes "exact SKU-price match") (f.tenths 9)
      >>= λ e. ok (e ∷ [])
  direct_edges u product =
      overlap_edge u u.sku (codes "user->product") (codes "exact SKU-product match") (f.tenths 9)
      >>= λ e. ok (e ∷ [])
  direct_edges u no_type = ok []

  unfoldable pub subscription_edges : UsageEvent → SubscriptionLite → Result (List (LinkEdge F))
  subscription_edges u s =
      overlap_edge u s.id (codes "user->subscription")
        (codes "SKU matched subscription " ++ type_text (match_type u.sku s)) (f.tenths 8)
      >>= λ e. direct_edges u (match_type u.sku s) >>= λ es. ok (e ∷ es)

  unfoldable pub usage_edges :
      List (Text × List SubscriptionLite) → UsageEvent → Result (List (LinkEdge F))
  usage_edges m u = collect (subscription_edges u) (list_of u.sku m)

  unfoldable pub matcher : Matcher F
  matcher = record {
    name = name;
    match_all = λ usages subs invs. collect (usage_edges (sku_to_subs subs [])) usages;
  }
