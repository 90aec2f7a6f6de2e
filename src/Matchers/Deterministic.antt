-- ===== src/Matchers/Deterministic.antt =====
-- internal/matchers/deterministic.go: exact joins on the customer's identifier.
use linker_agent.Prelude.{List, [], ◌∷◌, ◌++◌, Text, codes, eq_text, if◌then◌else◌}
use linker_agent.Crypto.{Result, ok, ◌>>=◌, Hashes}
use linker_agent.Matchers.{
  Float, UsageEvent, SubscriptionLite, InvoiceLite, LinkEdge, Matcher, collect, add_to, list_of,
  generate_proof,
}

unfoldable pub name : Text
name = codes "deterministic_id"

unfoldable pub subs_by_customer :
    List SubscriptionLite
    → List (Text × List SubscriptionLite)
    → List (Text × List SubscriptionLite)
subs_by_customer [] m = m
subs_by_customer (s ∷ ss) m = subs_by_customer ss (add_to s.customer s m)

unfoldable pub invs_by_customer :
    List InvoiceLite → List (Text × List InvoiceLite) → List (Text × List InvoiceLite)
invs_by_customer [] m = m
invs_by_customer (i ∷ is) m = invs_by_customer is (add_to i.customer i m)

-- `id_mode` is the mapper's mode, "strict" without one.
module _ (f : Float) (h : Hashes) (tenant_salt : Text) (id_mode : Text) where
  open f use {F}

  unfoldable pub exact_edge : UsageEvent → (to kind notes : Text) → Result (LinkEdge F)
  exact_edge u to kind notes =
      generate_proof h tenant_salt (u.user ∷ to ∷ kind ∷ name ∷ u.sku ∷ id_mode ∷ []) >>= λ proof.
      ok (record {
        meta = record { schema = codes "connektn.edge.v1"; id_mode = id_mode };
        from = u.user;
        to = to;
        kind = kind;
        confidence = f.one;
        proof = proof;
        recipe = codes "deterministic_id/v1";
        at = u.at;
        notes = notes;
      })

  -- An edge to an identifier that is the event's SKU.
  unfoldable pub sku_edges :
      UsageEvent → (kind notes : Text) → (id : Text) → Result (List (LinkEdge F))
  sku_edges u kind notes id =
      if eq_text u.sku id then (exact_edge u id kind notes >>= λ e. ok (e ∷ [])) else ok []

  unfoldable pub subscription_edges : UsageEvent → SubscriptionLite → Result (List (LinkEdge F))
  subscription_edges u s =
      exact_edge u s.id (codes "user->subscription") (codes "exact customer ID match") >>= λ e.
      collect (sku_edges u (codes "user->price") (codes "exact SKU-price match")) s.price_ids
      >>= λ prices.
          collect (sku_edges u (codes "user->product") (codes "exact SKU-product match"))
            s.product_ids
          >>= λ products. ok (e ∷ (prices ++ products))

  unfoldable pub invoice_edges : UsageEvent → InvoiceLite → Result (List (LinkEdge F))
  invoice_edges u i =
      exact_edge u i.id (codes "user->invoice") (codes "exact customer ID match") >>= λ e.
      ok (e ∷ [])

  unfoldable pub usage_edges :
      List (Text × List SubscriptionLite)
      → List (Text × List InvoiceLite)
      → UsageEvent
      → Result (List (LinkEdge F))
  usage_edges subs invs u = collect (subscription_edges u) (list_of u.user subs) >>= λ es.
      collect (invoice_edges u) (list_of u.user invs) >>= λ fs. ok (es ++ fs)

  unfoldable pub matcher : Matcher F
  matcher = record {
    name = name;
    match_all = λ usages subs invs.
        collect (usage_edges (subs_by_customer subs []) (invs_by_customer invs [])) usages;
  }
