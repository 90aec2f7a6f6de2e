-- ===== src/Matchers/Temporal.antt =====
-- internal/matchers/temporal.go: usage near a subscription or an invoice in time.
use linker_agent.Prelude.{
  ℕ, List, [], ◌∷◌, ◌++◌, Text, codes, if◌then◌else◌, ◌==◌, to_i64, sub64, show_ℤ,
}
use linker_agent.Crypto.{Result, ok, ◌>>=◌, Hashes}
use linker_agent.Matchers.{
  Float, UsageEvent, SubscriptionLite, InvoiceLite, LinkEdge, no_meta, Matcher, abs_i64, within,
  collect, generate_proof,
}

unfoldable pub name : Text
name = codes "temporal_proximity"

module _ (f : Float) (h : Hashes) (window_sec : ℕ) (tenant_salt : Text) where
  open f use {F}

  unfoldable pub calculate_confidence : ℕ → ℕ → F
  calculate_confidence a b =
      let decay = f.div (f.of_i64 (to_i64 (abs_i64 (sub64 a b)))) (f.of_i64 (to_i64 window_sec)) in
      let confidence = f.mul (f.tenths 6) (f.sub f.one decay) in
      let raised = if f.less confidence f.nought then f.nought else confidence in
      if window_sec == 0
      then f.nought
      else if f.less (f.tenths 6) raised
      then f.tenths 6
      else raised

  -- The edges to an object with its creation time.
  unfoldable pub near_edges :
      UsageEvent → (to kind what : Text) → (created_at : ℕ) → Result (List (LinkEdge F))
  near_edges u to kind what created_at =
      let diff = show_ℤ (to_i64 (abs_i64 (sub64 u.at created_at))) in
      if within u.at created_at window_sec
      then (generate_proof h tenant_salt (u.user ∷ to ∷ kind ∷ name ∷ diff ∷ []) >>= λ proof. ok (
          record {
            meta = no_meta;
            from = u.user;
            to = to;
            kind = kind;
            confidence = calculate_confidence u.at created_at;
            proof = proof;
            recipe = codes "temporal_proximity/v1";
            at = u.at;
            notes =
                codes "usage within " ++ (diff ++ (codes "s of " ++ (what ++ codes " creation")));
          }
          ∷ []))
      else ok []

  unfoldable pub usage_edges :
      List SubscriptionLite → List InvoiceLite → UsageEvent → Result (List (LinkEdge F))
  usage_edges subs invs u =
      collect
        (λ (s : SubscriptionLite).
          near_edges u s.id (codes "user->subscription") (codes "subscription") s.created_at)
        subs
      >>= λ es.
          collect
            (λ (i : InvoiceLite).
              near_edges u i.id (codes "user->invoice") (codes "invoice") i.created_at)
            invs
          >>= λ fs. ok (es ++ fs)

  unfoldable pub matcher : Matcher F
  matcher = record {
    name = name;
    match_all = λ usages subs invs. collect (usage_edges subs invs) usages;
  }
