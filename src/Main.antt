-- ===== src/Main.antt =====
-- main.go: the two batch modes, from Stripe's objects to the exporter and the pipeline.
pub mod Laws
pub mod Server
mod Tests
use linker_agent.Prelude.{
  ℕ, suc, ◌*◌, Bool, true, false, List, [], ◌∷◌, ◌++◌, Option, none, some, Text, codes, eq_text,
  if◌then◌else◌, leb, add64, sub64, map,
}
use linker_agent.Crypto.{Hashes}
use linker_agent.Matchers.{Float, UsageEvent, LinkEdge, Matcher, Recipe}
use linker_agent.Matchers.Deterministic as Deterministic
use linker_agent.Matchers.Temporal as Temporal
use linker_agent.Matchers.SkuOverlap as SkuOverlap
use linker_agent.Matchers.Ensemble.{Shuffles}
use linker_agent.Exporter.Options.{Exporter, enqueue}
use linker_agent.Pipeline.{Inputs, Stats, RunResult, run}
use linker_agent.Stripe.{
  RawSubscription, RawInvoice, SubItem, Subscription, Invoice, Outcome, done, failed, panicked,
  ◌>>=◌, sanitize_subscription, sanitize_invoice, to_subscription_lites, to_invoice_lites,
}

-- The loop that sanitizes: an object that fails is skipped.
unfoldable pub sanitize_all {ℓ} :
    {A : Type ℓ} {B : Type 0} → (A → Outcome B) → List A → Outcome (List B)
sanitize_all f [] = done []
sanitize_all f (x ∷ xs) = elim (f x) [
  | done y ↦ sanitize_all f xs >>= λ ys. done (y ∷ ys)
  | failed e ↦ sanitize_all f xs
  | panicked ↦ panicked
]

-- The loop that exports billing records by their JSON: an error is only logged.
unfoldable pub enqueue_all : Exporter → (stream : Text) → List (Option Text) → Exporter
enqueue_all x stream [] = x
enqueue_all x stream (payload ∷ rest) = enqueue_all ((enqueue x stream payload).0) stream rest

-- The events of the i-th subscription.
unfoldable pub seed_one : ℕ → Subscription → List UsageEvent
seed_one i s = elim s.items [
  | [] ↦ []
  | item ∷ _ ↦
      record {
        user = s.customer;
        feature = codes "export_csv";
        sku = item.price_id;
        at = add64 s.created_at (i * 60);
      }
      ∷ (if eq_text item.product_id []
          then []
          else record {
            user = s.customer;
            feature = codes "api_call";
            sku = item.product_id;
            at = add64 s.created_at (i * 120);
          }
            ∷ [])
]

unfoldable pub seed_from : ℕ → List Subscription → List UsageEvent
seed_from i [] = []
seed_from i (s ∷ ss) =
    let rest = seed_from (suc i) ss in if leb 5 i then [] else seed_one i s ++ rest

unfoldable pub seed_usage : (now : ℕ) → List Subscription → List UsageEvent
seed_usage now ss = elim (seed_from 0 ss) [
  | [] ↦
      record {
        user = codes "syn_cust_fallback";
        feature = codes "export_csv";
        sku = codes "syn_price_fallback";
        at = sub64 now 600;
      }
      ∷ []
  | e ∷ es ↦ e ∷ es
]

unfoldable pub inputs_of : (now : ℕ) → List Subscription → List Invoice → Inputs
inputs_of now subs invs = record {
  usages = seed_usage now subs;
  subs = to_subscription_lites subs;
  invs = to_invoice_lites invs;
}

-- The JSON of what is exported.
pub record Json (F : Type 0) : Type 0 where
  pub edge : LinkEdge F → Option Text
  pub subscription : Subscription → Option Text
  pub invoice : Invoice → Option Text

module _ (f : Float) (j : Json f.F) (h : Hashes) (salt : Text) where
  open f use {F}

  unfoldable pub enqueue_billing : Exporter → List Subscription → List Invoice → Exporter
  enqueue_billing x subs invs =
      enqueue_all (enqueue_all x (codes "billing") (map j.subscription subs)) (codes "billing")
        (map j.invoice invs)

  -- `runBillingExportMode`, between the lists of Stripe and the shutdown of the exporter.
  unfoldable pub run_billing_export :
      Exporter → List RawSubscription → List RawInvoice → Outcome Exporter
  run_billing_export x raw_subs raw_invs = do
    subs ← sanitize_all (sanitize_subscription h salt) raw_subs
    invs ← sanitize_all (sanitize_invoice h salt) raw_invs
    done (enqueue_billing x subs invs)

  unfoldable pub ensemble_of : Recipe F → List (Matcher F)
  ensemble_of recipe =
      Deterministic.matcher f h salt (codes "strict")
      ∷ Temporal.matcher f h recipe.temporal_window_sec salt
      ∷ SkuOverlap.matcher f h salt
      ∷ []

  -- `runMatcherPipeline`, likewise.
  unfoldable pub run_matcher_pipeline :
      Shuffles f
      → Recipe F
      → (now : ℕ) → Exporter
      → List RawSubscription
      → List RawInvoice
      → Outcome (Option Exporter × RunResult (List (LinkEdge F) × Stats))
  run_matcher_pipeline sh recipe now x raw_subs raw_invs = do
    subs ← sanitize_all (sanitize_subscription h salt) raw_subs
    invs ← sanitize_all (sanitize_invoice h salt) raw_invs
    done (
        run f j.edge h sh recipe salt (ensemble_of recipe) (some (enqueue_billing x subs invs))
          (inputs_of now subs invs))
