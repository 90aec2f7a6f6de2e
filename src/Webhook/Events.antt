-- ===== src/Webhook/Events.antt =====
-- internal/ingest/stripewebhook/worker.go: the processing of one event, through the pipeline.
pub mod Laws
mod Tests
use linker_agent.Prelude.{ℕ, List, [], ◌∷◌, Option, none, some, Text}
use linker_agent.Crypto.{Hashes}
use linker_agent.Crypto as Crypto
use linker_agent.Matchers.{Float, SubscriptionLite, InvoiceLite, LinkEdge, Matcher, Recipe}
use linker_agent.Matchers.Ensemble.{Shuffles}
use linker_agent.Exporter.Options.{Exporter}
use linker_agent.Pipeline.{Inputs, Stats, RunError, RunResult, result, failed, run}
use linker_agent.Stripe.{
  RawSubscription, RawInvoice, Outcome, done, panicked, sanitize_subscription, sanitize_invoice,
  to_subscription_lite, to_invoice_lite,
}
use linker_agent.Stripe as Stripe

pub data EventError : Type 0 where
  fetch_failed : EventError
  sanitize_failed : Crypto.Error → EventError
  pipeline_failed : RunError → EventError

pub data Handled : Type 0 where
  handled : Stats → Handled
  errored : EventError → Handled
  crashed : Handled

-- The object is what the client fetches, `none` if it fails.
module _ (f : Float) (to_json : LinkEdge f.F → Option Text) (h : Hashes) (salt : Text)
    (sh : Shuffles f) (recipe : Recipe f.F) (ms : List (Matcher f.F)) where
  open f use {F}

  abbrev pub report :
      Option Exporter × RunResult (List (LinkEdge F) × Stats) → Option Exporter × Handled
  report (x, result (edges, st)) = (x, handled st)
  report (x, failed e) = (x, errored (pipeline_failed e))

  unfoldable pub run_pipeline :
      Option Exporter → List SubscriptionLite → List InvoiceLite → Option Exporter × Handled
  run_pipeline x subs invs =
      report
        (run f to_json h sh recipe salt ms x (record { usages = []; subs = subs; invs = invs }))

  unfoldable pub process_invoice_event :
      Option Exporter → Option RawInvoice → Option Exporter × Handled
  process_invoice_event x none = (x, errored fetch_failed)
  process_invoice_event x (some raw) = elim (sanitize_invoice h salt raw) [
    | done i ↦ run_pipeline x [] (to_invoice_lite i ∷ [])
    | Stripe.failed e ↦ (x, errored (sanitize_failed e))
    | panicked ↦ (x, crashed)
  ]

  unfoldable pub process_subscription_event :
      Option Exporter → Option RawSubscription → Option Exporter × Handled
  process_subscription_event x none = (x, errored fetch_failed)
  process_subscription_event x (some raw) = elim (sanitize_subscription h salt raw) [
    | done s ↦ run_pipeline x (to_subscription_lite s ∷ []) []
    | Stripe.failed e ↦ (x, errored (sanitize_failed e))
    | panicked ↦ (x, crashed)
  ]
