-- ===== src/Webhook/Events/Laws.antt =====
-- What processing an event exports.
use linker_agent.Prelude.{
  ℕ, ◌≡◌, refl, sym, subst, inl, inr, List, [], ◌∷◌, Option, none, some, Text, All, Option-cases,
  length, arith,
}
use linker_agent.Crypto.{Hashes, ok}
use linker_agent.Matchers.{Float, SubscriptionLite, InvoiceLite, LinkEdge, Matcher, Recipe, collect}
use linker_agent.Matchers.Deterministic as Deterministic
use linker_agent.Matchers.Temporal as Temporal
use linker_agent.Matchers.SkuOverlap as SkuOverlap
use linker_agent.Matchers.Ensemble.{Shuffles, combine}
use linker_agent.Exporter.Options.{Exporter}
use linker_agent.Pipeline.{
  Inputs, InputError, validate_inputs, Stats, result, failed, invalid_inputs, set_count,
  run_matchers, classify, export_edges, export_all, run,
}
use linker_agent.Pipeline.Laws.{IsBuiltIn}
use linker_agent.Stripe.{
  RawSubscription, RawInvoice, Outcome, done, panicked, sanitize_subscription, sanitize_invoice,
  to_subscription_lite, to_invoice_lite,
}
use linker_agent.Stripe as Stripe
use linker_agent.Webhook.Events.{
  Handled, handled, errored, crashed, sanitize_failed, report, run_pipeline, process_invoice_event,
  process_subscription_event,
}

module _ (f : Float) where
  open f use {F}

  -- Without usage a matcher of the agent finds nothing.
  built_in_idle :
      (h : Hashes) (m : Matcher F)
      → IsBuiltIn f h m
      → (subs : List SubscriptionLite) (invs : List InvoiceLite) → m.match_all [] subs invs ≡ ok []
  unfolding Deterministic.matcher Temporal.matcher SkuOverlap.matcher collect
  built_in_idle h m (inl (salt, id_mode, e)) subs invs =
      subst (λ (m : Matcher F). m.match_all [] subs invs ≡ ok []) (sym e) refl
  built_in_idle h m (inr (inl (window, salt, e))) subs invs =
      subst (λ (m : Matcher F). m.match_all [] subs invs ≡ ok []) (sym e) refl
  built_in_idle h m (inr (inr (salt, e))) subs invs =
      subst (λ (m : Matcher F). m.match_all [] subs invs ≡ ok []) (sym e) refl

  run_matchers_idle :
      (h : Hashes) (ms : List (Matcher F))
      → All (IsBuiltIn f h) ms
      → (subs : List SubscriptionLite) (invs : List InvoiceLite) (counts : List (Text × ℕ))
      → (counts' : List (Text × ℕ)) × (run_matchers f ms
            (record { usages = []; subs = subs; invs = invs })
            counts
            []
          ≡ result (counts', []))
  unfolding run_matchers
  run_matchers_idle h [] all subs invs counts = (counts, refl)
  run_matchers_idle h (m ∷ ms) (here, all) subs invs counts =
      rw (built_in_idle h m here subs invs)
        (run_matchers_idle h ms all subs invs (set_count m.name 0 counts))

  module _ (to_json : LinkEdge F → Option Text) (h : Hashes) (salt : Text) (sh : Shuffles f)
      (recipe : Recipe F) (ms : List (Matcher F)) where
    export_none : (x : Option Exporter) → export_all f to_json x [] ≡ (x, none)
    unfolding export_all export_edges
    export_none none = refl
    export_none (some x) = refl

    -- The exporter is as before, and no edge was found or exported.
    abbrev pub ExportsNothing : Option Exporter → Option Exporter × Handled → Type 0
    ExportsNothing x (x', handled st) =
        (x' ≡ x) × (st.raw_edges ≡ 0) × (st.accepted_edges ≡ 0) × (st.exported_edges ≡ 0)
    ExportsNothing x (x', errored e) = x' ≡ x
    ExportsNothing x (x', crashed) = x' ≡ x

    run_invalid :
        (x : Option Exporter) (inp : Inputs) (e : InputError)
        → validate_inputs inp ≡ some e
        → run f to_json h sh recipe salt ms x inp ≡ (x, failed (invalid_inputs e))
    unfolding run
    run_invalid x inp e bad = ground (arith, bad)

    abbrev idle_stats : Inputs → List (Text × ℕ) → Stats
    idle_stats inp counts = record {
      usage_events = length inp.usages;
      subscriptions = length inp.subs;
      invoices = length inp.invs;
      raw_edges = 0;
      accepted_edges = 0;
      exported_edges = 0;
      matcher_stats = counts;
      high_confidence = 0;
      medium_confidence = 0;
      low_confidence = 0;
    }

    run_idle :
        (x : Option Exporter) (inp : Inputs) (counts : List (Text × ℕ))
        → validate_inputs inp ≡ none
        → run_matchers f ms inp [] [] ≡ result (counts, [])
        → run f to_json h sh recipe salt ms x inp ≡ (x, result ([], idle_stats inp counts))
    unfolding run combine classify export_all export_edges
    run_idle none inp counts good found = ground (arith, good, found)
    run_idle (some x) inp counts good found = ground (arith, good, found)

    run_pipeline_idle :
        All (IsBuiltIn f h) ms
        → (x : Option Exporter) (subs : List SubscriptionLite) (invs : List InvoiceLite)
        → ExportsNothing x (run_pipeline f to_json h salt sh recipe ms x subs invs)
    unfolding run_pipeline
    run_pipeline_idle built x subs invs =
        let inp : Inputs = record { usages = []; subs = subs; invs = invs } in
        elim (Option-cases (validate_inputs inp)) [
          | inr (e, bad) ↦
              subst (λ r. ExportsNothing x (report f to_json h salt sh recipe ms r))
                (sym (run_invalid x inp e bad)) refl
          | inl good ↦
              let (counts, found) = run_matchers_idle h ms built subs invs [] in
              subst (λ r. ExportsNothing x (report f to_json h salt sh recipe ms r))
                (sym (run_idle x inp counts good found)) (refl, refl, refl, refl)
        ]

-- An event that brings an invoice or a subscription, with matchers of the agent: whatever it is, the exporter is as
-- before, and where the processing succeeds its counts are of no edge found, accepted or exported.
pub process_event_idle :
    (f : Float) (to_json : LinkEdge f.F → Option Text) (h : Hashes) (salt : Text) (sh : Shuffles f)
    (recipe : Recipe f.F) (ms : List (Matcher f.F))
    → All (IsBuiltIn f h) ms
    → (x : Option Exporter) (inv : Option RawInvoice) (sub : Option RawSubscription)
    → ExportsNothing f to_json h salt sh recipe ms x
        (process_invoice_event f to_json h salt sh recipe ms x inv)
      × ExportsNothing f to_json h salt sh recipe ms x
          (process_subscription_event f to_json h salt sh recipe ms x sub)
unfolding process_invoice_event process_subscription_event
process_event_idle f to_json h salt sh recipe ms built x inv sub = (invoice inv, subscription sub)
  where
    idle :
        (subs : List SubscriptionLite) (invs : List InvoiceLite)
        → ExportsNothing f to_json h salt sh recipe ms x
            (run_pipeline f to_json h salt sh recipe ms x subs invs)
    idle = run_pipeline_idle f to_json h salt sh recipe ms built x

    invoice :
        (o : Option RawInvoice)
        → ExportsNothing f to_json h salt sh recipe ms x
            (process_invoice_event f to_json h salt sh recipe ms x o)
    invoice none = refl
    invoice (some raw) = go (sanitize_invoice h salt raw)
      where
        go :
            (r : Outcome Stripe.Invoice)
            → ExportsNothing f to_json h salt sh recipe ms x (elim r [
              | Stripe.done i ↦
                  run_pipeline f to_json h salt sh recipe ms x [] (to_invoice_lite i ∷ [])
              | Stripe.failed e ↦ (x, errored (sanitize_failed e))
              | Stripe.panicked ↦ (x, crashed)
            ])
        go (done i) = idle [] (to_invoice_lite i ∷ [])
        go (Stripe.failed e) = refl
        go panicked = refl

    subscription :
        (o : Option RawSubscription)
        → ExportsNothing f to_json h salt sh recipe ms x
            (process_subscription_event f to_json h salt sh recipe ms x o)
    subscription none = refl
    subscription (some raw) = go (sanitize_subscription h salt raw)
      where
        go :
            (r : Outcome Stripe.Subscription)
            → ExportsNothing f to_json h salt sh recipe ms x (elim r [
              | Stripe.done s ↦
                  run_pipeline f to_json h salt sh recipe ms x (to_subscription_lite s ∷ []) []
              | Stripe.failed e ↦ (x, errored (sanitize_failed e))
              | Stripe.panicked ↦ (x, crashed)
            ])
        go (done s) = idle (to_subscription_lite s ∷ []) []
        go (Stripe.failed e) = refl
        go panicked = refl
