-- ===== src/Webhook/Events/Tests.antt =====
-- An invoice and a subscription without usage, and the theorem about events applied there.
use linker_agent.Prelude.{ℕ, refl, inl, Text, List, [], ◌∷◌, Option, none, some, codes}
use linker_agent.Matchers.{LinkEdge, Matcher, Recipe}
use linker_agent.Matchers.Deterministic as Deterministic
use linker_agent.Matchers.Tests.{percent, in_order, toy}
use linker_agent.Stripe.{RawSubscription, RawInvoice}
use linker_agent.Webhook.Events.{process_invoice_event, process_subscription_event}
use linker_agent.Webhook.Events.Laws.{ExportsNothing, process_event_idle}

abbrev recipe : Recipe ℕ
recipe = record {
  name = codes "default";
  version = codes "v1";
  weights = [];
  threshold = 50;
  temporal_window_sec = 3600;
  sku_overlap_min = 50;
}

abbrev to_json : LinkEdge ℕ → Option Text
to_json e = some e.proof

abbrev matchers : List (Matcher ℕ)
matchers = Deterministic.matcher percent toy (codes "salt") (codes "strict") ∷ []

abbrev invoice : RawInvoice
invoice = record {
  id = codes "in_1";
  customer = some (codes "cus_1");
  status = codes "paid";
  total = 100;
  currency = codes "usd";
  created = 5;
  lines = none;
}

abbrev subscription : RawSubscription
subscription = record {
  id = codes "sub_1";
  customer = some (codes "cus_1");
  status = codes "active";
  items = some [];
  created = 5;
}

process_event_idle_example :
    ExportsNothing percent to_json toy (codes "salt") in_order recipe matchers none (
      process_invoice_event percent to_json toy
        (codes "salt")
        in_order
        recipe
        matchers
        none
        (some invoice))
    × ExportsNothing percent to_json toy (codes "salt") in_order recipe matchers none (
        process_subscription_event percent to_json toy
          (codes "salt")
          in_order
          recipe
          matchers
          none
          (some subscription))
process_event_idle_example =
    process_event_idle percent to_json toy (codes "salt") in_order recipe matchers
      (inl (codes "salt", codes "strict", refl), tt) none (some invoice) (some subscription)
