-- ===== src/Main/Tests.antt =====
-- A subscription and an invoice of Stripe, and the theorem about the batch mode applied there.
use mathlib.Core.List.Permᴰ
use linker_agent.Prelude.{ℕ, true, List, [], ◌∷◌, Option, none, some, codes, pos}
use linker_agent.Matchers.{LinkEdge, Recipe}
use linker_agent.Matchers.Tests.{percent, in_order, toy}
use linker_agent.Exporter.Options.{Exporter}
use linker_agent.Pipeline.{Stats, RunResult, run}
use linker_agent.Stripe.{RawSubscription, RawInvoice, Subscription, Invoice}
use linker_agent.Main.{enqueue_billing, Json, ensemble_of, inputs_of}

abbrev recipe : Recipe ℕ
recipe = record {
  name = codes "default";
  version = codes "v1";
  weights = [];
  threshold = 50;
  temporal_window_sec = 3600;
  sku_overlap_min = 50;
}

abbrev json : Json ℕ
json = record { edge = λ e. some e.proof; subscription = λ s. some s.id; invoice = λ i. some i.id }

abbrev exporter : Exporter
exporter = record {
  cfg = record {
    mode = codes "http";
    batch_size = pos 50;
    flush_every = pos 5;
    max_retries = pos 3;
    base_url = [];
    routes = [];
    authorization_env = [];
    paths = [];
  };
  tenant_key = codes "t";
  streams = [];
  batch_size = 50;
  flush_every = pos 5;
  max_retries = 3;
}

abbrev raw_subscription : RawSubscription
raw_subscription = record {
  id = codes "sub_1";
  customer = some (codes "cus_1");
  status = codes "active";
  items = some (
      record { price = some (record { id = codes "price_1"; product = none }); quantity = 1 } ∷ []);
  created = 1700000000;
}

abbrev raw_invoice : RawInvoice
raw_invoice = record {
  id = codes "in_1";
  customer = some (codes "cus_1");
  status = codes "paid";
  total = 100;
  currency = codes "usd";
  created = 1700000100;
  lines = some (some (codes "sub_1") ∷ []);
}

abbrev subscription : Subscription
subscription = record {
  id = codes "syn_sub_01";
  customer = codes "syn_cust_01";
  status = codes "active";
  items = record { price_id = codes "syn_price_01"; product_id = []; quantity = 1 } ∷ [];
  created_at = 1700000000;
}

abbrev invoice : Invoice
invoice = record {
  id = codes "syn_inv_01";
  customer = codes "syn_cust_01";
  subscription = codes "syn_sub_01";
  total = 100;
  currency = codes "usd";
  status = codes "paid";
  created_at = 1700000100;
  paid = true;
}

abbrev out : Option Exporter × RunResult (List (LinkEdge ℕ) × Stats)
out =
    run percent json.edge toy in_order recipe (codes "salt")
      (ensemble_of percent json toy (codes "salt") recipe)
      (some (
        enqueue_billing percent json toy (codes "salt") exporter (subscription ∷ [])
          (invoice ∷ [])))
      (inputs_of 1700000200 (subscription ∷ []) (invoice ∷ []))
