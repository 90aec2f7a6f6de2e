-- ===== src/Pipeline/Tests.antt =====
-- A run with the deterministic matcher at a concrete input, and the theorem about runs applied there.
use mathlib.Core.List.Permᴰ
use linker_agent.Prelude.{
  ℕ, ◌≡◌, refl, inl, Text, List, [], ◌∷◌, Option, none, some, codes, eq_text, lookup, has_prefix,
  show_from,
}
use linker_agent.Matchers.{
  LinkEdge, no_meta, Matcher, Recipe, add_to, collect, generate_proof, less_i64, list_of,
}
use linker_agent.Matchers.Ensemble.{
  accept, add_edge, add_evidence, before, before_slash, best_edge, calculate_weighted_score,
  combine, consolidate, consolidate_notes, generate_combined_proof, group_edges, has_key, has_slash,
  insert_by, is_in, less_text, matcher_name, raise_score, same_key, scores, select_best_proof,
  sort_by, start_evidence, total, unique, update_key,
}
use linker_agent.Crypto.{hex_digit, hex_encode, hmac_sha256_hex, join}
use linker_agent.Matchers.Tests.{percent, in_order, toy}
use linker_agent.Matchers.Deterministic.{
  subscription_edges, exact_edge, invoice_edges, invs_by_customer, name, sku_edges,
  subs_by_customer, usage_edges, matcher,
}
use linker_agent.Exporter.Options.{Exporter}
use linker_agent.Pipeline.{
  Inputs, Stats, RunResult, result, failed, usage_user, invalid_inputs, classify, export_all, run,
  run_matchers, set_count, validate_ids, validate_inputs, validate_invs, validate_subs,
  validate_usages, is_synthetic_id,
}
use linker_agent.Pipeline.Laws.{RunIsSound, run_lem}

abbrev recipe : Recipe ℕ
recipe = record {
  name = codes "ensemble";
  version = codes "v1";
  weights = (codes "deterministic_id", 100) ∷ [];
  threshold = 50;
  temporal_window_sec = 3600;
  sku_overlap_min = 50;
}

abbrev to_json : LinkEdge ℕ → Option Text
to_json e = some e.proof

abbrev inputs : Inputs
inputs = record {
  usages = record { user = codes "syn_u"; feature = []; sku = []; at = 5 } ∷ [];
  subs =
      record {
        id = codes "syn_s";
        customer = codes "syn_u";
        price_ids = [];
        product_ids = [];
        created_at = 4;
        status = codes "active";
      }
      ∷ [];
  invs = [];
}

abbrev raw_inputs : Inputs
raw_inputs = record inputs {
  usages = record { user = codes "cus_u"; feature = []; sku = []; at = 5 } ∷ [];
}

abbrev matchers : List (Matcher ℕ)
matchers = matcher percent toy (codes "salt") (codes "strict") ∷ []

abbrev run_of : Inputs → Option Exporter × RunResult (List (LinkEdge ℕ) × Stats)
run_of inp = run percent to_json toy in_order recipe (codes "salt") matchers none inp

abbrev linked : LinkEdge ℕ
linked = record {
  meta = no_meta;
  from = codes "syn_u";
  to = codes "syn_s";
  kind = codes "user->subscription";
  confidence = 100;
  proof = codes "01";
  recipe = codes "ensemble/v1";
  at = 5;
  notes = codes "exact customer ID match (score=100)";
}

abbrev stats : Stats
stats = record {
  usage_events = 1;
  subscriptions = 1;
  invoices = 0;
  raw_edges = 1;
  accepted_edges = 1;
  exported_edges = 0;
  matcher_stats = (codes "deterministic_id", 1) ∷ [];
  high_confidence = 1;
  medium_confidence = 0;
  low_confidence = 0;
}

-- An identifier of the platform is refused.
run_raw : run_of raw_inputs ≡ (none, failed (invalid_inputs (usage_user 0)))
unfolding run validate_inputs validate_usages is_synthetic_id has_prefix
run_raw = refl

run_synthetic : run_of inputs ≡ (none, result (linked ∷ [], stats))
unfolding classify export_all run run_matchers set_count validate_ids validate_inputs validate_invs
    validate_subs validate_usages is_synthetic_id add_to collect generate_proof less_i64 list_of
    subscription_edges exact_edge invoice_edges invs_by_customer name sku_edges subs_by_customer
    usage_edges matcher accept add_edge add_evidence before before_slash best_edge
    calculate_weighted_score combine consolidate consolidate_notes generate_combined_proof
    group_edges has_key has_slash insert_by is_in less_text matcher_name raise_score same_key scores
    select_best_proof sort_by start_evidence total unique update_key hex_digit hex_encode
    hmac_sha256_hex join eq_text lookup has_prefix show_from
run_synthetic = refl

run_lem_example : RunIsSound (linked ∷ [], stats)
run_lem_example =
    run_lem percent to_json toy in_order recipe (codes "salt") Permᴰ.refl matchers
      (inl (codes "salt", codes "strict", refl), tt) none none inputs (linked ∷ []) stats
      run_synthetic
