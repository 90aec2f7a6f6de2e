-- ===== src/Pipeline.antt =====
-- internal/pipeline: validated inputs through all matchers and the ensemble into the exporter.

pub mod Validate
pub mod Combined
pub mod Laws
pub mod Valid
mod Tests
use linker_agent.Prelude.{
  ℕ, suc, Bool, true, false, not, ◌&&◌, ◌||◌, List, [], ◌∷◌, ◌++◌, Option, none, some, Text, codes,
  eq_text, if◌then◌else◌, has_prefix, is_nonpos, to_i64, length,
}
use linker_agent.Crypto.{Error, Result, ok, err, Hashes}
use linker_agent.Matchers.{
  Float, UsageEvent, SubscriptionLite, InvoiceLite, LinkEdge, Matcher, Recipe,
}
use linker_agent.Matchers.Ensemble.{Shuffles, combine}
use linker_agent.Exporter.Options.{Exporter, enqueue}
use linker_agent.Exporter.Options as Options

pub record Inputs : Type 0 where
  pub usages : List UsageEvent
  pub subs : List SubscriptionLite
  pub invs : List InvoiceLite

-- The errors of `validateInputs`, with the indices they name.
pub data InputError : Type 0 where
  usage_user usage_at sub_id sub_customer inv_id inv_customer inv_subscription : ℕ → InputError
  sub_price sub_product : ℕ → ℕ → InputError

-- `isSyntheticID`.
unfoldable pub is_synthetic_id : Text → Bool
is_synthetic_id id = has_prefix (codes "syn_") id

unfoldable pub validate_usages : ℕ → List UsageEvent → Option InputError
validate_usages i [] = none
validate_usages i (u ∷ us) =
    let rest = validate_usages (suc i) us in
    if not (is_synthetic_id u.user)
    then some (usage_user i)
    else if is_nonpos (to_i64 u.at)
    then some (usage_at i)
    else rest

unfoldable pub validate_ids : (ℕ → InputError) → ℕ → List Text → Option InputError
validate_ids error j [] = none
validate_ids error j (id ∷ ids) =
    let rest = validate_ids error (suc j) ids in
    if not (is_synthetic_id id) then some (error j) else rest

-- The first of two checks that fails.
abbrev pub first_error {ℓ} : {E : Type ℓ} → Option E → Option E → Option E
first_error (some e) _ = some e
first_error none next = next

unfoldable pub validate_subs : ℕ → List SubscriptionLite → Option InputError
validate_subs i [] = none
validate_subs i (s ∷ ss) =
    let rest = validate_subs (suc i) ss in
    if not (is_synthetic_id s.id)
    then some (sub_id i)
    else if not (is_synthetic_id s.customer)
    then some (sub_customer i)
    else first_error (validate_ids (sub_price i) 0 s.price_ids)
        (first_error (validate_ids (sub_product i) 0 s.product_ids) rest)

unfoldable pub validate_invs : ℕ → List InvoiceLite → Option InputError
validate_invs i [] = none
validate_invs i (v ∷ vs) =
    let rest = validate_invs (suc i) vs in
    if not (is_synthetic_id v.id)
    then some (inv_id i)
    else if not (is_synthetic_id v.customer)
    then some (inv_customer i)
    else if not (eq_text v.subscription []) && not (is_synthetic_id v.subscription)
    then some (inv_subscription i)
    else rest

unfoldable pub validate_inputs : Inputs → Option InputError
validate_inputs inp =
    first_error (validate_usages 0 inp.usages)
      (first_error (validate_subs 0 inp.subs) (validate_invs 0 inp.invs))

-- The map of counts by matcher: an entry is replaced or added.
unfoldable pub set_count : Text → ℕ → List (Text × ℕ) → List (Text × ℕ)
set_count key n [] = (key, n) ∷ []
set_count key n ((k, v) ∷ m) = if eq_text key k then (key, n) ∷ m else (k, v) ∷ set_count key n m

pub record Stats : Type 0 where
  pub usage_events : ℕ
  pub subscriptions : ℕ
  pub invoices : ℕ
  pub raw_edges : ℕ
  pub accepted_edges : ℕ
  pub exported_edges : ℕ
  pub matcher_stats : List (Text × ℕ)
  pub high_confidence : ℕ
  pub medium_confidence : ℕ
  pub low_confidence : ℕ

pub data RunError : Type 0 where
  invalid_inputs : InputError → RunError
  matcher_failed : Text → Error → RunError
  enqueue_failed : Options.Error → RunError

pub data RunResult {ℓ} (A : Type ℓ) : Type ℓ where
  result : A → RunResult A
  failed : RunError → RunResult A

module _ (f : Float) where
  open f use {F}

  -- The loop over the matchers, with the counts and the edges so far.
  unfoldable pub run_matchers :
      List (Matcher F)
      → Inputs
      → List (Text × ℕ)
      → List (LinkEdge F)
      → RunResult (List (Text × ℕ) × List (LinkEdge F))
  run_matchers [] inp counts edges = result (counts, edges)
  run_matchers (m ∷ ms) inp counts edges = elim (m.match_all inp.usages inp.subs inp.invs) [
    | err e ↦ failed (matcher_failed m.name e)
    | ok es ↦ run_matchers ms inp (set_count m.name (length es) counts) (edges ++ es)
  ]

  unfoldable pub classify : List (LinkEdge F) → Stats → Stats
  classify [] st = st
  classify (e ∷ es) st = classify es (
      if f.less (f.tenths 9) e.confidence || f.same (f.tenths 9) e.confidence
      then record st { high_confidence = suc st.high_confidence }
      else if f.less (f.tenths 6) e.confidence || f.same (f.tenths 6) e.confidence
      then record st { medium_confidence = suc st.medium_confidence }
      else record st { low_confidence = suc st.low_confidence })

  module _ (to_json : LinkEdge F → Option Text) where
    -- The loop that exports the edges, with the exporter after it.
    unfoldable pub export_edges : Exporter → List (LinkEdge F) → Exporter × Option Options.Error
    export_edges x [] = (x, none)
    export_edges x (e ∷ es) =
        let (x', error) = enqueue x (codes "edges") (to_json e) in
        elim error [ some e' ↦ (x', some e') | none ↦ export_edges x' es ]

    unfoldable pub export_all :
        Option Exporter → List (LinkEdge F) → Option Exporter × Option Options.Error
    export_all none es = (none, none)
    export_all (some x) es = let (x', error) = export_edges x es in (some x', error)

    -- `Run`: the exporter after it, with the accepted edges and the counts, or the error.
    unfoldable pub run :
        Hashes
        → Shuffles f
        → Recipe F
        → (tenant_salt : Text) → List (Matcher F)
        → Option Exporter
        → Inputs
        → Option Exporter × RunResult (List (LinkEdge F) × Stats)
    run h sh recipe salt ms exporter inp = elim (validate_inputs inp) [
      | some e ↦ (exporter, failed (invalid_inputs e))
      | none ↦ elim (run_matchers ms inp [] []) [
        | failed e ↦ (exporter, failed e)
        | result found ↦
            let (counts, edges) = found in
            let accepted = combine f h sh recipe salt edges in
            let st = classify accepted (record {
              usage_events = length inp.usages;
              subscriptions = length inp.subs;
              invoices = length inp.invs;
              raw_edges = length edges;
              accepted_edges = length accepted;
              exported_edges = 0;
              matcher_stats = counts;
              high_confidence = 0;
              medium_confidence = 0;
              low_confidence = 0;
            }) in
            let exported : ℕ = elim exporter [ none ↦ 0 | some x ↦ length accepted ] in
            let (x, error) = export_all exporter accepted in
            elim error [
              | some e ↦ (x, failed (enqueue_failed e))
              | none ↦ (x, result (accepted, record st { exported_edges = exported }))
            ]
      ]
    ]

    unfoldable pub run_without_export :
        Hashes
        → Shuffles f
        → Recipe F
        → (tenant_salt : Text) → List (Matcher F)
        → Inputs
        → Option Exporter × RunResult (List (LinkEdge F) × Stats)
    run_without_export h sh recipe salt ms inp = run h sh recipe salt ms none inp
