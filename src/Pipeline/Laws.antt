-- ===== src/Pipeline/Laws.antt =====
-- A run from end to end: what the validated inputs make of the edges, and the counts.
use mathlib.Core.List.{Permᴰ}
use linker_agent.Prelude.{
  ℕ, suc, ◌+◌, ◌≡◌, refl, sym, ap, ◌∙◌, subst, inl, inr, ◌⊎◌, Bool, true, false, ◌||◌, List, [],
  ◌∷◌, ◌++◌, Option, none, some, Text, if◌then◌else◌, length, All, All-append, Option-cases, arith,
}
use linker_agent.Crypto.{Result, ok, err, Hashes}
use linker_agent.Matchers.{Float, LinkEdge, Matcher, Recipe}
use linker_agent.Matchers.Deterministic as Deterministic
use linker_agent.Matchers.Temporal as Temporal
use linker_agent.Matchers.SkuOverlap as SkuOverlap
use linker_agent.Matchers.Privacy.{OnOk, SafeEdge, SafeMatcher}
use linker_agent.Matchers.Privacy.Exact.{deterministic-SafeMatcher}
use linker_agent.Matchers.Privacy.Indirect.{temporal-SafeMatcher, sku_overlap-SafeMatcher}
use linker_agent.Matchers.Ensemble.{Evidence, Shuffles, combine}
use linker_agent.Exporter.Options.{Exporter}
use linker_agent.Exporter.Options as Options
use linker_agent.Pipeline.Validate.{SafeInputs, validate_inputs_lem}
use linker_agent.Pipeline.Combined.{AllSafe, combine-safe}
use linker_agent.Pipeline.{
  Inputs, InputError, is_synthetic_id, validate_inputs, Stats, RunResult, result, failed, RunError,
  invalid_inputs, matcher_failed, enqueue_failed, set_count, run_matchers, classify, export_all,
  run,
}

-- What holds of the outcome of a run that succeeds.
abbrev pub OnResult {ℓ κ} : {A : Type ℓ} → (A → Type κ) → RunResult A → Type κ
OnResult P (result a) = P a
OnResult P (failed e) = Unit

result_lem {ℓ κ} :
    {A : Type ℓ} (P : A → Type κ) (r : RunResult A) (a : A) → r ≡ result a → OnResult P r → P a
result_lem P r a e p = subst (OnResult P) e p

pub RunResult-cases {ℓ} :
    {A : Type ℓ} (r : RunResult A) → ((a : A) × (r ≡ result a)) ⊎ ((e : RunError) × (r ≡ failed e))
RunResult-cases (result a) = inl (a, refl)
RunResult-cases (failed e) = inr (e, refl)

-- What is to hold of the accepted edges and the counts of a run.
abbrev pub RunIsSound : {F : Type 0} → List (LinkEdge F) × Stats → Type 0
RunIsSound {F} (edges, st) =
    All (λ (e : LinkEdge F). SafeEdge is_synthetic_id e) edges
    × (st.accepted_edges ≡ length edges)
    × (st.high_confidence + st.medium_confidence + st.low_confidence ≡ length edges)

module _ (f : Float) where
  open f use {F}

  -- One of the three matchers of the agent.
  abbrev pub IsBuiltIn : Hashes → Matcher F → Type 0
  IsBuiltIn h m =
      ((salt : Text) × (id_mode : Text) × (m ≡ Deterministic.matcher f h salt id_mode))
      ⊎ (((window : ℕ) × (salt : Text) × (m ≡ Temporal.matcher f h window salt))
          ⊎ ((salt : Text) × (m ≡ SkuOverlap.matcher f h salt)))

  built_in-SafeMatcher :
      (h : Hashes) (m : Matcher F) → IsBuiltIn h m → SafeMatcher is_synthetic_id m
  built_in-SafeMatcher h m (inl (salt, id_mode, e)) =
      subst (λ m. SafeMatcher is_synthetic_id m) (sym e)
        (deterministic-SafeMatcher is_synthetic_id f h salt id_mode)
  built_in-SafeMatcher h m (inr (inl (window, salt, e))) =
      subst (λ m. SafeMatcher is_synthetic_id m) (sym e)
        (temporal-SafeMatcher is_synthetic_id f h salt window)
  built_in-SafeMatcher h m (inr (inr (salt, e))) =
      subst (λ m. SafeMatcher is_synthetic_id m) (sym e)
        (sku_overlap-SafeMatcher is_synthetic_id f h salt)

  -- The edges of one more matcher.
  matched_lem :
      (name : Text) (r : Result (List (LinkEdge F)))
      (k : List (LinkEdge F) → RunResult (List (Text × ℕ) × List (LinkEdge F)))
      → OnOk (AllSafe f) r
      → ((es : List (LinkEdge F)) → AllSafe f es → OnResult (λ found. AllSafe f (found.1)) (k es))
      → OnResult
          (λ found. AllSafe f (found.1))
          (elim r [ err e ↦ failed (matcher_failed name e) | ok es ↦ k es ])
  matched_lem name (ok es) k p next = next es p
  matched_lem name (err e) k p next = tt

  run_matchers_lem :
      (ms : List (Matcher F)) (inp : Inputs) (counts : List (Text × ℕ)) (edges : List (LinkEdge F))
      → All (λ (m : Matcher F). SafeMatcher is_synthetic_id m) ms
      → SafeInputs inp
      → AllSafe f edges
      → OnResult (λ found. AllSafe f (found.1)) (run_matchers f ms inp counts edges)
  unfolding run_matchers
  run_matchers_lem [] inp counts edges safe hin hes = hes
  run_matchers_lem (m ∷ ms) inp counts edges (here, safe) (hu, hs, hi) hes =
      matched_lem m.name (m.match_all inp.usages inp.subs inp.invs)
        (λ es. run_matchers f ms inp (set_count m.name (length es) counts) (edges ++ es))
        (here inp.usages inp.subs inp.invs hu hs hi)
        (λ es safe'.
          run_matchers_lem ms inp (set_count m.name (length es) counts) (edges ++ es) safe
            (hu, hs, hi)
            (All-append (λ (e : LinkEdge F). SafeEdge is_synthetic_id e) edges es hes safe'))

  -- The counts of a run: every accepted edge is in one class of confidence.
  abbrev Counted : Stats → ℕ → Type 0
  Counted st n = (st.high_confidence + st.medium_confidence + st.low_confidence ≡ n)

  -- One edge is counted in one class.
  abbrev in_class : Bool → Bool → Stats → Stats
  in_class true _ st = record st { high_confidence = suc st.high_confidence }
  in_class false true st = record st { medium_confidence = suc st.medium_confidence }
  in_class false false st = record st { low_confidence = suc st.low_confidence }

  abbrev counting : LinkEdge F → Stats → Stats
  counting e st =
      in_class (f.less (f.tenths 9) e.confidence || f.same (f.tenths 9) e.confidence)
        (f.less (f.tenths 6) e.confidence || f.same (f.tenths 6) e.confidence) st

  in_class_lem :
      (high medium : Bool) (st : Stats) (n : ℕ)
      → Counted st n
      → Counted (in_class high medium st) (suc n)
        × ((in_class high medium st).accepted_edges ≡ st.accepted_edges)
  in_class_lem true _ st n c = (omega (arith, c), refl)
  in_class_lem false true st n c = (omega (arith, c), refl)
  in_class_lem false false st n c = (omega (arith, c), refl)

  classify_cons :
      (e : LinkEdge F) (es : List (LinkEdge F)) (st : Stats)
      → classify f (e ∷ es) st ≡ classify f es (counting e st)
  unfolding classify
  classify_cons e es st = ap (classify f es) (
      if_class (f.less (f.tenths 9) e.confidence || f.same (f.tenths 9) e.confidence)
        (f.less (f.tenths 6) e.confidence || f.same (f.tenths 6) e.confidence) st)
    where
      if_class :
          (high medium : Bool) (st : Stats)
          → (if high
              then record st { high_confidence = suc st.high_confidence }
              else if medium
              then record st { medium_confidence = suc st.medium_confidence }
              else record st { low_confidence = suc st.low_confidence })
            ≡ in_class high medium st
      if_class true medium st = refl
      if_class false true st = refl
      if_class false false st = refl

  classify_lem :
      (es : List (LinkEdge F)) (st : Stats) (n : ℕ)
      → Counted st n
      → Counted (classify f es st) (length es + n)
        × ((classify f es st).accepted_edges ≡ st.accepted_edges)
  unfolding classify
  classify_lem [] st n c = (omega (arith, c), refl)
  classify_lem (e ∷ es) st n c =
      let (counted, same) =
        in_class_lem (f.less (f.tenths 9) e.confidence || f.same (f.tenths 9) e.confidence)
          (f.less (f.tenths 6) e.confidence || f.same (f.tenths 6) e.confidence) st n c in
      let (sum, kept) = classify_lem es (counting e st) (suc n) counted in
      subst (λ st'. Counted st' (length (e ∷ es) + n) × (st'.accepted_edges ≡ st.accepted_edges))
        (sym (classify_cons e es st)) (omega (arith, sum), kept ∙ same)

  pub built_in-All :
      (h : Hashes) (ms : List (Matcher F))
      → All (IsBuiltIn h) ms
      → All (λ (m : Matcher F). SafeMatcher is_synthetic_id m) ms
  built_in-All h [] all = tt
  built_in-All h (m ∷ ms) (here, all) = (built_in-SafeMatcher h m here, built_in-All h ms all)

  -- The end of a run, after the exports.
  abbrev pub ended :
      Option Options.Error → List (LinkEdge F) → Stats → RunResult (List (LinkEdge F) × Stats)
  ended (some e) edges st = failed (enqueue_failed e)
  ended none edges st = result (edges, st)

  ended_lem :
      (error : Option Options.Error) (edges : List (LinkEdge F)) (st : Stats)
      → RunIsSound (edges, st)
      → OnResult RunIsSound (ended error edges st)
  ended_lem (some e) edges st s = tt
  ended_lem none edges st s = s

  module _ (to_json : LinkEdge F → Option Text) (h : Hashes) (sh : Shuffles f) (recipe : Recipe F)
      (salt : Text) where
    abbrev pub ran :
        List (Matcher F) → Option Exporter → Inputs → RunResult (List (LinkEdge F) × Stats)
    ran ms exporter inp = (run f to_json h sh recipe salt ms exporter inp).1

    run_invalid :
        (ms : List (Matcher F)) (exporter : Option Exporter) (inp : Inputs) (e : InputError)
        → validate_inputs inp ≡ some e
        → ran ms exporter inp ≡ failed (invalid_inputs e)
    unfolding run
    run_invalid ms exporter inp e bad = ground (arith, bad)

    pub run_failed :
        (ms : List (Matcher F)) (exporter : Option Exporter) (inp : Inputs) (e : RunError)
        → validate_inputs inp ≡ none
        → run_matchers f ms inp [] [] ≡ failed e
        → ran ms exporter inp ≡ failed e
    unfolding run
    run_failed ms exporter inp e good bad = ground (arith, good, bad)

    pub counted : List (Text × ℕ) → List (LinkEdge F) → Option Exporter → Inputs → Stats
    counted counts edges exporter inp =
        let accepted = combine f h sh recipe salt edges in
        let exported : ℕ = elim exporter [ none ↦ 0 | some x ↦ length accepted ] in
        record (classify f accepted (record {
          usage_events = length inp.usages;
          subscriptions = length inp.subs;
          invoices = length inp.invs;
          raw_edges = length edges;
          accepted_edges = length accepted;
          exported_edges = 0;
          matcher_stats = counts;
          high_confidence = 0;
          medium_confidence = 0;
          low_confidence = 0;
        })) { exported_edges = exported }

    pub run_found :
        (ms : List (Matcher F)) (exporter : Option Exporter) (inp : Inputs)
        (counts : List (Text × ℕ)) (edges : List (LinkEdge F))
        → validate_inputs inp ≡ none
        → run_matchers f ms inp [] [] ≡ result (counts, edges)
        → ran ms exporter inp
          ≡ ended
              ((export_all f to_json exporter (combine f h sh recipe salt edges)).1)
              (combine f h sh recipe salt edges)
              (counted counts edges exporter inp)
    unfolding run counted
    run_found ms exporter inp counts edges good found = ground (arith, good, found)

    counted_lem :
        (counts : List (Text × ℕ)) (edges : List (LinkEdge F)) (exporter : Option Exporter)
        (inp : Inputs)
        → AllSafe f (combine f h sh recipe salt edges)
        → RunIsSound (combine f h sh recipe salt edges, counted counts edges exporter inp)
    unfolding counted
    counted_lem counts edges exporter inp safe =
        let (sum, kept) =
          classify_lem (combine f h sh recipe salt edges)
            (record {
              usage_events = length inp.usages;
              subscriptions = length inp.subs;
              invoices = length inp.invs;
              raw_edges = length edges;
              accepted_edges = length (combine f h sh recipe salt edges);
              exported_edges = 0;
              matcher_stats = counts;
              high_confidence = 0;
              medium_confidence = 0;
              low_confidence = 0;
            })
            0 (omega arith) in
        (safe, kept, omega (arith, sum))

    pub run_sound :
        ((cs : List (Evidence F)) → Permᴰ (sh.candidates cs) cs)
        → (ms : List (Matcher F)) → All (λ (m : Matcher F). SafeMatcher is_synthetic_id m) ms
        → (exporter : Option Exporter) (inp : Inputs) → OnResult RunIsSound (ran ms exporter inp)
    run_sound all ms safe exporter inp = elim (Option-cases (validate_inputs inp)) [
      | inr (e, bad) ↦ subst (OnResult RunIsSound) (sym (run_invalid ms exporter inp e bad)) tt
      | inl good ↦ elim (RunResult-cases (run_matchers f ms inp [] [])) [
        | inr (e, bad) ↦
            subst (OnResult RunIsSound) (sym (run_failed ms exporter inp e good bad)) tt
        | inl ((counts, edges), found) ↦
            subst (OnResult RunIsSound) (sym (run_found ms exporter inp counts edges good found)) (
              ended_lem ((export_all f to_json exporter (combine f h sh recipe salt edges)).1)
                (combine f h sh recipe salt edges) (counted counts edges exporter inp)
                (counted_lem counts edges exporter inp (
                  combine-safe f h sh recipe salt all edges (
                    result_lem (λ found. AllSafe f (found.1)) (run_matchers f ms inp [] [])
                      (counts, edges) found
                      (run_matchers_lem ms inp [] [] safe (validate_inputs_lem inp good) tt)))))
      ]
    ]

-- `Run` with matchers of the agent only, and loops over maps that leave nothing out: if it succeeds, every edge that
-- it returns is between two synthetic identifiers, the accepted edges are counted right, and each of them is in one
-- of the three classes of confidence.
pub run_lem :
    (f : Float) (to_json : LinkEdge f.F → Option Text) (h : Hashes) (sh : Shuffles f)
    (recipe : Recipe f.F) (salt : Text)
    → ((cs : List (Evidence f.F)) → Permᴰ (sh.candidates cs) cs)
    → (ms : List (Matcher f.F)) → All (IsBuiltIn f h) ms
    → (exporter exporter' : Option Exporter) (inp : Inputs) (edges : List (LinkEdge f.F))
      (st : Stats)
    → run f to_json h sh recipe salt ms exporter inp ≡ (exporter', result (edges, st))
    → RunIsSound (edges, st)
run_lem f to_json h sh recipe salt all ms built exporter exporter' inp edges st e =
    result_lem RunIsSound ((run f to_json h sh recipe salt ms exporter inp).1) (edges, st)
      (ap (λ r. r.1) e)
      (run_sound f to_json h sh recipe salt all ms (built_in-All f h ms built) exporter inp)
