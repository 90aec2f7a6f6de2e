-- ===== src/Pipeline/Valid.antt =====
-- Runs on inputs that pass the validation.
use mathlib.Core.List.{Permᴰ}
use linker_agent.Prelude.{
  ℕ, ◌≡◌, sym, subst, inl, inr, List, [], ◌∷◌, ◌++◌, Option, none, some, Text, length, All,
}
use linker_agent.Crypto.{Result, ok, err, Hashes}
use linker_agent.Matchers.{Float, LinkEdge, Matcher, Recipe}
use linker_agent.Matchers.Ensemble.{Evidence, Shuffles, combine}
use linker_agent.Exporter.Options.{Exporter}
use linker_agent.Exporter.Options as Options
use linker_agent.Pipeline.{
  Inputs, validate_inputs, Stats, invalid_inputs, matcher_failed, enqueue_failed, RunResult, result,
  failed, set_count, run_matchers, export_all, run,
}
use linker_agent.Pipeline.Laws.{
  OnResult, RunIsSound, IsBuiltIn, RunResult-cases, built_in-All, ended, counted, run_failed,
  run_found, run_sound,
}

-- An outcome other than that the inputs are invalid.
abbrev pub IsNotInvalid {ℓ} : {A : Type ℓ} → RunResult A → Type 0
IsNotInvalid (result a) = Unit
IsNotInvalid (failed (invalid_inputs e)) = ⊥
IsNotInvalid (failed (matcher_failed n e)) = Unit
IsNotInvalid (failed (enqueue_failed e)) = Unit

module _ (f : Float) where
  open f use {F}

  matched-IsNotInvalid :
      (name : Text) (r : Result (List (LinkEdge F)))
      (k : List (LinkEdge F) → RunResult (List (Text × ℕ) × List (LinkEdge F)))
      → ((es : List (LinkEdge F)) → IsNotInvalid (k es))
      → IsNotInvalid (elim r [ err e ↦ failed (matcher_failed name e) | ok es ↦ k es ])
  matched-IsNotInvalid name (ok es) k all = all es
  matched-IsNotInvalid name (err e) k all = tt

  run_matchers-IsNotInvalid :
      (ms : List (Matcher F)) (inp : Inputs) (counts : List (Text × ℕ)) (edges : List (LinkEdge F))
      → IsNotInvalid (run_matchers f ms inp counts edges)
  unfolding run_matchers
  run_matchers-IsNotInvalid [] inp counts edges = tt
  run_matchers-IsNotInvalid (m ∷ ms) inp counts edges =
      matched-IsNotInvalid m.name (m.match_all inp.usages inp.subs inp.invs)
        (λ es. run_matchers f ms inp (set_count m.name (length es) counts) (edges ++ es))
        (λ es. run_matchers-IsNotInvalid ms inp (set_count m.name (length es) counts) (edges ++ es))

  ended-IsNotInvalid :
      (error : Option Options.Error) (edges : List (LinkEdge F)) (st : Stats)
      → IsNotInvalid (ended f error edges st)
  ended-IsNotInvalid (some e) edges st = tt
  ended-IsNotInvalid none edges st = tt

  -- A run on valid inputs with matchers of the agent succeeds soundly, or a matcher or the exporter fails.
  pub run_valid :
      (to_json : LinkEdge F → Option Text) (h : Hashes) (sh : Shuffles f) (recipe : Recipe F)
      (salt : Text)
      → ((cs : List (Evidence F)) → Permᴰ (sh.candidates cs) cs)
      → (ms : List (Matcher F)) → All (IsBuiltIn f h) ms
      → (exporter : Option Exporter) (inp : Inputs) → validate_inputs inp ≡ none
      → OnResult RunIsSound ((run f to_json h sh recipe salt ms exporter inp).1)
        × IsNotInvalid ((run f to_json h sh recipe salt ms exporter inp).1)
  run_valid to_json h sh recipe salt all ms built exporter inp good = (
    run_sound f to_json h sh recipe salt all ms (built_in-All f h ms built) exporter inp,
    elim (RunResult-cases (run_matchers f ms inp [] [])) [
      | inr (e, bad) ↦
          subst IsNotInvalid
            (sym (run_failed f to_json h sh recipe salt ms exporter inp e good bad))
            (subst IsNotInvalid bad (run_matchers-IsNotInvalid ms inp [] []))
      | inl ((counts, edges), found) ↦
          subst IsNotInvalid
            (sym (run_found f to_json h sh recipe salt ms exporter inp counts edges good found))
            (ended-IsNotInvalid
              ((export_all f to_json exporter (combine f h sh recipe salt edges)).1)
              (combine f h sh recipe salt edges)
              (counted f to_json h sh recipe salt counts edges exporter inp))
    ],
  )
