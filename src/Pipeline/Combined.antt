-- ===== src/Pipeline/Combined.antt =====
-- The ensemble makes no identifiers: its edges are between those of the raw edges.
use mathlib.Core.List.{Permᴰ}
use linker_agent.Prelude.{◌≡◌, inl, inr, true, List, [], ◌∷◌, Text, All, All-append, Bool-cases}
use linker_agent.Crypto.{Hashes}
use linker_agent.Matchers.{Float, LinkEdge, Recipe}
use linker_agent.Matchers.Privacy.{SafeEdge}
use linker_agent.Matchers.Ensemble.{
  same_key, key_of, Evidence, Shuffles, start_evidence, add_evidence, has_key, update_key, add_edge,
  group_edges, calculate_weighted_score, consolidate, accept, before, combine,
}
use linker_agent.Matchers.Ensemble.Order.{sort_by-perm, All-perm}
use linker_agent.Pipeline.{is_synthetic_id}

module _ (f : Float) where
  open f use {F}

  abbrev pub AllSafe : List (LinkEdge F) → Type 0
  AllSafe es = All (λ (e : LinkEdge F). SafeEdge is_synthetic_id e) es

  KeySafe : Evidence F → Type 0
  KeySafe c = (is_synthetic_id c.key.from ≡ true) × (is_synthetic_id c.key.to ≡ true)

  update_key-safe :
      (e : LinkEdge F) (cs : List (Evidence F)) → All KeySafe cs → All KeySafe (update_key f e cs)
  unfolding update_key add_evidence KeySafe
  update_key-safe e [] all = tt
  update_key-safe e (c ∷ cs) (k, all) = elim (Bool-cases (same_key (key_of e) c.key)) [
    | inl h ↦ rw h (k, update_key-safe e cs all)
    | inr h ↦ rw h (k, update_key-safe e cs all)
  ]

  add_edge-safe :
      (cs : List (Evidence F)) (e : LinkEdge F)
      → SafeEdge is_synthetic_id e
      → All KeySafe cs
      → All KeySafe (add_edge f cs e)
  unfolding add_edge KeySafe add_evidence start_evidence
  add_edge-safe cs e k all = elim (Bool-cases (has_key f (key_of e) cs)) [
    | inl h ↦ rw h (update_key-safe e cs all)
    | inr h ↦ rw h (All-append KeySafe cs (add_evidence f (start_evidence f e) e ∷ []) all (k, tt))
  ]

  group_edges-safe :
      (es : List (LinkEdge F)) (cs : List (Evidence F))
      → AllSafe es
      → All KeySafe cs
      → All KeySafe (group_edges f cs es)
  unfolding group_edges
  group_edges-safe [] cs hes all = all
  group_edges-safe (e ∷ es) cs (k, hes) all =
      group_edges-safe es (add_edge f cs e) hes (add_edge-safe cs e k all)

  module _ (h : Hashes) (sh : Shuffles f) (recipe : Recipe F) (salt : Text) where
    accept-safe : (cs : List (Evidence F)) → All KeySafe cs → AllSafe (accept f h sh recipe salt cs)
    unfolding accept consolidate KeySafe
    accept-safe [] all = tt
    accept-safe (c ∷ cs) (k, all) =
        elim (Bool-cases
          (f.less (calculate_weighted_score f h sh recipe salt c.edges) recipe.threshold)) [
            | inl low ↦ rw low (accept-safe cs all)
            | inr high ↦ rw high (k, accept-safe cs all)
          ]

    pub combine-safe :
        ((cs : List (Evidence F)) → Permᴰ (sh.candidates cs) cs)
        → (es : List (LinkEdge F)) → AllSafe es
        → AllSafe (combine f h sh recipe salt es)
    unfolding combine
    combine-safe all [] hes = tt
    combine-safe all (e ∷ es) hes =
        All-perm (λ (e : LinkEdge F). SafeEdge is_synthetic_id e)
          (sort_by-perm (before f h sh recipe salt)
            (accept f h sh recipe salt (sh.candidates (group_edges f [] (e ∷ es)))))
          (accept-safe (sh.candidates (group_edges f [] (e ∷ es))) (
            All-perm KeySafe (all (group_edges f [] (e ∷ es)))
              (group_edges-safe (e ∷ es) [] hes tt)))
