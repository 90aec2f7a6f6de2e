-- ===== src/Matchers/Ensemble.antt =====
-- internal/matchers/ensemble.go: the evidence for a link, weighed and combined.
pub mod Group
pub mod Candidates
pub mod Order
pub mod Comparison
pub mod Laws
use linker_agent.Prelude.{
  ℕ, zero, suc, ◌<◌, Bool, true, false, not, ◌&&◌, List, [], ◌∷◌, ◌++◌, Option, none, some, Text,
  codes, eq_text, if◌then◌else◌, length, take, leb, ltb, lookup,
}
use linker_agent.Crypto.{Result, ok, err, ◌>>=◌, Hashes, hmac_sha256_hex, join}
use linker_agent.Matchers.{
  Float, UsageEvent, SubscriptionLite, InvoiceLite, LinkEdge, no_meta, Matcher, Recipe, less_i64,
  collect,
}

-- `CandidateKey`.
pub record Key : Type 0 where
  pub from : Text
  pub to : Text
  pub kind : Text

unfoldable pub same_key : Key → Key → Bool
same_key a b = eq_text a.from b.from && (eq_text a.to b.to && eq_text a.kind b.kind)

abbrev pub key_of : {F : Type 0} → LinkEdge F → Key
key_of e = record { from = e.from; to = e.to; kind = e.kind }

-- `candidateEvidence`.
pub record Evidence (F : Type 0) : Type 0 where
  pub key : Key
  pub edges : List (LinkEdge F)
  pub best_confidence : F
  pub timestamp : ℕ
  pub proofs : List Text
  pub notes : List Text
  pub recipes : List Text

-- Strings are compared byte by byte.
unfoldable pub less_text : Text → Text → Bool
less_text [] [] = false
less_text [] (y ∷ ys) = true
less_text (x ∷ xs) [] = false
less_text (x ∷ xs) (y ∷ ys) =
    let rest = less_text xs ys in if ltb x y then true else if ltb y x then false else rest

-- Sorting: an element goes before the first one that it is less than.
unfoldable pub insert_by {ℓ} : {A : Type ℓ} → (A → A → Bool) → A → List A → List A
insert_by less x [] = x ∷ []
insert_by less x (y ∷ ys) =
    let rest = insert_by less x ys in if less x y then x ∷ y ∷ ys else y ∷ rest

unfoldable pub sort_by {ℓ} : {A : Type ℓ} → (A → A → Bool) → List A → List A
sort_by less [] = []
sort_by less (x ∷ xs) = insert_by less x (sort_by less xs)

-- The texts of a set: without the empty text and without repetitions.
unfoldable pub is_in : Text → List Text → Bool
is_in t [] = false
is_in t (x ∷ xs) = let rest = is_in t xs in if eq_text t x then true else rest

unfoldable pub unique : List Text → List Text
unique [] = []
unique (x ∷ xs) =
    let rest = unique xs in if eq_text x [] then rest else if is_in x rest then rest else x ∷ rest

-- `strings.Index(s, "/")` where it is above 0: what stands before the first slash.
unfoldable pub before_slash : Text → Text
before_slash [] = []
before_slash (c ∷ cs) = if eq_text (c ∷ []) (codes "/") then [] else c ∷ before_slash cs

unfoldable pub has_slash : Text → Bool
has_slash [] = false
has_slash (c ∷ cs) = let rest = has_slash cs in if eq_text (c ∷ []) (codes "/") then true else rest

unfoldable pub matcher_name : Text → Text
matcher_name recipe =
    if has_slash recipe && not (eq_text (before_slash recipe) [])
    then before_slash recipe
    else recipe

module _ (f : Float) where
  open f use {F}

  unfoldable pub start_evidence : LinkEdge F → Evidence F
  start_evidence e = record {
    key = key_of e;
    edges = [];
    best_confidence = f.nought;
    timestamp = e.at;
    proofs = [];
    notes = [];
    recipes = [];
  }

  unfoldable pub add_evidence : Evidence F → LinkEdge F → Evidence F
  add_evidence c e = record {
    key = c.key;
    edges = c.edges ++ e ∷ [];
    best_confidence =
        if f.less c.best_confidence e.confidence then e.confidence else c.best_confidence;
    timestamp = if less_i64 c.timestamp e.at then e.at else c.timestamp;
    proofs = c.proofs ++ e.proof ∷ [];
    notes = c.notes ++ e.notes ∷ [];
    recipes = c.recipes ++ e.recipe ∷ [];
  }

  unfoldable pub has_key : Key → List (Evidence F) → Bool
  has_key k [] = false
  has_key k (c ∷ cs) = let rest = has_key k cs in if same_key k c.key then true else rest

  unfoldable pub update_key : LinkEdge F → List (Evidence F) → List (Evidence F)
  update_key e [] = []
  update_key e (c ∷ cs) =
      (if same_key (key_of e) c.key then add_evidence c e else c) ∷ update_key e cs

  -- The map of candidates, as a list with one entry for each key.
  unfoldable pub add_edge : List (Evidence F) → LinkEdge F → List (Evidence F)
  add_edge cs e =
      if has_key (key_of e) cs
      then update_key e cs
      else cs ++ add_evidence (start_evidence e) e ∷ []

  unfoldable pub group_edges : List (Evidence F) → List (LinkEdge F) → List (Evidence F)
  group_edges cs [] = cs
  group_edges cs (e ∷ es) = group_edges (add_edge cs e) es

  -- The best score of each matcher.
  unfoldable pub raise_score : Text → F → List (Text × F) → List (Text × F)
  raise_score name score [] = if f.less f.nought score then (name, score) ∷ [] else []
  raise_score name score ((n, s) ∷ rest) =
      let others = raise_score name score rest in
      if eq_text name n then (n, (if f.less s score then score else s)) ∷ rest else (n, s) ∷ others

  unfoldable pub scores : List (Text × F) → List (LinkEdge F) → List (Text × F) → List (Text × F)
  scores weights [] m = m
  scores weights (e ∷ es) m =
      let name = matcher_name e.recipe in
      let weight : F = elim (lookup name weights) [ none ↦ f.nought | some w ↦ w ] in
      scores weights es (raise_score name (f.mul weight e.confidence) m)

  unfoldable pub total : F → List (Text × F) → F
  total sum [] = sum
  total sum ((n, s) ∷ rest) = total (f.add sum s) rest

  unfoldable pub best_edge : LinkEdge F → List (LinkEdge F) → LinkEdge F
  best_edge best [] = best
  best_edge best (e ∷ es) = best_edge (if f.less best.confidence e.confidence then e else best) es

  unfoldable pub select_best_proof : List (LinkEdge F) → Text
  select_best_proof [] = []
  select_best_proof (e ∷ es) = (best_edge e es).proof

  unfoldable pub consolidate_notes : List Text → F → Text
  consolidate_notes notes score =
      let suffix = codes " (score=" ++ (f.show2 score ++ codes ")") in
      let result = join (codes "; ") (sort_by less_text (unique notes)) ++ suffix in
      if leb (length notes) 0
      then codes "ensemble match (score=" ++ (f.show2 score ++ codes ")")
      else if ltb 200 (length result)
      then take 197 result ++ codes "..."
      else result

  -- The order in which Go goes through its maps, at each loop: any rearrangement.
  pub record Shuffles : Type 0 where
    pub candidates : List (Evidence F) → List (Evidence F)
    pub recipe_scores : List (Text × F) → List (Text × F)

  module _ (h : Hashes) (sh : Shuffles) (recipe : Recipe F) (tenant_salt : Text) where
    unfoldable pub calculate_weighted_score : List (LinkEdge F) → F
    calculate_weighted_score edges =
        total f.nought (sh.recipe_scores (scores recipe.weights edges []))

    unfoldable pub generate_combined_proof : Evidence F → Result Text
    generate_combined_proof c = hmac_sha256_hex h tenant_salt (
        join (codes "|") (
          c.key.from
          ∷ c.key.to
          ∷ c.key.kind
          ∷ codes "ensemble"
          ∷ join (codes ",") (sort_by less_text c.proofs)
          ∷ []))

    unfoldable pub consolidate : Evidence F → F → LinkEdge F
    consolidate c score = record {
      meta = no_meta;
      from = c.key.from;
      to = c.key.to;
      kind = c.key.kind;
      confidence = if f.less f.one score then f.one else score;
      proof = elim (generate_combined_proof c) [
        | ok proof ↦ proof
        | err e ↦ select_best_proof c.edges
      ];
      recipe = recipe.name ++ (codes "/" ++ recipe.version);
      at = c.timestamp;
      notes = consolidate_notes c.notes score;
    }

    unfoldable pub accept : List (Evidence F) → List (LinkEdge F)
    accept [] = []
    accept (c ∷ cs) =
        let score = calculate_weighted_score c.edges in
        let rest = accept cs in
        if f.less score recipe.threshold then rest else consolidate c score ∷ rest

    -- The comparison of the sort.
    unfoldable pub before : LinkEdge F → LinkEdge F → Bool
    before a b =
        if not (f.same a.confidence b.confidence)
        then f.less b.confidence a.confidence
        else less_text a.from b.from

    unfoldable pub combine : List (LinkEdge F) → List (LinkEdge F)
    combine [] = []
    combine (e ∷ es) = sort_by before (accept (sh.candidates (group_edges [] (e ∷ es))))

  -- The raw edges of all matchers.
  unfoldable pub match_each :
      List (Matcher F)
      → List UsageEvent
      → List SubscriptionLite
      → List InvoiceLite
      → Result (List (LinkEdge F))
  match_each ms usages subs invs = collect (λ (m : Matcher F). m.match_all usages subs invs) ms

  unfoldable pub run_ensemble :
      Hashes
      → Shuffles
      → Recipe F
      → (tenant_salt : Text) → List (Matcher F)
      → List UsageEvent
      → List SubscriptionLite
      → List InvoiceLite
      → Result (List (LinkEdge F))
  run_ensemble h sh recipe salt ms usages subs invs =
      match_each ms usages subs invs >>= λ es. ok (combine h sh recipe salt es)
