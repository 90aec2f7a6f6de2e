-- ===== src/Matchers/Ensemble/Laws.antt =====
-- What `Combine` gives for every key, and in which order.
use mathlib.Core.List.{Permᴰ}
use mathlib.Core.List.Permᴰ
use linker_agent.Prelude.{
  ◌≤◌, ◌≡◌, ◌≢◌, refl, sym, ap, ap₂, ◌∙◌, subst, inl, inr, Bool, true, false, List, [], ◌∷◌, ◌++◌,
  map, Text, if◌then◌else◌, All, Bool-cases, append-nil, length, arith,
}
use linker_agent.Crypto.{Hashes}
use linker_agent.Matchers.{Float, LinkEdge, Recipe}
use linker_agent.Matchers.Ensemble.{
  Key, same_key, key_of, Evidence, Shuffles, group_edges, calculate_weighted_score, consolidate,
  accept, before, combine,
}
use linker_agent.Matchers.Ensemble.Group.{
  same_key→eq, same_key_refl, is_key, matching, keys, evidence_of, matching-append, matching_same,
}
use linker_agent.Matchers.Ensemble.Candidates.{
  candidates_of, group_edges_lem, keys-HasEdges, no_key-matching, IsDistinct, keys-IsDistinct,
}
use linker_agent.Matchers.Ensemble.Order.{
  sort_by-perm, perm_one, each-perm, IsSorted, sort_by-IsSorted,
}
use linker_agent.Matchers.Ensemble.Comparison.{IsComparison, before-IsOrder}

no_key : (k : Key) → is_key k [] ≡ true → ⊥
unfolding is_key
no_key k i = cc

tail_key :
    (k j : Key) (ks : List Key)
    → is_key k (j ∷ ks) ≡ true
    → same_key k j ≡ false
    → is_key k ks ≡ true
unfolding is_key
tail_key k j ks i other = ground (arith, i, other)

-- A list, unless there is nothing to make it of.
abbrev pub if_edges : {A : Type 0} → List A → List A → List A
if_edges [] out = []
if_edges (_ ∷ _) out = out

if_edges-some : {A : Type 0} (l out : List A) → l ≢ [] → if_edges l out ≡ out
if_edges-some [] out n = absurd (n refl)
if_edges-some (x ∷ l) out n = refl

if_edges-none : {A : Type 0} (l out : List A) → l ≡ [] → if_edges l out ≡ []
if_edges-none [] out e = refl
if_edges-none (x ∷ l) out e = absurd (cc)

if_edges-length :
    {A : Type 0} (l : List A) (b : Bool) (x : A)
    → length (if_edges l (if b then [] else x ∷ [])) ≤ 1
if_edges-length [] b x = omega arith
if_edges-length (_ ∷ _) true x = omega arith
if_edges-length (_ ∷ _) false x = omega arith

module _ (f : Float) (h : Hashes) (sh : Shuffles f) (recipe : Recipe f.F) (salt : Text) where
  open f use {F}

  -- What is to come of a key: nothing without edges or with a score below the threshold, and otherwise
  -- one edge with the evidence of all edges of the key.
  abbrev pub expected : List (LinkEdge F) → Key → List (LinkEdge F)
  expected es k =
      let score = calculate_weighted_score f h sh recipe salt (matching f k es) in
      if_edges (matching f k es) (
        if f.less score recipe.threshold
        then []
        else consolidate f h sh recipe salt (evidence_of f es k) score ∷ [])

  -- What is accepted of a key with edges.
  abbrev emitted : List (LinkEdge F) → Key → List (LinkEdge F)
  emitted es k =
      let score = calculate_weighted_score f h sh recipe salt (matching f k es) in
      if f.less score recipe.threshold
      then []
      else consolidate f h sh recipe salt (evidence_of f es k) score ∷ []

  expected-some :
      (es : List (LinkEdge F)) (k : Key) → matching f k es ≢ [] → expected es k ≡ emitted es k
  expected-some es k n = if_edges-some (matching f k es) (emitted es k) n

  expected-none : (es : List (LinkEdge F)) (k : Key) → matching f k es ≡ [] → expected es k ≡ []
  expected-none es k e = if_edges-none (matching f k es) (emitted es k) e

  accept_cons :
      (c : Evidence F) (cs : List (Evidence F))
      → accept f h sh recipe salt (c ∷ cs)
        ≡ accept f h sh recipe salt (c ∷ []) ++ accept f h sh recipe salt cs
  unfolding accept
  accept_cons c cs =
      elim (Bool-cases
        (f.less (calculate_weighted_score f h sh recipe salt c.edges) recipe.threshold)) [
          | inl e ↦ rw e refl
          | inr e ↦ rw e refl
        ]

  accept_one :
      (es : List (LinkEdge F)) (k : Key)
      → accept f h sh recipe salt (evidence_of f es k ∷ []) ≡ emitted es k
  unfolding accept
  accept_one es k = refl

  key_of-consolidate :
      (c : Evidence F) (s : F) → key_of (consolidate f h sh recipe salt c s) ≡ c.key
  unfolding consolidate
  key_of-consolidate c s = refl

  matching_cons :
      (k : Key) (e : LinkEdge F) (es : List (LinkEdge F))
      → matching f k (e ∷ es) ≡ matching f k (e ∷ []) ++ matching f k es
  matching_cons k e es = matching-append f k (e ∷ []) es

  matching-if_same :
      (b : Bool) (k : Key) (e : LinkEdge F)
      → k ≡ key_of e
      → matching f k (if b then [] else e ∷ []) ≡ (if b then [] else e ∷ [])
  unfolding matching
  matching-if_same true k e eq = refl
  matching-if_same false k e eq =
      matching_same f k e (subst (λ j. same_key k j ≡ true) eq (same_key_refl k))

  matching-if_other :
      (b : Bool) (k : Key) (e : LinkEdge F)
      → same_key k (key_of e) ≡ false
      → matching f k (if b then [] else e ∷ []) ≡ []
  unfolding matching
  matching-if_other true k e n = refl
  matching-if_other false k e n = rw n refl

  matching-emitted_same :
      (es : List (LinkEdge F)) (k : Key) → matching f k (emitted es k) ≡ emitted es k
  matching-emitted_same es k =
      matching-if_same
        (f.less (calculate_weighted_score f h sh recipe salt (matching f k es)) recipe.threshold) k
        (consolidate f h sh recipe salt (evidence_of f es k)
          (calculate_weighted_score f h sh recipe salt (matching f k es)))
        (sym (
          key_of-consolidate (evidence_of f es k)
            (calculate_weighted_score f h sh recipe salt (matching f k es))))

  matching-emitted_other :
      (es : List (LinkEdge F)) (k j : Key) → same_key k j ≡ false → matching f k (emitted es j) ≡ []
  matching-emitted_other es k j n =
      matching-if_other
        (f.less (calculate_weighted_score f h sh recipe salt (matching f j es)) recipe.threshold) k
        (consolidate f h sh recipe salt (evidence_of f es j)
          (calculate_weighted_score f h sh recipe salt (matching f j es)))
        (subst (λ i. same_key k i ≡ false)
          (sym (
            key_of-consolidate (evidence_of f es j)
              (calculate_weighted_score f h sh recipe salt (matching f j es))))
          n)

  accepted_of : List (LinkEdge F) → List Key → List (LinkEdge F)
  accepted_of es ks = accept f h sh recipe salt (map (evidence_of f es) ks)

  matching-accepted_of :
      (es : List (LinkEdge F)) (k j : Key) (ks : List Key)
      → matching f k (accepted_of es (j ∷ ks))
        ≡ matching f k (emitted es j) ++ matching f k (accepted_of es ks)
  unfolding accepted_of
  matching-accepted_of es k j ks =
      ap (matching f k) (
        accept_cons (evidence_of f es j) (map (evidence_of f es) ks)
        ∙ ap (λ l. l ++ accept f h sh recipe salt (map (evidence_of f es) ks)) (accept_one es j))
      ∙ matching-append f k (emitted es j) (accept f h sh recipe salt (map (evidence_of f es) ks))

  -- Keys that are not asked for give nothing, and the key itself gives its edge.
  accepted-absent :
      (es : List (LinkEdge F)) (k : Key) (ks : List Key)
      → is_key k ks ≡ false
      → matching f k (accepted_of es ks) ≡ []
  unfolding is_key accepted_of accept matching
  accepted-absent es k [] n = refl
  accepted-absent es k (j ∷ ks) n =
      matching-accepted_of es k j ks
      ∙ ap₂ (λ a b. a ++ b) (matching-emitted_other es k j (ground (arith, n)))
          (accepted-absent es k ks (ground (arith, n)))

  accepted-present :
      (es : List (LinkEdge F)) (k : Key) (ks : List Key)
      → IsDistinct f ks
      → is_key k ks ≡ true
      → matching f k (accepted_of es ks) ≡ emitted es k
  unfolding is_key
  accepted-present es k [] d i = absurd (cc)
  accepted-present es k (j ∷ ks) (n, d) i = elim (Bool-cases (same_key k j)) [
    | inl same ↦
        matching-accepted_of es k j ks
        ∙ ap₂ (λ a b. a ++ b)
            (subst (λ i. matching f k (emitted es i) ≡ emitted es k) (same_key→eq k j same)
              (matching-emitted_same es k))
            (accepted-absent es k ks
              (subst (λ i. is_key i ks ≡ false) (sym (same_key→eq k j same)) n))
        ∙ append-nil (emitted es k)
    | inr other ↦
        matching-accepted_of es k j ks
        ∙ ap₂ (λ a b. a ++ b) (matching-emitted_other es k j other)
            (accepted-present es k ks d (ground (arith, i, other)))
  ]

  accept-of_edges :
      (es : List (LinkEdge F)) (k : Key)
      → matching f k (accept f h sh recipe salt (candidates_of f es)) ≡ expected es k
  unfolding accepted_of
  accept-of_edges es k = elim (Bool-cases (is_key k (keys f es))) [
    | inl here ↦
        accepted-present es k (keys f es) (keys-IsDistinct f es) here
        ∙ sym (expected-some es k (key-matching k (keys f es) here (keys-HasEdges f es)))
    | inr away ↦
        accepted-absent es k (keys f es) away
        ∙ sym (expected-none es k (no_key-matching f k es away))
  ]
    where
      key-matching :
          (k : Key) (ks : List Key)
          → is_key k ks ≡ true
          → All (λ j. matching f j es ≢ []) ks
          → matching f k es ≢ []
      key-matching k [] i all = absurd (no_key k i)
      key-matching k (j ∷ ks) i (n, all) = elim (Bool-cases (same_key k j)) [
        | inl same ↦ subst (λ x. matching f x es ≢ []) (sym (same_key→eq k j same)) n
        | inr other ↦ key-matching k ks (tail_key k j ks i other) all
      ]

  expected-length : (es : List (LinkEdge F)) (k : Key) → length (expected es k) ≤ 1
  expected-length es k =
      let score = calculate_weighted_score f h sh recipe salt (matching f k es) in
      if_edges-length (matching f k es) (f.less score recipe.threshold)
        (consolidate f h sh recipe salt (evidence_of f es k) score)

-- `Combine`, given that the loops over its maps leave nothing out: of each key the result has one edge with the
-- evidence of all edges of that key when there are any and their weighted score is not below the threshold, and
-- nothing otherwise, whatever the order of the maps and whatever the operations on floats.
pub combine_lem :
    (f : Float) (h : Hashes) (sh : Shuffles f) (recipe : Recipe f.F) (salt : Text)
    → ((cs : List (Evidence f.F)) → Permᴰ (sh.candidates cs) cs)
    → (es : List (LinkEdge f.F)) → (k : Key)
    → matching f k (combine f h sh recipe salt es) ≡ expected f h sh recipe salt es k
unfolding combine matching
combine_lem f h sh recipe salt all [] k = refl
combine_lem f h sh recipe salt all (e ∷ es) k =
    let chosen = accept f h sh recipe salt (sh.candidates (group_edges f [] (e ∷ es))) in
    ap (matching f k) refl
    ∙ perm_one
        (Permᴰ.trans
          (each-perm (matching f k) (λ x. matching f k (x ∷ []))
            (matching_cons f h sh recipe salt k) (sort_by-perm (before f h sh recipe salt) chosen))
          (Permᴰ.trans
            (each-perm (matching f k) (λ x. matching f k (x ∷ []))
              (matching_cons f h sh recipe salt k)
              (each-perm (accept f h sh recipe salt) (λ c. accept f h sh recipe salt (c ∷ []))
                (accept_cons f h sh recipe salt) (all (group_edges f [] (e ∷ es)))))
            (same_list whole)))
        (expected-length f h sh recipe salt (e ∷ es) k)
  where
    whole :
        matching f k (accept f h sh recipe salt (group_edges f [] (e ∷ es)))
        ≡ expected f h sh recipe salt (e ∷ es) k
    whole =
        ap (λ cs. matching f k (accept f h sh recipe salt cs)) (group_edges_lem f (e ∷ es))
        ∙ accept-of_edges f h sh recipe salt (e ∷ es) k

    same_list : {xs ys : List (LinkEdge f.F)} → xs ≡ ys → Permᴰ xs ys
    same_list {xs} {ys} eq = subst (λ l. Permᴰ xs l) eq (Permᴰ.refl xs)

-- Where the comparisons of floats are those of numbers, without NaN, the edges come with falling confidence and, at
-- equal confidence, with rising sender.
pub combine-IsSorted :
    (f : Float) (h : Hashes) (sh : Shuffles f) (recipe : Recipe f.F) (salt : Text)
    → IsComparison f
    → (es : List (LinkEdge f.F))
    → IsSorted (before f h sh recipe salt) (combine f h sh recipe salt es)
unfolding combine
combine-IsSorted f h sh recipe salt cmp [] = tt
combine-IsSorted f h sh recipe salt cmp (e ∷ es) =
    sort_by-IsSorted (before f h sh recipe salt) (before-IsOrder f h sh recipe salt cmp)
      (accept f h sh recipe salt (sh.candidates (group_edges f [] (e ∷ es))))
