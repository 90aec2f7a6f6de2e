-- ===== src/Matchers/Ensemble/Candidates.antt =====
-- The loop over all edges builds the evidence of each key.
use linker_agent.Prelude.{
  ◌≡◌, ◌≢◌, refl, sym, ap, ap₂, ◌∙◌, subst, inl, inr, true, false, List, [], ◌∷◌, ◌++◌, map,
  append_assoc, append-nil, All, All-append, Bool-cases, arith,
}
use linker_agent.Matchers.{Float, LinkEdge}
use linker_agent.Matchers.Ensemble.{
  Key, same_key, key_of, Evidence, has_key, update_key, add_edge, group_edges,
}
use linker_agent.Matchers.Ensemble.Group.{
  same_key→eq, same_key_refl, same_key_comm, is_key, add_key, matching, keys_from, keys,
  evidence_of, matching-append, matching_same, evidence_same, evidence_other, evidence_first,
}

is_key-append : (k : Key) (ks js : List Key) → is_key k ks ≡ true → is_key k (ks ++ js) ≡ true
unfolding is_key
is_key-append k [] js h = absurd (cc)
is_key-append k (x ∷ ks) js h = elim (Bool-cases (same_key k x)) [
  | inl same ↦ ground (arith, same)
  | inr other ↦ ground (arith, other, h, is_key-append k ks js)
]

is_key-last : (k : Key) (ks : List Key) → is_key k (ks ++ k ∷ []) ≡ true
unfolding is_key
is_key-last k [] = rw (same_key_refl k) refl
is_key-last k (x ∷ ks) = ground (arith, is_key-last k ks)

is_key-add_key : (k j : Key) (ks : List Key) → is_key k ks ≡ true → is_key k (add_key ks j) ≡ true
unfolding add_key
is_key-add_key k j ks h = elim (Bool-cases (is_key j ks)) [
  | inl old ↦ rw old h
  | inr new ↦ rw new (is_key-append k ks (j ∷ []) h)
]

add_key_here : (k : Key) (ks : List Key) → is_key k (add_key ks k) ≡ true
unfolding add_key
add_key_here k ks = elim (Bool-cases (is_key k ks)) [
  | inl old ↦ rw old old
  | inr new ↦ rw new (is_key-last k ks)
]

not_is_key : (k : Key) (ks : List Key) → is_key k ks ≡ false → All (λ j. same_key k j ≡ false) ks
unfolding is_key
not_is_key k [] h = tt
not_is_key k (x ∷ ks) h = (ground (arith, h), not_is_key k ks (ground (arith, h)))

module _ (f : Float) where
  open f use {F}

  is_key-keys_from :
      (k : Key) (ks : List Key) (es : List (LinkEdge F))
      → is_key k ks ≡ true
      → is_key k (keys_from f ks es) ≡ true
  unfolding keys_from
  is_key-keys_from k ks [] h = h
  is_key-keys_from k ks (e ∷ es) h =
      is_key-keys_from k (add_key ks (key_of e)) es (is_key-add_key k (key_of e) ks h)

  keys_from-snoc :
      (ks : List Key) (es : List (LinkEdge F)) (e : LinkEdge F)
      → keys_from f ks (es ++ e ∷ []) ≡ add_key (keys_from f ks es) (key_of e)
  unfolding keys_from
  keys_from-snoc ks [] e = refl
  keys_from-snoc ks (x ∷ es) e = keys_from-snoc (add_key ks (key_of x)) es e

  -- A key that is not among the keys has no edges.
  not_is_key-matching :
      (k : Key) (ks : List Key) (es : List (LinkEdge F))
      → is_key k (keys_from f ks es) ≡ false
      → matching f k es ≡ []
  unfolding keys_from matching
  not_is_key-matching k ks [] h = refl
  not_is_key-matching k ks (e ∷ es) h = elim (Bool-cases (same_key k (key_of e))) [
    | inl same ↦
        let here : is_key k (add_key ks (key_of e)) ≡ true =
          subst (λ j. is_key j (add_key ks (key_of e)) ≡ true) (sym (same_key→eq k (key_of e) same))
            (add_key_here (key_of e) ks) in
        absurd (ground (arith, h, is_key-keys_from k (add_key ks (key_of e)) es here))
    | inr other ↦ ground (arith, other, not_is_key-matching k (add_key ks (key_of e)) es h)
  ]

  -- Every one of the keys has edges.
  HasEdges : List (LinkEdge F) → Key → Type 0
  HasEdges es k = matching f k es ≢ []

  append_ne : {B : Type 0} (xs ys : List B) → xs ≢ [] → xs ++ ys ≢ []
  append_ne [] ys n e = n refl
  append_ne (x ∷ xs) ys n e = cc

  snoc_ne : {B : Type 0} (xs : List B) (y : B) → xs ++ y ∷ [] ≢ []
  snoc_ne [] y e = cc
  snoc_ne (x ∷ xs) y e = cc

  HasEdges-append :
      (ks : List Key) (es ds : List (LinkEdge F))
      → All (HasEdges es) ks
      → All (HasEdges (es ++ ds)) ks
  unfolding HasEdges
  HasEdges-append [] es ds all = tt
  HasEdges-append (k ∷ ks) es ds (n, all) = (
    subst (λ l. l ≢ []) (sym (matching-append f k es ds))
        (append_ne (matching f k es) (matching f k ds) n),
    HasEdges-append ks es ds all,
  )

  HasEdges-add_key :
      (ks : List Key) (es : List (LinkEdge F)) (e : LinkEdge F)
      → All (HasEdges es) ks
      → All (HasEdges (es ++ e ∷ [])) (add_key ks (key_of e))
  unfolding HasEdges add_key
  HasEdges-add_key ks es e all = elim (Bool-cases (is_key (key_of e) ks)) [
    | inl old ↦ rw old (HasEdges-append ks es (e ∷ []) all)
    | inr new ↦ rw new (
        All-append (HasEdges (es ++ e ∷ [])) ks (key_of e ∷ []) (HasEdges-append ks es (e ∷ []) all)
          (
            subst (λ l. l ≢ [])
                (sym (
                  matching-append f (key_of e) es (e ∷ [])
                  ∙ ap (λ l. matching f (key_of e) es ++ l)
                      (matching_same f (key_of e) e (same_key_refl (key_of e)))))
                (snoc_ne (matching f (key_of e) es) e),
            tt,
          ))
  ]

  -- The candidates of the edges.
  abbrev pub candidates_of : List (LinkEdge F) → List (Evidence F)
  candidates_of es = map (evidence_of f es) (keys f es)

  has_key-map :
      (k : Key) (es : List (LinkEdge F)) (ks : List Key)
      → has_key f k (map (evidence_of f es) ks) ≡ is_key k ks
  unfolding has_key is_key
  has_key-map k es [] = refl
  has_key-map k es (j ∷ ks) = ground (arith, has_key-map k es ks)

  update_key-map :
      (e : LinkEdge F) (es : List (LinkEdge F)) (ks : List Key)
      → All (HasEdges es) ks
      → update_key f e (map (evidence_of f es) ks) ≡ map (evidence_of f (es ++ e ∷ [])) ks
  unfolding update_key HasEdges
  update_key-map e es [] all = refl
  update_key-map e es (k ∷ ks) (n, all) = elim (Bool-cases (same_key (key_of e) k)) [
    | inl same ↦ rw same (
        ap₂ (λ a b. a ∷ b) (evidence_same f k es e (same_key_comm k (key_of e) ∙ same) n)
          (update_key-map e es ks all))
    | inr other ↦ rw other (
        ap₂ (λ a b. a ∷ b) (evidence_other f k es e (same_key_comm k (key_of e) ∙ other))
          (update_key-map e es ks all))
  ]

  others-map :
      (e : LinkEdge F) (es : List (LinkEdge F)) (ks : List Key)
      → All (λ j. same_key (key_of e) j ≡ false) ks
      → map (evidence_of f es) ks ≡ map (evidence_of f (es ++ e ∷ [])) ks
  others-map e es [] all = refl
  others-map e es (k ∷ ks) (n, all) =
      ap₂ (λ a b. a ∷ b) (evidence_other f k es e (same_key_comm k (key_of e) ∙ n))
        (others-map e es ks all)

  map-append : {A B : Type 0} (g : A → B) (xs ys : List A) → map g (xs ++ ys) ≡ map g xs ++ map g ys
  map-append g [] ys = refl
  map-append g (x ∷ xs) ys = ap (λ l. g x ∷ l) (map-append g xs ys)

  add_edge-candidates_of :
      (es : List (LinkEdge F)) (e : LinkEdge F)
      → All (HasEdges es) (keys f es)
      → add_edge f (candidates_of es) e ≡ candidates_of (es ++ e ∷ [])
  unfolding add_edge add_key
  add_edge-candidates_of es e all = elim (Bool-cases (is_key (key_of e) (keys f es))) [
    | inl old ↦ rw (has_key-map (key_of e) es (keys f es)) (
        rw old (
          update_key-map e es (keys f es) all
          ∙ ap (map (evidence_of f (es ++ e ∷ []))) (sym (keys_from-snoc [] es e ∙ rw old refl))))
    | inr new ↦ rw (has_key-map (key_of e) es (keys f es)) (
        rw new (
          ap₂ (λ a b. a ++ b ∷ [])
            (others-map e es (keys f es) (not_is_key (key_of e) (keys f es) new))
            (evidence_first f es e (not_is_key-matching (key_of e) [] es new))
          ∙ sym (map-append (evidence_of f (es ++ e ∷ [])) (keys f es) (key_of e ∷ []))
          ∙ ap (map (evidence_of f (es ++ e ∷ []))) (sym (keys_from-snoc [] es e ∙ rw new refl))))
  ]

  group_edges-candidates_of :
      (es ds : List (LinkEdge F))
      → All (HasEdges es) (keys f es)
      → group_edges f (candidates_of es) ds ≡ candidates_of (es ++ ds)
  unfolding group_edges
  group_edges-candidates_of es [] all = ap candidates_of (sym (append-nil es))
  group_edges-candidates_of es (d ∷ ds) all =
      ap (λ cs. group_edges f cs ds) (add_edge-candidates_of es d all)
      ∙ group_edges-candidates_of (es ++ d ∷ []) ds (
          subst (All (HasEdges (es ++ d ∷ []))) (sym (keys_from-snoc [] es d))
            (HasEdges-add_key (keys f es) es d all))
      ∙ ap candidates_of (append_assoc es (d ∷ []) ds)

  keys-HasEdges_from :
      (ks : List Key) (es ds : List (LinkEdge F))
      → All (HasEdges es) ks
      → All (HasEdges (es ++ ds)) (keys_from f ks ds)
  unfolding keys_from
  keys-HasEdges_from ks es [] all = subst (λ l. All (HasEdges l) ks) (sym (append-nil es)) all
  keys-HasEdges_from ks es (d ∷ ds) all =
      subst (λ l. All (HasEdges l) (keys_from f (add_key ks (key_of d)) ds))
        (append_assoc es (d ∷ []) ds)
        (keys-HasEdges_from (add_key ks (key_of d)) (es ++ d ∷ []) ds
          (HasEdges-add_key ks es d all))

  -- The loop over the edges gives the evidence of each key, in the order of their first occurrence.
  pub group_edges_lem : (es : List (LinkEdge F)) → group_edges f [] es ≡ candidates_of es
  unfolding keys_from
  group_edges_lem es = group_edges-candidates_of [] es tt

  pub keys-HasEdges : (es : List (LinkEdge F)) → All (λ k. matching f k es ≢ []) (keys f es)
  unfolding HasEdges
  keys-HasEdges es = keys-HasEdges_from [] [] es tt

  pub no_key-matching :
      (k : Key) (es : List (LinkEdge F)) → is_key k (keys f es) ≡ false → matching f k es ≡ []
  no_key-matching k es h = not_is_key-matching k [] es h

  -- No key occurs twice.
  abbrev pub IsDistinct : List Key → Type 0
  IsDistinct [] = Unit
  IsDistinct (k ∷ ks) = (is_key k ks ≡ false) × IsDistinct ks

  is_key-snoc :
      (k j : Key) (ks : List Key)
      → same_key k j ≡ false
      → is_key k ks ≡ false
      → is_key k (ks ++ j ∷ []) ≡ false
  unfolding is_key
  is_key-snoc k j [] n h = ground (arith, n)
  is_key-snoc k j (x ∷ ks) n h = ground (arith, n, h, is_key-snoc k j ks)

  IsDistinct-snoc :
      (ks : List Key) (j : Key) → IsDistinct ks → is_key j ks ≡ false → IsDistinct (ks ++ j ∷ [])
  unfolding is_key
  IsDistinct-snoc [] j d h = (refl, tt)
  IsDistinct-snoc (k ∷ ks) j (n, d) h = (
    is_key-snoc k j ks (same_key_comm k j ∙ ground (arith, h)) n,
    IsDistinct-snoc ks j d (ground (arith, h)),
  )

  IsDistinct-add_key : (ks : List Key) (j : Key) → IsDistinct ks → IsDistinct (add_key ks j)
  unfolding add_key
  IsDistinct-add_key ks j d = elim (Bool-cases (is_key j ks)) [
    | inl old ↦ rw old d
    | inr new ↦ rw new (IsDistinct-snoc ks j d new)
  ]

  keys_from-IsDistinct :
      (ks : List Key) (es : List (LinkEdge F)) → IsDistinct ks → IsDistinct (keys_from f ks es)
  unfolding keys_from
  keys_from-IsDistinct ks [] d = d
  keys_from-IsDistinct ks (e ∷ es) d =
      keys_from-IsDistinct (add_key ks (key_of e)) es (IsDistinct-add_key ks (key_of e) d)

  pub keys-IsDistinct : (es : List (LinkEdge F)) → IsDistinct (keys f es)
  keys-IsDistinct es = keys_from-IsDistinct [] es tt
