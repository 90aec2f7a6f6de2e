-- ===== src/Matchers/Ensemble/Group.antt =====
-- The candidates as the edges of each key: grouping by a map against grouping by a filter.
use linker_agent.Prelude.{
  ℕ, ◌≡◌, ◌≢◌, refl, sym, ap, ap₂, ◌∙◌, subst, inl, inr, Bool, true, false, List, [], ◌∷◌, ◌++◌,
  map, append-nil, eq_text_refl, eq_text→eq, if◌then◌else◌, Bool-cases, arith,
}
use linker_agent.Matchers.{Float, LinkEdge, less_i64}
use linker_agent.Matchers.Ensemble.{Key, same_key, key_of, Evidence, start_evidence, add_evidence}

pub same_key→eq : (a b : Key) → same_key a b ≡ true → a ≡ b
unfolding same_key
same_key→eq a b h =
    ground (arith, h, eq_text→eq a.from b.from, eq_text→eq a.to b.to, eq_text→eq a.kind b.kind)

pub same_key_refl : (a : Key) → same_key a a ≡ true
unfolding same_key
same_key_refl a = ground (arith, eq_text_refl a.from, eq_text_refl a.to, eq_text_refl a.kind)

pub same_key_comm : (a b : Key) → same_key a b ≡ same_key b a
same_key_comm a b = elim (Bool-cases (same_key a b)) [
  | inl h ↦ subst (λ x. same_key a x ≡ same_key x a) (same_key→eq a b h) refl
  | inr h ↦ elim (Bool-cases (same_key b a)) [
    | inl g ↦ subst (λ x. same_key x b ≡ same_key b x) (same_key→eq b a g) refl
    | inr g ↦ h ∙ sym g
  ]
]

unfoldable pub is_key : Key → List Key → Bool
is_key k [] = false
is_key k (x ∷ xs) = let rest = is_key k xs in if same_key k x then true else rest

unfoldable pub add_key : List Key → Key → List Key
add_key ks k = if is_key k ks then ks else ks ++ k ∷ []

module _ (f : Float) where
  open f use {F}

  -- The edges of a key, in order.
  unfoldable pub matching : Key → List (LinkEdge F) → List (LinkEdge F)
  matching k [] = []
  matching k (e ∷ es) = let rest = matching k es in if same_key k (key_of e) then e ∷ rest else rest

  -- The keys of the edges, in the order of their first occurrence.
  unfoldable pub keys_from : List Key → List (LinkEdge F) → List Key
  keys_from ks [] = ks
  keys_from ks (e ∷ es) = keys_from (add_key ks (key_of e)) es

  abbrev pub keys : List (LinkEdge F) → List Key
  keys es = keys_from [] es

  unfoldable pub latest_from : ℕ → List (LinkEdge F) → ℕ
  latest_from t [] = t
  latest_from t (e ∷ es) = latest_from (if less_i64 t e.at then e.at else t) es

  -- The latest time of the edges.
  unfoldable pub latest : List (LinkEdge F) → ℕ
  latest [] = 0
  latest (e ∷ es) = latest_from e.at es

  unfoldable pub highest_from : F → List (LinkEdge F) → F
  highest_from c [] = c
  highest_from c (e ∷ es) = highest_from (if f.less c e.confidence then e.confidence else c) es

  -- What edges say of their key.
  abbrev pub evidence_on : Key → List (LinkEdge F) → Evidence F
  evidence_on k es = record {
    key = k;
    edges = es;
    best_confidence = highest_from f.nought es;
    timestamp = latest es;
    proofs = map (λ (e : LinkEdge F). e.proof) es;
    notes = map (λ (e : LinkEdge F). e.notes) es;
    recipes = map (λ (e : LinkEdge F). e.recipe) es;
  }

  abbrev pub evidence_of : List (LinkEdge F) → Key → Evidence F
  evidence_of es k = evidence_on k (matching k es)

  pub matching-append :
      (k : Key) (xs ys : List (LinkEdge F)) → matching k (xs ++ ys) ≡ matching k xs ++ matching k ys
  unfolding matching
  matching-append k [] ys = refl
  matching-append k (x ∷ xs) ys = ground (arith, matching-append k xs ys)

  pub matching_same :
      (k : Key) (e : LinkEdge F) → same_key k (key_of e) ≡ true → matching k (e ∷ []) ≡ e ∷ []
  unfolding matching
  matching_same k e h = ground (arith, h)

  matching_other :
      (k : Key) (e : LinkEdge F) → same_key k (key_of e) ≡ false → matching k (e ∷ []) ≡ []
  unfolding matching
  matching_other k e h = ground (arith, h)

  latest_from-snoc :
      (t : ℕ) (xs : List (LinkEdge F)) (e : LinkEdge F)
      → latest_from t (xs ++ e ∷ [])
        ≡ (if less_i64 (latest_from t xs) e.at then e.at else latest_from t xs)
  unfolding latest_from
  latest_from-snoc t [] e = refl
  latest_from-snoc t (x ∷ xs) e = latest_from-snoc (if less_i64 t x.at then x.at else t) xs e

  highest_from-snoc :
      (c : F) (xs : List (LinkEdge F)) (e : LinkEdge F)
      → highest_from c (xs ++ e ∷ [])
        ≡ (if f.less (highest_from c xs) e.confidence then e.confidence else highest_from c xs)
  unfolding highest_from
  highest_from-snoc c [] e = refl
  highest_from-snoc c (x ∷ xs) e =
      highest_from-snoc (if f.less c x.confidence then x.confidence else c) xs e

  latest-snoc :
      (xs : List (LinkEdge F)) (e : LinkEdge F)
      → xs ≢ []
      → latest (xs ++ e ∷ []) ≡ (if less_i64 (latest xs) e.at then e.at else latest xs)
  unfolding latest
  latest-snoc [] e n = absurd (n refl)
  latest-snoc (x ∷ xs) e n = latest_from-snoc x.at xs e

  map-snoc :
      {B : Type 0} (g : LinkEdge F → B) (xs : List (LinkEdge F)) (e : LinkEdge F)
      → map g (xs ++ e ∷ []) ≡ map g xs ++ g e ∷ []
  map-snoc g [] e = refl
  map-snoc g (x ∷ xs) e = ap (λ l. g x ∷ l) (map-snoc g xs e)

  evidence_on-snoc :
      (k : Key) (xs : List (LinkEdge F)) (e : LinkEdge F)
      → xs ≢ []
      → add_evidence f (evidence_on k xs) e ≡ evidence_on k (xs ++ e ∷ [])
  unfolding add_evidence
  evidence_on-snoc k xs e n = cc (
    highest_from-snoc f.nought xs e,
    latest-snoc xs e n,
    map-snoc (λ (e : LinkEdge F). e.proof) xs e,
    map-snoc (λ (e : LinkEdge F). e.notes) xs e,
    map-snoc (λ (e : LinkEdge F). e.recipe) xs e,
  )

  evidence_on-one :
      (e : LinkEdge F) → add_evidence f (start_evidence f e) e ≡ evidence_on (key_of e) (e ∷ [])
  unfolding add_evidence start_evidence highest_from latest latest_from
  evidence_on-one e = elim (Bool-cases (less_i64 e.at e.at)) [
    | inl h ↦ rw h refl
    | inr h ↦ rw h refl
  ]

  -- One more edge, seen from a key of its own and from any other.
  pub evidence_same :
      (k : Key) (es : List (LinkEdge F)) (e : LinkEdge F)
      → same_key k (key_of e) ≡ true
      → matching k es ≢ []
      → add_evidence f (evidence_of es k) e ≡ evidence_of (es ++ e ∷ []) k
  evidence_same k es e h n =
      evidence_on-snoc k (matching k es) e n
      ∙ ap (evidence_on k)
          (sym (matching-append k es (e ∷ []) ∙ ap (λ l. matching k es ++ l) (matching_same k e h)))

  pub evidence_other :
      (k : Key) (es : List (LinkEdge F)) (e : LinkEdge F)
      → same_key k (key_of e) ≡ false
      → evidence_of es k ≡ evidence_of (es ++ e ∷ []) k
  evidence_other k es e h = ap (evidence_on k) (
      sym (
        matching-append k es (e ∷ [])
        ∙ ap (λ l. matching k es ++ l) (matching_other k e h)
        ∙ append-nil (matching k es)))

  pub evidence_first :
      (es : List (LinkEdge F)) (e : LinkEdge F)
      → matching (key_of e) es ≡ []
      → add_evidence f (start_evidence f e) e ≡ evidence_of (es ++ e ∷ []) (key_of e)
  evidence_first es e h =
      evidence_on-one e
      ∙ ap (evidence_on (key_of e)) (
          sym (
            matching-append (key_of e) es (e ∷ [])
            ∙ ap₂ (λ a b. a ++ b) h (matching_same (key_of e) e (same_key_refl (key_of e)))))
