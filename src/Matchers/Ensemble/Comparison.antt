-- ===== src/Matchers/Ensemble/Comparison.antt =====
-- The order of the combined edges, from the comparisons of floats and of texts.
use linker_agent.Prelude.{◌≡◌, refl, inl, inr, ◌⊎◌, true, false, not, ◌&&◌, [], ◌∷◌, Text, arith}
use linker_agent.Crypto.{Hashes}
use linker_agent.Matchers.{Float, LinkEdge, Recipe}
use linker_agent.Matchers.Ensemble.{Shuffles, less_text, before}
use linker_agent.Matchers.Ensemble.Order.{IsOrder}

less_text_asym : (a b : Text) → less_text a b ≡ true → less_text b a ≡ false
unfolding less_text
less_text_asym [] [] h = cc
less_text_asym [] (y ∷ ys) h = refl
less_text_asym (x ∷ xs) [] h = cc
less_text_asym (x ∷ xs) (y ∷ ys) h = ground (arith, h, less_text_asym xs ys)

less_text_between :
    (a b c : Text) → less_text a c ≡ true → (less_text a b ≡ true) ⊎ (less_text b c ≡ true)
unfolding less_text
less_text_between [] [] [] h = inl h
less_text_between [] [] (z ∷ zs) h = inr refl
less_text_between [] (y ∷ ys) c h = inl refl
less_text_between (x ∷ xs) b [] h = absurd (cc)
less_text_between (x ∷ xs) [] (z ∷ zs) h = inr refl
less_text_between (x ∷ xs) (y ∷ ys) (z ∷ zs) h = ground (arith, h, less_text_between xs ys zs)

-- What the comparisons of `float64` do on numbers that are not NaN.
pub record IsComparison (f : Float) : Type 0 where
  pub order : IsOrder f.less
  pub same_iff : (a b : f.F) → f.same a b ≡ (not (f.less a b) && not (f.less b a))

module _ (f : Float) (h : Hashes) (sh : Shuffles f) (recipe : Recipe f.F) (salt : Text) where
  open f use {F}

  before_asym :
      IsComparison f
      → (a b : LinkEdge F) → before f h sh recipe salt a b ≡ true
      → before f h sh recipe salt b a ≡ false
  unfolding before
  before_asym cmp a b e = ground (
    arith,
    e,
    cmp.same_iff a.confidence b.confidence,
    cmp.same_iff b.confidence a.confidence,
    cmp.order.asym a.confidence b.confidence,
    cmp.order.asym b.confidence a.confidence,
    less_text_asym a.from b.from,
  )

  before_between :
      IsComparison f
      → (a b c : LinkEdge F) → before f h sh recipe salt a c ≡ true
      → (before f h sh recipe salt a b ≡ true) ⊎ (before f h sh recipe salt b c ≡ true)
  unfolding before
  before_between cmp a b c e = ground (
    arith,
    e,
    cmp.same_iff a.confidence b.confidence,
    cmp.same_iff b.confidence c.confidence,
    cmp.same_iff a.confidence c.confidence,
    cmp.order.between a.confidence b.confidence c.confidence,
    cmp.order.between c.confidence b.confidence a.confidence,
    cmp.order.between a.confidence c.confidence b.confidence,
    cmp.order.between b.confidence c.confidence a.confidence,
    cmp.order.between b.confidence a.confidence c.confidence,
    cmp.order.between c.confidence a.confidence b.confidence,
    cmp.order.asym a.confidence b.confidence,
    cmp.order.asym b.confidence c.confidence,
    cmp.order.asym a.confidence c.confidence,
    less_text_between a.from b.from c.from,
  )

  pub before-IsOrder : IsComparison f → IsOrder (before f h sh recipe salt)
  before-IsOrder cmp = record { asym = before_asym cmp; between = before_between cmp }
