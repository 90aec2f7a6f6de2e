-- ===== src/Prelude/Assoc.antt =====
-- Go's maps with string keys, as association lists: the first entry of a key counts.
use mathlib.Core.Path.{◌≡◌, refl, subst}
use mathlib.Core.Logic.{◌≢◌, inl, inr}
use mathlib.Core.Bool.{Bool, true}
use mathlib.Core.List.{List, [], ◌∷◌}
use mathlib.Core.Option.{Option, none, some}
use native.Mathlib.Omega.{arith}
use linker_agent.Prelude.Lists.{All}
use linker_agent.Prelude.Compare.{if◌then◌else◌, Bool-cases}
use linker_agent.Prelude.Bytes.{Text, eq_text, eq_text_refl, eq_text_ne}

unfoldable pub lookup {ℓ} : {A : Type ℓ} → Text → List (Text × A) → Option A
lookup k [] = none
lookup k ((k', v) ∷ es) = let rest = lookup k es in if eq_text k k' then some v else rest

-- The entries whose value passes the test.
unfoldable pub keep {ℓ} : {A : Type ℓ} → (A → Bool) → List (Text × A) → List (Text × A)
keep p [] = []
keep p ((k, v) ∷ es) = let rest = keep p es in if p v then (k, v) ∷ rest else rest

pub lookup-here {ℓ} :
    {A : Type ℓ} (k : Text) (v : A) (es : List (Text × A)) → lookup k ((k, v) ∷ es) ≡ some v
unfolding lookup
lookup-here k v es = rw (eq_text_refl k) refl

pub lookup-there {ℓ} :
    {A : Type ℓ} (k k' : Text) (v : A) (es : List (Text × A))
    → k ≢ k'
    → lookup k ((k', v) ∷ es) ≡ lookup k es
unfolding lookup
lookup-there k k' v es n = rw (eq_text_ne k k' n) refl

-- An entry that passes the test is kept.
pub lookup-keep {ℓ} :
    {A : Type ℓ} (p : A → Bool) (k : Text) (v : A) (es : List (Text × A))
    → lookup k es ≡ some v
    → p v ≡ true
    → lookup k (keep p es) ≡ some v
unfolding lookup keep
lookup-keep p k v [] h good = cc
lookup-keep p k v ((k', v') ∷ es) h good = elim (Bool-cases (eq_text k k')) [
  | inl same ↦ ground (arith, same, good)
  | inr other ↦ ground (arith, other, lookup-keep p k v es)
]

-- What holds of every value holds of the one that is found.
pub lookup-All {ℓ κ} :
    {A : Type ℓ} (P : A → Type κ) (k : Text) (v : A) (es : List (Text × A))
    → All (λ e. P e.1) es
    → lookup k es ≡ some v
    → P v
unfolding lookup
lookup-All P k v [] all h = absurd (cc)
lookup-All P k v ((k', v') ∷ es) (p, ps) h = elim (Bool-cases (eq_text k k')) [
  | inl same ↦ subst P (ground (arith, same, h)) p
  | inr other ↦ lookup-All P k v es ps (ground (arith, other, h))
]
