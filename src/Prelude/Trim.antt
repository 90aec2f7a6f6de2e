-- ===== src/Prelude/Trim.antt =====
-- Go's `strings.TrimSpace` on byte strings in UTF-8.
use Prim.Native.Nat.{ℕ, zero, suc}
use mathlib.Core.Path.{◌≡◌, refl, ap, ◌∙◌}
use mathlib.Core.Bool.{true, false}
use mathlib.Core.List.{List, [], ◌∷◌, map, reverse, reverse-reverse}
use mathlib.Core.Option.{Option, none, some}
use native.Mathlib.Omega.{arith}
use linker_agent.Prelude.Lists.{length, drop}
use linker_agent.Prelude.Bytes.{Text, has_prefix}

-- The white space of Unicode, each as its bytes.
abbrev pub spaces : List Text
spaces =
    (9 ∷ [])
    ∷ (10 ∷ [])
    ∷ (11 ∷ [])
    ∷ (12 ∷ [])
    ∷ (13 ∷ [])
    ∷ (32 ∷ [])
    ∷ (194 ∷ 133 ∷ [])
    ∷ (194 ∷ 160 ∷ [])
    ∷ (225 ∷ 154 ∷ 128 ∷ [])
    ∷ (226 ∷ 128 ∷ 128 ∷ [])
    ∷ (226 ∷ 128 ∷ 129 ∷ [])
    ∷ (226 ∷ 128 ∷ 130 ∷ [])
    ∷ (226 ∷ 128 ∷ 131 ∷ [])
    ∷ (226 ∷ 128 ∷ 132 ∷ [])
    ∷ (226 ∷ 128 ∷ 133 ∷ [])
    ∷ (226 ∷ 128 ∷ 134 ∷ [])
    ∷ (226 ∷ 128 ∷ 135 ∷ [])
    ∷ (226 ∷ 128 ∷ 136 ∷ [])
    ∷ (226 ∷ 128 ∷ 137 ∷ [])
    ∷ (226 ∷ 128 ∷ 138 ∷ [])
    ∷ (226 ∷ 128 ∷ 168 ∷ [])
    ∷ (226 ∷ 128 ∷ 169 ∷ [])
    ∷ (226 ∷ 128 ∷ 175 ∷ [])
    ∷ (226 ∷ 129 ∷ 159 ∷ [])
    ∷ (227 ∷ 128 ∷ 128 ∷ [])
    ∷ []

-- The text after the first of the prefixes that it has.
unfoldable pub after : List Text → Text → Option Text
after [] t = none
after (s ∷ ss) t = elim (has_prefix s t) [ true ↦ some (drop (length s) t) | false ↦ after ss t ]

-- One round for each byte is enough, since a round drops one at least.
unfoldable pub trim_left : (rounds : ℕ) → List Text → Text → Text
trim_left zero ss t = t
trim_left (suc n) ss t = elim (after ss t) [ none ↦ t | some t' ↦ trim_left n ss t' ]

unfoldable pub trim_space : Text → Text
trim_space t =
    let left = trim_left (length t) spaces t in
    reverse (trim_left (length left) (map reverse spaces) (reverse left))

trim_left-none : (n : ℕ) (ss : List Text) (t : Text) → after ss t ≡ none → trim_left n ss t ≡ t
unfolding trim_left
trim_left-none zero ss t h = refl
trim_left-none (suc n) ss t h = ground (arith, h)

-- A text without white space at its ends is left as it is.
pub trim_space-clean :
    (t : Text)
    → after spaces t ≡ none
    → after (map reverse spaces) (reverse t) ≡ none
    → trim_space t ≡ t
unfolding trim_space
trim_space-clean t l r = rw (trim_left-none (length t) spaces t l) (
    ap (λ u. reverse u) (trim_left-none (length t) (map reverse spaces) (reverse t) r)
    ∙ reverse-reverse t)
