-- ===== src/Matchers/Ensemble/Order.antt =====
-- Sorting and rearranging: what keeps the elements, and when the result is in order.
use mathlib.Core.List.{Permᴰ}
use mathlib.Core.List.Permᴰ
use linker_agent.Prelude.{
  append_assoc, suc, ◌≤◌, ◌≡◌, refl, sym, ap, ap₂, ◌∙◌, subst, inl, inr, ◌⊎◌, Bool, true, false,
  List, [], ◌∷◌, ◌++◌, All, Bool-cases, length, arith,
}
use linker_agent.Matchers.Ensemble.{insert_by, sort_by}

module _ {ℓ} {A : Type ℓ} where
  insert_by-perm : (less : A → A → Bool) (x : A) (l : List A) → Permᴰ (insert_by less x l) (x ∷ l)
  unfolding insert_by
  insert_by-perm less x [] = Permᴰ.refl (x ∷ [])
  insert_by-perm less x (y ∷ ys) = elim (Bool-cases (less x y)) [
    | inl h ↦ rw h (Permᴰ.refl (x ∷ y ∷ ys))
    | inr h ↦ rw h (Permᴰ.trans (Permᴰ.cons refl (insert_by-perm less x ys)) (Permᴰ.swap refl refl))
  ]

  pub sort_by-perm : (less : A → A → Bool) (l : List A) → Permᴰ (sort_by less l) l
  unfolding sort_by
  sort_by-perm less [] = Permᴰ.nil
  sort_by-perm less (x ∷ xs) =
      Permᴰ.trans (insert_by-perm less x (sort_by less xs)) (Permᴰ.cons refl (sort_by-perm less xs))

  pub All-perm {κ} : (P : A → Type κ) {xs ys : List A} → Permᴰ xs ys → All P ys → All P xs
  All-perm P Permᴰ.nil all = tt
  All-perm P (Permᴰ.cons e p) (h, all) = (subst P (sym e) h, All-perm P p all)
  All-perm P (Permᴰ.swap e d) (h, (g, all)) = (subst P (sym e) g, (subst P (sym d) h, all))
  All-perm P (Permᴰ.trans p q) all = All-perm P p (All-perm P q all)

  length-perm : {xs ys : List A} → Permᴰ xs ys → length xs ≡ length ys
  length-perm Permᴰ.nil = refl
  length-perm (Permᴰ.cons e p) = ap suc (length-perm p)
  length-perm (Permᴰ.swap e d) = refl
  length-perm (Permᴰ.trans p q) = length-perm p ∙ length-perm q

  -- A rearrangement of at most one element is the same list.
  pub perm_one : {xs ys : List A} → Permᴰ xs ys → length ys ≤ 1 → xs ≡ ys
  perm_one Permᴰ.nil le = refl
  perm_one (Permᴰ.cons e p) le = ap₂ (λ h t. h ∷ t) e (perm_one p (omega arith))
  perm_one (Permᴰ.swap e d) le = absurd (omega arith)
  perm_one (Permᴰ.trans p q) le = perm_one p (omega (arith, length-perm q)) ∙ perm_one q le

  -- A strict order that never skips an element between two ordered ones.
  pub record IsOrder (less : A → A → Bool) : Type ℓ where
    pub asym : (a b : A) → less a b ≡ true → less b a ≡ false
    pub between : (a b c : A) → less a c ≡ true → (less a b ≡ true) ⊎ (less b c ≡ true)

  -- No element is less than an earlier one.
  abbrev pub IsSorted : (A → A → Bool) → List A → Type 0
  IsSorted less [] = Unit
  IsSorted less (x ∷ xs) = All (λ y. less y x ≡ false) xs × IsSorted less xs

  not_less_trans :
      (less : A → A → Bool)
      → IsOrder less
      → (x y z : A) → less x y ≡ true
      → less z y ≡ false
      → less z x ≡ false
  not_less_trans less o x y z xy zy = elim (Bool-cases (less z x)) [
    | inr no_ ↦ no_
    | inl zx ↦ elim (o.between z y x zx) [
      | inl h ↦ absurd (cc)
      | inr h ↦ absurd (ground (arith, h, o.asym x y xy))
    ]
  ]

  insert_by-IsSorted :
      (less : A → A → Bool)
      → IsOrder less
      → (x : A) (l : List A) → IsSorted less l
      → IsSorted less (insert_by less x l)
  unfolding insert_by
  insert_by-IsSorted less o x [] s = (tt, tt)
  insert_by-IsSorted less o x (y ∷ ys) (below, s) = elim (Bool-cases (less x y)) [
    | inl h ↦ rw h ((o.asym x y h, later ys below h), (below, s))
    | inr h ↦ rw h (
      All-perm (λ z. less z y ≡ false) (insert_by-perm less x ys) (h, below),
      insert_by-IsSorted less o x ys s,
    )
  ]
    where
      later :
          (zs : List A)
          → All (λ z. less z y ≡ false) zs
          → less x y ≡ true
          → All (λ z. less z x ≡ false) zs
      later [] all h = tt
      later (z ∷ zs) (n, all) h = (not_less_trans less o x y z h n, later zs all h)

  pub sort_by-IsSorted :
      (less : A → A → Bool) → IsOrder less → (l : List A) → IsSorted less (sort_by less l)
  unfolding sort_by
  sort_by-IsSorted less o [] = tt
  sort_by-IsSorted less o (x ∷ xs) =
      insert_by-IsSorted less o x (sort_by less xs) (sort_by-IsSorted less o xs)

-- What a pass does element by element, it does to a rearranged list.
pub each-perm :
    {A B : Type 0} (g : List A → List B) (part : A → List B)
    → ((x : A) (xs : List A) → g (x ∷ xs) ≡ part x ++ g xs)
    → {xs ys : List A} → Permᴰ xs ys
    → Permᴰ (g xs) (g ys)
each-perm g part on Permᴰ.nil = Permᴰ.refl (g [])
each-perm {A} g part on (Permᴰ.cons {a = a} {b = b} {l₁ = l} {l₂ = r} e p) =
    subst (λ x. Permᴰ (g (a ∷ l)) (g (x ∷ r))) e
      (rw (on a l) (rw (on a r) (Permᴰ.append_left (part a) (each-perm g part on p))))
each-perm {A} g part on (Permᴰ.swap {a = a} {b = b} {a' = c} {b' = d} {l = l} e h) =
    subst (λ x. Permᴰ (g (a ∷ b ∷ l)) (g (c ∷ x ∷ l))) e
      (subst (λ x. Permᴰ (g (a ∷ b ∷ l)) (g (x ∷ a ∷ l))) h
        (rw (on a (b ∷ l)) (
          rw (on b l) (
            rw (on b (a ∷ l)) (
              rw (on a l) (
                subst (λ u. Permᴰ u (part b ++ (part a ++ g l)))
                  (append_assoc (part a) (part b) (g l))
                  (subst (λ u. Permᴰ ((part a ++ part b) ++ g l) u)
                    (append_assoc (part b) (part a) (g l))
                    (Permᴰ.append_right (g l) (Permᴰ.append_comm (part a) (part b))))))))))
each-perm g part on (Permᴰ.trans p q) = Permᴰ.trans (each-perm g part on p) (each-perm g part on q)
