-- ===== src/Matchers/Privacy.antt =====
-- What it is that inputs and edges are safe, and the loops and indices that keep it.
pub mod Exact
pub mod Indirect
use linker_agent.Prelude.{
  ◌≡◌, refl, sym, subst, inl, inr, ◌⊎◌, Bool, true, false, List, [], ◌∷◌, ◌++◌, Option, none, some,
  Text, codes, eq_text, eq_text→eq, if◌then◌else◌, lookup, All, All-append, Bool-cases, arith, ℕ,
}
use linker_agent.Crypto.{Result, ok, err, ◌>>=◌, Hashes}
use linker_agent.Matchers.{
  Float, UsageEvent, SubscriptionLite, InvoiceLite, LinkEdge, Matcher, collect, add_to, list_of,
  within, generate_proof,
}

-- What holds of the value, if there is one.
abbrev pub OnOk {ℓ κ} : {A : Type ℓ} → (A → Type κ) → Result A → Type κ
OnOk Q (ok a) = Q a
OnOk Q (err e) = Unit

OnOk-then {ℓ μ κ ν} :
    {A : Type ℓ} {B : Type μ} (P : A → Type κ) (Q : B → Type ν) (r : Result A) (k : A → Result B)
    → OnOk P r
    → ((a : A) → P a → OnOk Q (k a))
    → OnOk Q (r >>= k)
OnOk-then P Q (ok a) k p next = next a p
OnOk-then P Q (err e) k p next = tt

pub OnOk-any {ℓ μ ν} :
    {A : Type ℓ} {B : Type μ} (Q : B → Type ν) (r : Result A) (k : A → Result B)
    → ((a : A) → OnOk Q (k a))
    → OnOk Q (r >>= k)
OnOk-any Q (ok a) k next = next a
OnOk-any Q (err e) k next = tt

pub OnOk-collect {ℓ} :
    {A : Type ℓ} {B : Type 0} (P : A → Type 0) (Q : B → Type 0) (f : A → Result (List B))
    (xs : List A)
    → All P xs
    → ((x : A) → P x → OnOk (All Q) (f x))
    → OnOk (All Q) (collect f xs)
unfolding collect
OnOk-collect P Q f [] all each = tt
OnOk-collect P Q f (x ∷ xs) (p, all) each =
    OnOk-then (All Q) (All Q) (f x) (λ ys. collect f xs >>= λ zs. ok (ys ++ zs)) (each x p)
      (λ ys hy.
        OnOk-then (All Q) (All Q) (collect f xs) (λ zs. ok (ys ++ zs))
          (OnOk-collect P Q f xs all each) (λ zs hz. All-append Q ys zs hy hz))

-- The lists of an index.
abbrev pub InLists : {A : Type 0} → (A → Type 0) → List (Text × List A) → Type 0
InLists P [] = Unit
InLists P ((k, xs) ∷ m) = All P xs × InLists P m

pub add_to-InLists :
    {A : Type 0} (P : A → Type 0) (key : Text) (x : A) (m : List (Text × List A))
    → P x
    → InLists P m
    → InLists P (add_to key x m)
unfolding add_to
add_to-InLists P key x [] p all = ((p, tt), tt)
add_to-InLists P key x ((k, xs) ∷ m) p (here, there) = elim (Bool-cases (eq_text key k)) [
  | inl h ↦ rw h (All-append P xs (x ∷ []) here (p, tt), there)
  | inr h ↦ rw h (here, add_to-InLists P key x m p there)
]

list_of-here :
    {A : Type 0} (key k : Text) (xs : List A) (m : List (Text × List A))
    → eq_text key k ≡ true
    → list_of key ((k, xs) ∷ m) ≡ xs
unfolding list_of lookup
list_of-here key k xs m h = rw (h, list_of, lookup) refl

list_of-there :
    {A : Type 0} (key k : Text) (xs : List A) (m : List (Text × List A))
    → eq_text key k ≡ false
    → list_of key ((k, xs) ∷ m) ≡ list_of key m
unfolding list_of lookup
list_of-there key k xs m h = rw (h, list_of, lookup) refl

pub list_of-All :
    {A : Type 0} (P : A → Type 0) (key : Text) (m : List (Text × List A))
    → InLists P m
    → All P (list_of key m)
unfolding list_of lookup
list_of-All P key [] all = tt
list_of-All P key ((k, xs) ∷ m) (here, there) = elim (Bool-cases (eq_text key k)) [
  | inl h ↦ subst (All P) (sym (list_of-here key k xs m h)) here
  | inr h ↦ subst (All P) (sym (list_of-there key k xs m h)) (list_of-All P key m there)
]

pub OnOk-if {ℓ κ} :
    {A : Type ℓ} (Q : A → Type κ) (b : Bool) (x y : Result A)
    → (b ≡ true → OnOk Q x)
    → (b ≡ false → OnOk Q y)
    → OnOk Q (if b then x else y)
OnOk-if Q true x y holds fails = holds refl
OnOk-if Q false x y holds fails = fails refl

-- The identifiers of inputs and edges under a test.
module _ (is_safe : Text → Bool) where
  abbrev pub IsSafe : Text → Type 0
  IsSafe t = is_safe t ≡ true

  abbrev pub SafeUsage : UsageEvent → Type 0
  SafeUsage u = IsSafe u.user

  abbrev pub SafeSubscription : SubscriptionLite → Type 0
  SafeSubscription s =
      IsSafe s.id × IsSafe s.customer × All IsSafe s.price_ids × All IsSafe s.product_ids

  abbrev pub SafeInvoice : InvoiceLite → Type 0
  SafeInvoice i = IsSafe i.id × IsSafe i.customer

  abbrev pub SafeEdge : {F : Type 0} → LinkEdge F → Type 0
  SafeEdge e = IsSafe e.from × IsSafe e.to

  -- A matcher gives safe edges for safe inputs.
  abbrev pub SafeMatcher : {F : Type 0} → Matcher F → Type 0
  SafeMatcher {F} m =
      (usages : List UsageEvent) (subs : List SubscriptionLite) (invs : List InvoiceLite)
      → All SafeUsage usages
      → All SafeSubscription subs
      → All SafeInvoice invs
      → OnOk (All (λ (e : LinkEdge F). SafeEdge e)) (m.match_all usages subs invs)

  module _ (f : Float) (h : Hashes) (salt : Text) where
    open f use {F}

    abbrev pub SafeResult : Result (List (LinkEdge F)) → Type 0
    SafeResult r = OnOk (All (λ (e : LinkEdge F). SafeEdge e)) r

    -- The one edge of a result, as a list.
    pub one_edge_lem :
        (r : Result (LinkEdge F))
        → OnOk (λ (e : LinkEdge F). SafeEdge e) r
        → SafeResult (r >>= λ e. ok (e ∷ []))
    one_edge_lem (ok e) safe = (safe, tt)
    one_edge_lem (err e) safe = tt

    pub then_edges :
        {A : Type 0} (P : A → Type 0) (r : Result A) (k : A → Result (List (LinkEdge F)))
        → OnOk P r
        → ((a : A) → P a → SafeResult (k a))
        → SafeResult (r >>= k)
    then_edges P r k p next = OnOk-then P (All (λ (e : LinkEdge F). SafeEdge e)) r k p next

    -- Two results after each other.
    pub both_edges :
        (r s : Result (List (LinkEdge F)))
        → SafeResult r
        → SafeResult s
        → SafeResult (r >>= λ es. s >>= λ fs. ok (es ++ fs))
    both_edges (ok es) (ok fs) he hf = All-append (λ (e : LinkEdge F). SafeEdge e) es fs he hf
    both_edges (ok es) (err e) he hf = tt
    both_edges (err e) s he hf = tt
