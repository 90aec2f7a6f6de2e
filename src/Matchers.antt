-- ===== src/Matchers.antt =====
-- internal/matchers: usage events, billing data, link edges and what the matchers share.
pub mod Deterministic
pub mod Temporal
pub mod SkuOverlap
pub mod Ensemble
pub mod Privacy
pub mod Tests
use linker_agent.Prelude.{
  ℕ, ◌*◌, ◌%◌, Bool, true, false, not, ◌||◌, List, [], ◌∷◌, ◌++◌, Option, none, some, Text, codes,
  eq_text, if◌then◌else◌, lookup, ℤ, pos, negsuc, leb_ℤ, is_nonpos, u64, to_i64, sub64,
}
use linker_agent.Crypto.{Result, ok, err, ◌>>=◌, Hashes, hmac_sha256_hex, join}

-- `float64`: the operations that the matchers use.
pub record Float : Type 1 where
  pub F : Type 0
  pub nought : F
  pub one : F
  pub tenths : ℕ → F
  pub of_i64 : ℤ → F
  pub add : F → F → F
  pub sub : F → F → F
  pub mul : F → F → F
  pub div : F → F → F
  pub less : F → F → Bool
  pub same : F → F → Bool
  pub show2 : F → Text

-- Times are `int64`: words of 64 bits.
pub record UsageEvent : Type 0 where
  pub user : Text
  pub feature : Text
  pub sku : Text
  pub at : ℕ

pub record SubscriptionLite : Type 0 where
  pub id : Text
  pub customer : Text
  pub price_ids : List Text
  pub product_ids : List Text
  pub created_at : ℕ
  pub status : Text

pub record InvoiceLite : Type 0 where
  pub id : Text
  pub customer : Text
  pub subscription : Text
  pub total : ℕ
  pub currency : Text
  pub status : Text
  pub created_at : ℕ
  pub paid : Bool

pub record EdgeMeta : Type 0 where
  pub schema : Text
  pub id_mode : Text

abbrev pub no_meta : EdgeMeta
no_meta = record { schema = []; id_mode = [] }

pub record LinkEdge (F : Type 0) : Type 0 where
  pub meta : EdgeMeta
  pub from : Text
  pub to : Text
  pub kind : Text
  pub confidence : F
  pub proof : Text
  pub recipe : Text
  pub at : ℕ
  pub notes : Text

-- `Matcher`.
pub record Matcher (F : Type 0) : Type 0 where
  pub name : Text
  pub match_all :
      List UsageEvent → List SubscriptionLite → List InvoiceLite → Result (List (LinkEdge F))

pub record Recipe (F : Type 0) : Type 0 where
  pub name : Text
  pub version : Text
  pub weights : List (Text × F)
  pub threshold : F
  pub temporal_window_sec : ℕ
  pub sku_overlap_min : F

unfoldable pub less_i64 : ℕ → ℕ → Bool
less_i64 a b = not (leb_ℤ (to_i64 b) (to_i64 a))

-- `if diff < 0 { diff = -diff }`, with the wrap-around of int64.
unfoldable pub abs_i64 : ℕ → ℕ
abs_i64 d = if less_i64 d 0 then sub64 0 d else d

unfoldable pub within : (ts center window_sec : ℕ) → Bool
within ts center window_sec =
    if is_nonpos (to_i64 window_sec)
    then false
    else leb_ℤ (to_i64 (abs_i64 (sub64 ts center))) (to_i64 window_sec)

pub data RecipeError : Type 0 where
  name_empty version_empty threshold_out_of_range window_negative overlap_out_of_range : RecipeError

unfoldable pub validate_recipe : (f : Float) → Recipe f.F → Option RecipeError
validate_recipe f r =
    if eq_text r.name []
    then some name_empty
    else if eq_text r.version []
    then some version_empty
    else if f.less r.threshold f.nought || f.less f.one r.threshold
    then some threshold_out_of_range
    else if less_i64 r.temporal_window_sec 0
    then some window_negative
    else if f.less r.sku_overlap_min f.nought || f.less f.one r.sku_overlap_min
    then some overlap_out_of_range
    else none

-- A loop that appends the edges of each element, and stops at the first error.
unfoldable pub collect {ℓ} :
    {A : Type ℓ} {B : Type 0} → (A → Result (List B)) → List A → Result (List B)
collect f [] = ok []
collect f (x ∷ xs) = f x >>= λ ys. collect f xs >>= λ zs. ok (ys ++ zs)

-- A map of lists: an element is appended to the list of its key.
unfoldable pub add_to {ℓ} : {A : Type ℓ} → Text → A → List (Text × List A) → List (Text × List A)
add_to key x [] = (key, x ∷ []) ∷ []
add_to key x ((k, xs) ∷ es) =
    if eq_text key k then (k, xs ++ x ∷ []) ∷ es else (k, xs) ∷ add_to key x es

-- The list of a key, empty if there is none.
unfoldable pub list_of {ℓ} : {A : Type ℓ} → Text → List (Text × List A) → List A
list_of key m = elim (lookup key m) [ none ↦ [] | some xs ↦ xs ]

-- The proofs: the MAC of the parts joined with a bar.
unfoldable pub generate_proof : Hashes → (tenant_salt : Text) → List Text → Result Text
generate_proof h salt parts = hmac_sha256_hex h salt (join (codes "|") parts)
