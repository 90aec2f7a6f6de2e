-- ===== src/Crypto.antt =====
-- internal/crypto: hexadecimal MACs, synthetic identifiers, link proofs and the two privacy modes.
pub mod Laws
mod Tests
use linker_agent.Prelude.{
  ℕ, ◌+◌, ◌-◌, ◌*◌, ◌/◌, ◌%◌, Bool, true, false, not, ◌&&◌, ◌||◌, List, [], ◌∷◌, ◌++◌, Option, none,
  some, Text, codes, eq_text, has_prefix, if◌then◌else◌, length, take, leb, ltb,
}

pub data Error : Type 0 where
  empty_salt empty_input invalid_hex empty_inputs invalid_mode : Error

pub data Result {ℓ} (A : Type ℓ) : Type ℓ where
  ok : A → Result A
  err : Error → Result A

infixl 5 ◌>>=◌
abbrev pub ◌>>=◌ {ℓ κ} : {A : Type ℓ} {B : Type κ} → Result A → (A → Result B) → Result B
ok a >>= f = f a
err e >>= f = err e

-- `crypto/hmac` with SHA-256, and SHA-256: the bytes of the hash.
pub record Hashes : Type 0 where
  pub hmac_sha256 : Text → Text → Text
  pub sha256 : Text → Text

-- A digit of `encoding/hex`, which writes lower case and reads both.
unfoldable pub hex_digit : ℕ → ℕ
hex_digit n = if ltb n 10 then b'0' + n else b'a' + (n - 10)

unfoldable pub hex_encode : Text → Text
hex_encode [] = []
hex_encode (b ∷ bs) = hex_digit (b / 16) ∷ hex_digit (b % 16) ∷ hex_encode bs

unfoldable pub hex_value : ℕ → Option ℕ
hex_value c =
    if leb b'0' c && leb c b'9'
    then some (c - b'0')
    else if leb b'a' c && leb c b'f'
    then some (c - b'a' + 10)
    else if leb b'A' c && leb c b'F'
    then some (c - b'A' + 10)
    else none

unfoldable pub hex_join : Option ℕ → Option ℕ → Option Text → Option Text
hex_join (some a) (some b) (some bs) = some ((a * 16 + b) ∷ bs)
hex_join (some a) (some b) none = none
hex_join (some a) none rest = none
hex_join none b rest = none

-- A text of odd length is refused.
unfoldable pub hex_decode : Text → Option Text
hex_decode [] = some []
hex_decode (c ∷ []) = none
hex_decode (c ∷ d ∷ cs) = hex_join (hex_value c) (hex_value d) (hex_decode cs)

-- `strings.Join`.
unfoldable pub join : (separator : Text) → List Text → Text
join separator [] = []
join separator (x ∷ []) = x
join separator (x ∷ y ∷ ys) = x ++ (separator ++ join separator (y ∷ ys))

abbrev pub unit_separator : Text
unit_separator = 31 ∷ []

unfoldable pub constant_time_equal_hex : Text → Text → Result Bool
constant_time_equal_hex a b = elim (hex_decode a) [
  | none ↦ err invalid_hex
  | some x ↦ elim (hex_decode b) [ none ↦ err invalid_hex | some y ↦ ok (eq_text x y) ]
]

module _ (h : Hashes) where
  unfoldable pub hmac_sha256_hex : (tenant_salt raw : Text) → Result Text
  hmac_sha256_hex salt raw =
      if eq_text salt []
      then err empty_salt
      else if eq_text raw []
      then err empty_input
      else ok (hex_encode (h.hmac_sha256 salt raw))

  unfoldable pub link_proof_hex : List Text → Result Text
  link_proof_hex inputs = elim inputs [
    | [] ↦ err empty_inputs
    | x ∷ xs ↦ ok (hex_encode (h.sha256 (join unit_separator (x ∷ xs))))
  ]

  unfoldable pub synthetic_id : (tenant_salt raw prefix : Text) → Result Text
  synthetic_id salt raw prefix = elim (hmac_sha256_hex salt raw) [
    | err e ↦ err e
    | ok hash ↦ ok (prefix ++ b'_' ∷ (if ltb 16 (length hash) then take 16 hash else hash))
  ]

-- The interface `IDMapper`.
pub record IdMapper : Type 0 where
  pub customer_id : Text → Result Text
  pub subscription_id : Text → Result Text
  pub invoice_id : Text → Result Text
  pub price_id : Text → Result Text
  pub product_id : Text → Result Text
  pub mode : Text

unfoldable pub new_synthetic_mapper : Hashes → (tenant_salt : Text) → Result IdMapper
new_synthetic_mapper h salt =
    if eq_text salt []
    then err empty_salt
    else ok (record {
      customer_id = λ raw. synthetic_id h salt raw (codes "syn_cust");
      subscription_id = λ raw. synthetic_id h salt raw (codes "syn_sub");
      invoice_id = λ raw. synthetic_id h salt raw (codes "syn_inv");
      price_id = λ raw. synthetic_id h salt raw (codes "syn_price");
      product_id = λ raw. synthetic_id h salt raw (codes "syn_prod");
      mode = codes "strict";
    })

unfoldable pub unchanged : Text → Result Text
unchanged raw = if eq_text raw [] then err empty_input else ok raw

unfoldable pub new_passthrough_mapper : IdMapper
new_passthrough_mapper = record {
  customer_id = unchanged;
  subscription_id = unchanged;
  invoice_id = unchanged;
  price_id = unchanged;
  product_id = unchanged;
  mode = codes "passthrough";
}

unfoldable pub validate_id_mode : Text → Option Error
validate_id_mode mode =
    if not (eq_text mode (codes "strict")) && not (eq_text mode (codes "passthrough"))
    then some invalid_mode
    else none

unfoldable pub has_one_of : List Text → Text → Bool
has_one_of [] id = false
has_one_of (p ∷ ps) id = let rest = has_one_of ps id in if has_prefix p id then true else rest

abbrev pub stripe_prefixes : List Text
stripe_prefixes =
    codes "cus_"
    ∷ codes "sub_"
    ∷ codes "in_"
    ∷ codes "price_"
    ∷ codes "prod_"
    ∷ codes "pi_"
    ∷ codes "pm_"
    ∷ []

unfoldable pub is_stripe_platform_id : Text → Bool
is_stripe_platform_id id = has_one_of stripe_prefixes id

unfoldable pub is_synthetic_id : Text → Bool
is_synthetic_id id = has_prefix (codes "syn_") id
