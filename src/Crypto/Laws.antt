-- ===== src/Crypto/Laws.antt =====
-- Synthetic identifiers, hexadecimal texts and joined inputs.
use linker_agent.Prelude.{
  ℕ, zero, suc, ◌+◌, ◌/◌, ◌%◌, ◌<◌, ◌≡◌, ◌≢◌, refl, sym, ap, ◌∙◌, ap₂, subst, inl, inr, true, false,
  List, [], ◌∷◌, ◌++◌, some, Bool-cases, Text, codes, eq_text, eq_text_ne, has_prefix,
  if◌then◌else◌, length, take, take_of_length-le, All, ltb, arith,
}
use linker_agent.Crypto.{
  Result, ok, err, empty_input, Hashes, hex_digit, hex_encode, hex_value, hex_join, hex_decode,
  join, unit_separator, hmac_sha256_hex, synthetic_id, IdMapper, new_synthetic_mapper, has_one_of,
  is_stripe_platform_id, is_synthetic_id,
}

abbrev pub IsByte : ℕ → Type 0
IsByte b = b < 256

hex_value-hex_digit : (n : ℕ) → n < 16 → hex_value (hex_digit n) ≡ some n
unfolding hex_value hex_digit
hex_value-hex_digit n lt = ground (arith, lt)

-- Decoding gives back the bytes that were encoded.
pub hex_decode-hex_encode : (bs : Text) → All IsByte bs → hex_decode (hex_encode bs) ≡ some bs
unfolding hex_decode hex_encode hex_join
hex_decode-hex_encode [] all = refl
hex_decode-hex_encode (b ∷ bs) (lt, all) = rw (hex_value-hex_digit (b / 16) (omega arith)) (
    rw (hex_value-hex_digit (b % 16) (omega arith))
      (rw (hex_decode-hex_encode bs all) (ap (λ x. some (x ∷ bs)) (omega arith))))

-- The first digits are those of the first bytes.
take-hex_encode :
    (n k : ℕ) (bs : Text) → k ≡ n + n → take k (hex_encode bs) ≡ hex_encode (take n bs)
unfolding hex_encode
take-hex_encode zero zero bs e = refl
take-hex_encode zero (suc k) bs e = absurd (omega (arith, e))
take-hex_encode (suc n) zero bs e = absurd (omega (arith, e))
take-hex_encode (suc n) (suc zero) bs e = absurd (omega (arith, e))
take-hex_encode (suc n) (suc (suc k)) [] e = refl
take-hex_encode (suc n) (suc (suc k)) (b ∷ bs) e =
    ap (λ t. hex_digit (b / 16) ∷ hex_digit (b % 16) ∷ t)
      (take-hex_encode n k bs (omega (arith, e)))

cut-eq-take : (n : ℕ) (t : Text) → (if ltb n (length t) then take n t else t) ≡ take n t
cut-eq-take n t = elim (Bool-cases (ltb n (length t))) [
  | inl long ↦ rw long refl
  | inr short ↦ rw short (sym (take_of_length-le n t (ground (arith, short))))
]

-- No element of the text is the separator.
abbrev pub IsFree : Text → Type 0
IsFree = All (λ c. c ≢ 31)

-- Two texts without the separator, with whatever follows it.
split_same : (x y a b : Text) → IsFree x → IsFree y → x ++ 31 ∷ a ≡ y ++ 31 ∷ b → (x ≡ y) × (a ≡ b)
split_same [] [] a b fx fy e = (refl, cc)
split_same [] (d ∷ y) a b fx (n, fy) e = absurd (ground (arith, e, n))
split_same (c ∷ x) [] a b (n, fx) fy e = absurd (ground (arith, e, n))
split_same (c ∷ x) (d ∷ y) a b (m, fx) (n, fy) e =
    let (p, q) = split_same x y a b fx fy (cc) in (ap₂ (λ h t. h ∷ t) (cc) p, q)

split_none : (x y a : Text) → IsFree y → x ++ 31 ∷ a ≢ y
split_none [] [] a fy e = cc
split_none [] (d ∷ y) a (n, fy) e = ground (arith, e, n)
split_none (c ∷ x) [] a fy e = cc
split_none (c ∷ x) (d ∷ y) a (n, fy) e = split_none x y a fy (cc)

-- The joined text determines the inputs, if none of them contains the separator.
pub join_injective :
    (xs ys : List Text)
    → xs ≢ []
    → ys ≢ []
    → All IsFree xs
    → All IsFree ys
    → join unit_separator xs ≡ join unit_separator ys
    → xs ≡ ys
unfolding join
join_injective [] ys nx ny fx fy e = absurd (nx refl)
join_injective (x ∷ xs) [] nx ny fx fy e = absurd (ny refl)
join_injective (x ∷ []) (y ∷ []) nx ny fx fy e = ap (λ t. t ∷ []) e
join_injective (x ∷ []) (y ∷ z ∷ ys) nx ny (f, _) fy e =
    absurd (split_none y x (join unit_separator (z ∷ ys)) f (sym e))
join_injective (x ∷ w ∷ xs) (y ∷ []) nx ny fx (f, _) e =
    absurd (split_none x y (join unit_separator (w ∷ xs)) f e)
join_injective (x ∷ w ∷ xs) (y ∷ z ∷ ys) nx ny (f, fx) (g, fy) e =
    let (p, q) =
      split_same x y (join unit_separator (w ∷ xs)) (join unit_separator (z ∷ ys)) f g e in
    ap₂ (λ h t. h ∷ t) p (join_injective (w ∷ xs) (z ∷ ys) (cc) (cc) fx fy q)

module _ (h : Hashes) (salt : Text) where
  -- An identifier is synthetic, and does not look like one of the platform's.
  abbrev pub IsHidden : Text → Type 0
  IsHidden id = (is_synthetic_id id ≡ true) × (is_stripe_platform_id id ≡ false)

  syn-IsHidden : (rest : Text) → IsHidden (codes "syn_" ++ rest)
  unfolding is_synthetic_id is_stripe_platform_id has_one_of has_prefix
  syn-IsHidden rest = (refl, refl)

  synthetic_id-prefix :
      (raw prefix id : Text)
      → synthetic_id h salt raw prefix ≡ ok id
      → (rest : Text) × (id ≡ prefix ++ b'_' ∷ rest)
  unfolding synthetic_id
  synthetic_id-prefix raw prefix id e = from (hmac_sha256_hex h salt raw) refl
    where
      from :
          (r : Result Text)
          → hmac_sha256_hex h salt raw ≡ r
          → (rest : Text) × (id ≡ prefix ++ b'_' ∷ rest)
      from (err x) s = absurd (ground (arith, e, s))
      from (ok hash) s =
          ((if ltb 16 (length hash) then take 16 hash else hash), ground (arith, e, s))

  pub synthetic_id-IsHidden :
      (raw kind id : Text) → synthetic_id h salt raw (codes "syn_" ++ kind) ≡ ok id → IsHidden id
  synthetic_id-IsHidden raw kind id e =
      let (rest, s) = synthetic_id-prefix raw (codes "syn_" ++ kind) id e in
      subst IsHidden (sym s) (syn-IsHidden (kind ++ b'_' ∷ rest))

  -- A function refuses the empty text, and of any other gives the prefix with the first eight bytes of its MAC, in
  -- hexadecimal, which is hidden.
  abbrev pub Derives : (kind : Text) → (Text → Result Text) → Type 0
  Derives kind f =
      (f [] ≡ err empty_input)
      × ((raw : Text)
          → raw ≢ []
          → (f raw
              ≡ ok ((codes "syn_" ++ kind) ++ b'_' ∷ hex_encode (take 8 (h.hmac_sha256 salt raw))))
            × IsHidden
                ((codes "syn_" ++ kind) ++ b'_' ∷ hex_encode (take 8 (h.hmac_sha256 salt raw))))

  synthetic-Derives :
      salt ≢ []
      → (kind : Text) → Derives kind (λ raw. synthetic_id h salt raw (codes "syn_" ++ kind))
  unfolding synthetic_id hmac_sha256_hex eq_text
  synthetic-Derives n kind =
      (ground (arith, eq_text_ne salt [] n), λ raw given. (derived raw given, syn-IsHidden _))
    where
      uncut :
          (raw : Text)
          → raw ≢ []
          → synthetic_id h salt raw (codes "syn_" ++ kind)
            ≡ ok (
                (codes "syn_" ++ kind)
                ++ b'_'
                  ∷ (if ltb 16 (length (hex_encode (h.hmac_sha256 salt raw)))
                      then take 16 (hex_encode (h.hmac_sha256 salt raw))
                      else hex_encode (h.hmac_sha256 salt raw)))
      uncut raw given = ground (arith, eq_text_ne salt [] n, eq_text_ne raw [] given)

      derived :
          (raw : Text)
          → raw ≢ []
          → synthetic_id h salt raw (codes "syn_" ++ kind)
            ≡ ok ((codes "syn_" ++ kind) ++ b'_' ∷ hex_encode (take 8 (h.hmac_sha256 salt raw)))
      derived raw given =
          let mac = h.hmac_sha256 salt raw in
          uncut raw given
          ∙ ap (λ t. ok ((codes "syn_" ++ kind) ++ b'_' ∷ t))
              (cut-eq-take 16 (hex_encode mac) ∙ take-hex_encode 8 16 mac (omega arith))

  -- With a salt that is not empty there is a synthetic mapper. Each of its functions refuses the empty identifier
  -- only, and of any other gives `syn_`, its kind and the hexadecimal digits of the first eight bytes of the MAC of
  -- the identifier under the salt, which is taken for a synthetic identifier and for none of the platform's.
  pub new_synthetic_mapper_lem :
      salt ≢ []
      → (m : IdMapper) × (new_synthetic_mapper h salt ≡ ok m)
        × Derives (codes "cust") m.customer_id
        × Derives (codes "sub") m.subscription_id
        × Derives (codes "inv") m.invoice_id
        × Derives (codes "price") m.price_id
        × Derives (codes "prod") m.product_id
  unfolding new_synthetic_mapper
  new_synthetic_mapper_lem n = rw (eq_text_ne salt [] n) (
    _,
    refl,
    synthetic-Derives n (codes "cust"),
    synthetic-Derives n (codes "sub"),
    synthetic-Derives n (codes "inv"),
    synthetic-Derives n (codes "price"),
    synthetic-Derives n (codes "prod"),
  )
