-- ===== src/Queue/Key/Laws.antt =====
-- Keys read back as the offsets that they were made of.
use native.Mathlib.Nat.{pow-suc}
use linker_agent.Prelude.{
  ℕ, zero, suc, ◌+◌, ◌-◌, ◌*◌, ◌/◌, ◌%◌, ◌^◌, ◌<◌, ◌≡◌, refl, ap, sym, ◌∙◌, ◌≢◌, true, [], ◌∷◌,
  ◌++◌, append_assoc, append-nil, some, arith, Text, has_prefix, has_prefix-append, All, u64,
}
use linker_agent.Queue.Key.{
  digits, format_key, split_colon, is_digit, is_space, skip_space, value_from, scan_number,
  parse_offset_from_key,
}

-- A stream's name holds no colon.
abbrev pub IsName : Text → Type 0
IsName = All (λ c. c ≢ b':')

is_digit-digit : (n : ℕ) → is_digit (b'0' + n % 10) ≡ true
unfolding is_digit
is_digit-digit n = ground arith

value_from-nil : (acc : ℕ) → value_from acc [] ≡ acc
unfolding value_from
value_from-nil acc = refl

value_from-cons :
    (acc c : ℕ) (cs : Text)
    → is_digit c ≡ true
    → value_from acc (c ∷ cs) ≡ value_from (acc * 10 + (c - b'0')) cs
unfolding value_from
value_from-cons acc c cs h = rw h

value_from-digits :
    (k n acc : ℕ) (rest : Text)
    → n < 10 ^ k
    → value_from acc (digits k n ++ rest) ≡ value_from (acc * 10 ^ k + n) rest
unfolding digits
value_from-digits zero n acc rest h = ap (λ v. value_from v rest) (omega arith)
value_from-digits (suc k) n acc rest h =
    rw (append_assoc (digits k (n / 10))) (
      value_from-digits k (n / 10) acc ((b'0' + n % 10) ∷ rest) (omega (arith, pow-suc 10 k))
      ∙ last)
  where
    last :
        value_from (acc * 10 ^ k + n / 10) ((b'0' + n % 10) ∷ rest)
        ≡ value_from (acc * 10 ^ suc k + n) rest
    last =
        value_from-cons (acc * 10 ^ k + n / 10) (b'0' + n % 10) rest (is_digit-digit n)
        ∙ ap (λ v. value_from v rest)
            (omega (arith, pow-suc 10 k, ap (λ (p : ℕ). acc * p) (pow-suc 10 k)))

digits_cons : (k n : ℕ) → (c : ℕ) × (t : Text) × (digits (suc k) n ≡ c ∷ t) × (is_digit c ≡ true)
unfolding digits
digits_cons zero n = (b'0' + n % 10, [], refl, is_digit-digit n)
digits_cons (suc k) n =
    let (c, t, e, d) = digits_cons k (n / 10) in
    (c, t ++ ((b'0' + n % 10) ∷ []), ap (λ u. u ++ ((b'0' + n % 10) ∷ [])) e, d)

split_colon-format : (s t : Text) → IsName s → split_colon (s ++ (b':' ∷ t)) ≡ some (s, t)
unfolding split_colon
split_colon-format [] t h = refl
split_colon-format (c ∷ s) t h = ground (arith, split_colon-format s t h.1)

scan-cons :
    (c : ℕ) (t : Text) (n : ℕ)
    → is_digit c ≡ true
    → value_from 0 (c ∷ t) ≡ n
    → n < u64
    → scan_number (skip_space (c ∷ t)) ≡ some n
unfolding scan_number skip_space is_space is_digit
scan-cons c t n d e h = ground arith

scan-digits : (n : ℕ) → n < u64 → scan_number (skip_space (digits 20 n)) ≡ some n
scan-digits n h =
    let (c, t, e, d) = digits_cons 19 n in
    let v : value_from 0 (digits 20 n) ≡ n =
      ap (value_from 0) (sym (append-nil (digits 20 n)))
      ∙ value_from-digits 20 n 0 [] (omega arith)
      ∙ value_from-nil (0 * 10 ^ 20 + n)
      ∙ omega arith in
    rw e (scan-cons c t n d (rw e at v) h)

-- A key is read back as the offset that it was made of, a word of 64 bits, for a stream with no
-- colon in its name.
pub parse_offset_from_key-format_key :
    (stream : Text) (offset : ℕ)
    → IsName stream
    → offset < u64
    → parse_offset_from_key (format_key stream offset) ≡ some offset
unfolding parse_offset_from_key format_key
parse_offset_from_key-format_key s o h lt =
    rw (split_colon-format s (digits 20 o) h, parse_offset_from_key) (scan-digits o lt)

-- Two offsets of a stream have two keys.
pub format_key_injective :
    (stream : Text) (a b : ℕ)
    → IsName stream
    → a < u64
    → b < u64
    → format_key stream a ≡ format_key stream b
    → a ≡ b
format_key_injective s a b h ha hb e = cc (
  parse_offset_from_key-format_key s a h ha,
  parse_offset_from_key-format_key s b h hb,
  ap parse_offset_from_key e,
)

pub has_prefix-format_key :
    (stream : Text) (o : ℕ) → has_prefix (stream ++ (b':' ∷ [])) (format_key stream o) ≡ true
unfolding format_key
has_prefix-format_key s o =
    rw (← append_assoc s (b':' ∷ []) (digits 20 o))
      (has_prefix-append (s ++ (b':' ∷ [])) (digits 20 o))
