-- ===== src/Webhook/Verify.antt =====
-- internal/ingest/stripewebhook/verify.go: the signature and the address of a request.
pub mod Laws
mod Tests
use linker_agent.Prelude.{
  ℕ, suc, ◌+◌, ◌-◌, ◌*◌, ◌^◌, Bool, true, false, ◌&&◌, List, [], ◌∷◌, ◌++◌, Option, none, some,
  Text, codes, eq_text, trim_space, if◌then◌else◌, leb, ◌==◌, ℤ, pos, negsuc, show_ℤ,
}
use linker_agent.Control.Clock.{max_i64, time_sub, neg, exceeds}
use linker_agent.Crypto.{Hashes, hex_encode}

pub data Error : Type 0 where
  header_missing timestamp_invalid timestamp_missing signature_missing outside_window
        signature_wrong :
      Error
  address_invalid address_forbidden : Error

-- `strings.Split` at a byte: the first part, and the others.
unfoldable pub split : (separator : ℕ) → Text → Text × List Text
split sep [] = ([], [])
split sep (b ∷ t) =
    let (part, parts) = split sep t in if b == sep then ([], part ∷ parts) else (b ∷ part, parts)

-- `strings.SplitN` at the first of a byte, `none` if there is none.
unfoldable pub cut : (separator : ℕ) → Text → Option (Text × Text)
cut sep [] = none
cut sep (b ∷ t) =
    let rest = cut sep t in
    if b == sep then some ([], t) else elim rest [ none ↦ none | some (k, v) ↦ some (b ∷ k, v) ]

-- The decimal digits after those that were read.
unfoldable pub digits_from : ℕ → Text → Option ℕ
digits_from n [] = some n
digits_from n (b ∷ t) = if leb 48 b && leb b 57 then digits_from (n * 10 + (b - 48)) t else none

unfoldable pub magnitude : Text → Option ℕ
magnitude [] = none
magnitude (b ∷ t) = digits_from 0 (b ∷ t)

unfoldable pub up_to : ℕ → (ℕ → ℤ) → Option ℕ → Option ℤ
up_to most sign none = none
up_to most sign (some n) = if leb n most then some (sign n) else none

abbrev pub negative : ℕ → ℤ
negative n = if n == 0 then pos 0 else negsuc (n - 1)

-- `strconv.ParseInt` in base 10, for 64 bits.
unfoldable pub parse_int : Text → Option ℤ
parse_int [] = none
parse_int (b ∷ t) =
    if b == 43
    then up_to max_i64 (λ n. pos n) (magnitude t)
    else if b == 45
    then up_to (2 ^ 63) negative (magnitude t)
    else up_to max_i64 (λ n. pos n) (magnitude (b ∷ t))

-- The loop over the parts, with the timestamp and the signature so far.
unfoldable pub read_parts : List Text → ℤ → Text → Option (ℤ × Text)
read_parts [] ts sig = some (ts, sig)
read_parts (p ∷ ps) ts sig = elim (cut 61 (trim_space p)) [
  | none ↦ read_parts ps ts sig
  | some (k, v) ↦ elim (eq_text k (codes "t")) [
    | true ↦ elim (parse_int v) [ none ↦ none | some ts' ↦ read_parts ps ts' sig ]
    | false ↦ elim (eq_text k (codes "v1")) [
      | true ↦ read_parts ps ts v
      | false ↦ read_parts ps ts sig
    ]
  ]
]

unfoldable pub parse_header : Text → Option (ℤ × Text)
parse_header header = let (p, ps) = split 44 header in read_parts (p ∷ ps) (pos 0) []

-- `time.Since(time.Unix(ts, 0))`. The seconds of a time are counted from the year 1, and the latest wrap around.
unfoldable pub since : (now : ℕ) → ℤ → ℤ
since now (pos n) =
    if leb (2 ^ 63 - 62135596800) n then pos max_i64 else time_sub now (n * 1000000000)
since now (negsuc n) = time_sub (now + suc n * 1000000000) 0

unfoldable pub skew_of : (now : ℕ) → ℤ → ℤ
skew_of now ts = let d = since now ts in if exceeds (pos 0) d then neg d else d

abbrev pub is_nought : ℤ → Bool
is_nought (pos n) = n == 0
is_nought (negsuc n) = false

unfoldable pub signed_payload : ℤ → (payload : Text) → Text
signed_payload ts payload = show_ℤ ts ++ (codes "." ++ payload)

unfoldable pub expected_signature : Hashes → (secret : Text) → ℤ → (payload : Text) → Text
expected_signature h secret ts payload =
    hex_encode (h.hmac_sha256 secret (signed_payload ts payload))

unfoldable pub verify_signature :
    Hashes → (now : ℕ) → (header payload secret : Text) → (max_skew : ℤ) → Option Error
verify_signature h now header payload secret max_skew =
    if eq_text header [] then some header_missing else elim (parse_header header) [
      | none ↦ some timestamp_invalid
      | some (ts, sig) ↦
          if is_nought ts
          then some timestamp_missing
          else if eq_text sig []
          then some signature_missing
          else if exceeds (skew_of now ts) max_skew
          then some outside_window
          else if eq_text sig (expected_signature h secret ts payload)
          then none
          else some signature_wrong
    ]

-- The parsers of package net: a host before a port, an address, and a range by its test.
module _ {Ip : Type 0} (split_host_port : Text → Option Text) (parse_ip : Text → Option Ip)
    (parse_cidr : Text → Option (Ip → Bool)) where
  unfoldable pub is_in_ranges : Ip → List Text → Bool
  is_in_ranges ip [] = false
  is_in_ranges ip (r ∷ rs) =
      let rest = is_in_ranges ip rs in
      elim (parse_cidr r) [ none ↦ rest | some contains ↦ if contains ip then true else rest ]

  unfoldable pub verify_ip_allowlist :
      (remote_addr : Text) → (allowed_ranges : List Text) → Option Error
  verify_ip_allowlist remote_addr [] = none
  verify_ip_allowlist remote_addr (r ∷ rs) =
      let host : Text = elim (split_host_port remote_addr) [ none ↦ remote_addr | some h ↦ h ] in
      elim (parse_ip host) [
        | none ↦ some address_invalid
        | some ip ↦ if is_in_ranges ip (r ∷ rs) then none else some address_forbidden
      ]
