-- ===== src/Webhook/Verify/Laws.antt =====
-- What a signature that is accepted says of the payload, and an address of the ranges.
use mathlib.Core.List.{append_cancel_left}
use linker_agent.Prelude.{
  ℕ, ◌≡◌, ◌≢◌, refl, sym, ap, ◌∙◌, ◌⊎◌, inl, inr, false, Option, none, some, Text, codes, eq_text,
  eq_text_refl, eq_text→eq, All, ℤ, show_ℤ, Bool-cases, arith,
}
use linker_agent.Control.Clock.{exceeds}
use linker_agent.Crypto.{Hashes, hex_encode, hex_decode}
use linker_agent.Crypto.Laws.{IsByte, hex_decode-hex_encode}
use linker_agent.Webhook.Verify.{
  is_nought, parse_header, skew_of, signed_payload, expected_signature, verify_signature,
}

-- The header has a timestamp in the window, and the signature that the payload should have.
abbrev pub IsSigned : Hashes → (now : ℕ) → (header payload secret : Text) → (max_skew : ℤ) → Type 0
IsSigned h now header payload secret max_skew =
    (ts : ℤ) × (sig : Text) × (parse_header header ≡ some (ts, sig))
    × (is_nought ts ≡ false)
    × (exceeds (skew_of now ts) max_skew ≡ false)
    × (sig ≡ expected_signature h secret ts payload)

verify_signature-IsSigned :
    (h : Hashes) (now : ℕ) (header payload secret : Text) (max_skew : ℤ)
    → verify_signature h now header payload secret max_skew ≡ none
    → IsSigned h now header payload secret max_skew
unfolding verify_signature
verify_signature-IsSigned h now header payload secret max_skew e = go (parse_header header) refl
  where
    go :
        (o : Option (ℤ × Text))
        → parse_header header ≡ o
        → IsSigned h now header payload secret max_skew
    go none p = absurd (ground (arith, e, p))
    go (some (ts, sig)) p = (
      ts,
      sig,
      p,
      ground (arith, e, p),
      ground (arith, e, p),
      eq_text→eq _ _ (ground (arith, e, p)),
    )

some_injective {ℓ} : {A : Type ℓ} (a b : A) → some a ≡ some b → a ≡ b
some_injective a b e = ap (λ o. elim o [ none ↦ a | some x ↦ x ]) e

hex_encode-injective :
    (s t : Text) → All IsByte s → All IsByte t → hex_encode s ≡ hex_encode t → s ≡ t
hex_encode-injective s t hs ht e =
    some_injective s t
      (sym (hex_decode-hex_encode s hs) ∙ ap hex_decode e ∙ hex_decode-hex_encode t ht)

signed_payload_ne :
    (ts : ℤ) (payload payload' : Text)
    → eq_text payload payload' ≡ false
    → signed_payload ts payload ≢ signed_payload ts payload'
unfolding signed_payload
signed_payload_ne ts payload payload' ne e =
    let same =
      append_cancel_left (codes ".") payload payload' (append_cancel_left (show_ℤ ts) _ _ e) in
    absurd (ground (arith, ne, ap (eq_text payload) same, eq_text_refl payload))

-- The texts that are signed for two payloads, with the timestamp of a header, differ and have the same
-- MAC.
abbrev pub Collides : Hashes → (header secret payload payload' : Text) → Type 0
Collides h header secret payload payload' =
    (ts : ℤ) × (sig : Text) × (parse_header header ≡ some (ts, sig))
    × (signed_payload ts payload ≢ signed_payload ts payload')
    × (h.hmac_sha256 secret (signed_payload ts payload)
        ≡ h.hmac_sha256 secret (signed_payload ts payload'))

-- A header that is accepted with one payload, and at any time with another one under the same secret, has a
-- timestamp with which the two signed texts differ and have the same MAC, unless the payloads are the same,
-- provided that MACs are byte strings.
pub verify_signature_binds :
    (h : Hashes) (now now' : ℕ) (header payload payload' secret : Text) (max_skew max_skew' : ℤ)
    → ((m : Text) → All IsByte (h.hmac_sha256 secret m))
    → verify_signature h now header payload secret max_skew ≡ none
    → verify_signature h now' header payload' secret max_skew' ≡ none
    → (payload ≡ payload') ⊎ Collides h header secret payload payload'
unfolding expected_signature
verify_signature_binds h now now' header payload payload' secret max_skew max_skew' bytes e e' =
    let (ts, sig, p, _, _, s) = verify_signature-IsSigned h now header payload secret max_skew e in
    let (ts', sig', p', _, _, s') =
      verify_signature-IsSigned h now' header payload' secret max_skew' e' in
    let same = some_injective (ts, sig) (ts', sig') (sym p ∙ p') in
    let again = ap (λ (r : ℤ × Text). expected_signature h secret r.0 payload') (sym same) in
    elim (Bool-cases (eq_text payload payload')) [
      | inl eq ↦ inl (eq_text→eq _ _ eq)
      | inr ne ↦ inr (
        ts,
        sig,
        p,
        signed_payload_ne ts payload payload' ne,
        hex_encode-injective _ _ (bytes _) (bytes _)
            (sym s ∙ ap (λ (r : ℤ × Text). r.1) same ∙ s' ∙ again),
      )
    ]
