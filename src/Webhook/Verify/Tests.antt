-- ===== src/Webhook/Verify/Tests.antt =====
-- Signatures that are accepted, and the theorem about payloads applied to two of them.
use linker_agent.Prelude.{
  ℕ, ◌*◌, ◌≡◌, refl, ◌⊎◌, [], ◌∷◌, none, some, Text, codes, eq_text, has_prefix, after, trim_left,
  trim_space, show_from, pos, arith,
}
use linker_agent.Control.Clock.{time_sub, neg, exceeds}
use linker_agent.Crypto.{hex_encode, hex_digit}
use linker_agent.Matchers.Tests.{toy}
use linker_agent.Webhook.Verify.{
  split, cut, digits_from, magnitude, up_to, parse_int, read_parts, parse_header, since, skew_of,
  signed_payload, expected_signature, verify_signature, outside_window, is_in_ranges,
  verify_ip_allowlist, address_forbidden,
}
use linker_agent.Webhook.Verify.Laws.{Collides, verify_signature_binds}

abbrev now : ℕ
now = 1700000000 * 1000000000

abbrev header : Text
header = codes "t=1699999900, v0=00,v1=01"

accepted : verify_signature toy now header (codes "{}") (codes "whsec") (pos 300000000000) ≡ none
unfolding split cut digits_from magnitude up_to parse_int read_parts parse_header since skew_of
    signed_payload expected_signature verify_signature eq_text has_prefix after trim_left trim_space
    show_from time_sub neg exceeds hex_encode hex_digit
accepted = refl

-- The toy MAC does not depend on the payload.
accepted_other :
    verify_signature toy now header (codes "[]") (codes "whsec") (pos 300000000000) ≡ none
unfolding split cut digits_from magnitude up_to parse_int read_parts parse_header since skew_of
    signed_payload expected_signature verify_signature eq_text has_prefix after trim_left trim_space
    show_from time_sub neg exceeds hex_encode hex_digit
accepted_other = refl

-- Later the header is refused.
refused_later :
    verify_signature toy
      (1700000300 * 1000000000)
      header
      (codes "{}")
      (codes "whsec")
      (pos 300000000000)
    ≡ some outside_window
unfolding split cut digits_from magnitude up_to parse_int read_parts parse_header since skew_of
    signed_payload expected_signature verify_signature eq_text has_prefix after trim_left trim_space
    show_from time_sub neg exceeds hex_encode hex_digit
refused_later = refl

-- A timestamp some billions of years ahead is in the window, since the difference cannot be negated.
accepted_far :
    verify_signature toy now
      (codes "t=4611686018427387904,v1=01")
      (codes "{}")
      (codes "whsec")
      (pos 300000000000)
    ≡ none
unfolding split cut digits_from magnitude up_to parse_int read_parts parse_header since skew_of
    signed_payload expected_signature verify_signature eq_text has_prefix after trim_left trim_space
    show_from time_sub neg exceeds hex_encode hex_digit
accepted_far = refl

-- A range that cannot be parsed is left out.
refused_address :
    verify_ip_allowlist (λ t. none) (λ t. some t) (λ r. none) (codes "10.0.0.1") (codes "10/8" ∷ [])
    ≡ some address_forbidden
unfolding is_in_ranges verify_ip_allowlist
refused_address = refl

verify_signature_binds_example :
    (codes "{}" ≡ codes "[]") ⊎ Collides toy header (codes "whsec") (codes "{}") (codes "[]")
verify_signature_binds_example =
    verify_signature_binds toy now now header (codes "{}") (codes "[]") (codes "whsec")
      (pos 300000000000) (pos 300000000000) (λ m. (omega arith, tt)) accepted accepted_other
