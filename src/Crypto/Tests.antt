-- ===== src/Crypto/Tests.antt =====
-- Identifiers and joined proofs at concrete inputs, and the theorems about them applied there.
use linker_agent.Prelude.{◌≡◌, ◌≢◌, refl, true, List, [], ◌∷◌, Text, codes, eq_text}
use linker_agent.Crypto.{
  ok, Hashes, IdMapper, hex_decode, hex_join, hex_value, new_synthetic_mapper,
  constant_time_equal_hex,
}
use linker_agent.Crypto.Laws.{Derives, new_synthetic_mapper_lem}

-- A hash that only looks at the key.
abbrev toy : Hashes
toy = record { hmac_sha256 = λ key raw. 171 ∷ 205 ∷ key; sha256 = λ raw. raw }

-- Upper case is decoded too.
upper_case : constant_time_equal_hex (codes "AB") (codes "ab") ≡ ok true
unfolding constant_time_equal_hex hex_decode hex_join hex_value eq_text
upper_case = refl

salt_ne : codes "s" ≢ []
salt_ne e = cc

new_synthetic_mapper_lem_example :
    (m : IdMapper) × (new_synthetic_mapper toy (codes "s") ≡ ok m)
    × Derives toy (codes "s") (codes "cust") m.customer_id
    × Derives toy (codes "s") (codes "sub") m.subscription_id
    × Derives toy (codes "s") (codes "inv") m.invoice_id
    × Derives toy (codes "s") (codes "price") m.price_id
    × Derives toy (codes "s") (codes "prod") m.product_id
new_synthetic_mapper_lem_example = new_synthetic_mapper_lem toy (codes "s") salt_ne

abbrev inputs : List Text
inputs = codes "a" ∷ codes "b" ∷ []

inputs_ne : inputs ≢ []
inputs_ne e = cc
