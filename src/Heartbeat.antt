-- ===== src/Heartbeat.antt =====
-- internal/heartbeat/heartbeat.go: `SignRequest`, and the requests that it signs.
pub mod Sender
use linker_agent.Prelude.{
  ℕ, Bool, List, [], ◌++◌, Option, none, some, Text, codes, eq_text, if◌then◌else◌, ℤ, show_ℤ,
}

-- `encoding/base64` and `crypto/hmac` with SHA-256, the key first.
pub record Primitives : Type 0 where
  pub decode_base64 : Text → Option Text
  pub encode_base64 : Text → Text
  pub hmac : Text → Text → Text

pub data SignError : Type 0 where
  secret_empty secret_invalid : SignError

pub data Signed : Type 0 where
  signature : Text → Signed
  unsigned : SignError → Signed

-- `fmt.Sprintf("%d|%s|%s", timestamp, nonce, body)`.
unfoldable pub message_of : ℤ → Text → Text → Text
message_of timestamp nonce body = show_ℤ timestamp ++ (codes "|" ++ (nonce ++ (codes "|" ++ body)))

unfoldable pub sign_request : Primitives → (secret : Text) → ℤ → (nonce body : Text) → Signed
sign_request k secret timestamp nonce body =
    if eq_text secret [] then unsigned secret_empty else elim (k.decode_base64 secret) [
      | none ↦ unsigned secret_invalid
      | some key ↦ signature (k.encode_base64 (k.hmac key (message_of timestamp nonce body)))
    ]

-- A request with the headers that authenticate it.
pub record Request : Type 0 where
  pub url : Text
  pub body : Text
  pub timestamp : ℤ
  pub nonce : Text
  pub signature_header : Text

-- The answer of the client: an error, or the status and the body, `none` if it cannot be read.
pub data Response : Type 0 where
  network_error : Response
  response : ℕ → Option Text → Response

-- What stands outside of a sender: its n-th reading of the clock, its n-th nonce, the answer to its n-th
-- request, and whether a URL is valid.
pub record Outside : Type 0 where
  pub primitives : Primitives
  pub clock : ℕ → ℤ
  pub random : ℕ → Option Text
  pub answer : ℕ → Response
  pub valid_url : Text → Bool

-- The state that the requests go through: how often the clock and the nonces were read, and the requests.
pub record Traffic : Type 0 where
  pub calls : ℕ
  pub requests : List Request
