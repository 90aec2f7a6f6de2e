-- ===== src/Exporter/Flush.antt =====
-- internal/exporter/exporter.go: `flushStream`, `sendStream` and `writeToFileStream`.
pub mod Laws
use linker_agent.Prelude.{
  ℕ, zero, suc, ◌+◌, ◌-◌, ◌*◌, ◌%◌, ◌^◌, Bool, true, false, not, ◌&&◌, List, [], ◌∷◌, ◌++◌, Option,
  none, some, Text, codes, eq_text, if◌then◌else◌, length, ltb, leb, lookup, ℤ, u64, to_i64,
}
use linker_agent.Exporter.Options.{Config, has_http, has_file}

pub record Request : Type 0 where
  pub endpoint : Text
  pub authorization : Text
  pub idempotency_key : Text
  pub payload : Text

-- What the client gives for a request: an error of the network, or a response with its status.
pub data Response : Type 0 where
  network_error : Response
  status : ℕ → Response

-- What the exporter calls: the answer to the n-th request and the n-th random key, the environment's
-- variables, the parser of a URL, the JSON array of the items, and the file system.
pub record Outside : Type 0 where
  pub answer : ℕ → Response
  pub uuid : ℕ → Text
  pub getenv : Text → Text
  pub valid_url : Text → Bool
  pub marshal : List Text → Option Text
  pub can_append : Text → Bool

-- What was done: the requests in order, the pauses between them, and the lines of the files.
pub record World : Type 0 where
  pub requests : List Request
  pub pauses : List ℤ
  pub lines : List (Text × Text)

pub record ExportError : Type 0 where
  pub status_code : ℕ
  pub retryable : Bool

-- `1<<uint(attempt-1) * 2 * time.Second`, with the wrap-around of int64.
unfoldable pub backoff : ℕ → ℤ
backoff attempt = to_i64 (2 ^ (attempt - 1) * 2000000000 % u64)

unfoldable pub is_success : ℕ → Bool
is_success code = leb 200 code && ltb code 300

unfoldable pub error_of : Response → Option ExportError
error_of network_error = some (record { status_code = 0; retryable = true })
error_of (status code) =
    if is_success code then none else some (record { status_code = code; retryable = leb 500 code })

module _ (o : Outside) (cfg : Config) (tenant_key : Text) where
  unfoldable pub auth_token : Text
  auth_token =
      if not (eq_text cfg.authorization_env []) then o.getenv cfg.authorization_env else tenant_key

  -- The authorization is empty where the header is left out.
  unfoldable pub request_to : World → (route : Text) → (payload : Text) → Request
  request_to w route payload = record {
    endpoint = cfg.base_url ++ route;
    authorization = if eq_text auth_token [] then [] else codes "Bearer " ++ auth_token;
    idempotency_key = o.uuid (length w.requests);
    payload = payload;
  }

  unfoldable pub send_stream : World → (stream payload : Text) → World × Option ExportError
  send_stream w stream payload = elim (lookup stream cfg.routes) [
    | none ↦ (w, some (record { status_code = 0; retryable = false }))
    | some route ↦
        if not (o.valid_url (cfg.base_url ++ route))
        then (w, some (record { status_code = 0; retryable = false }))
        else (
          record w { requests = w.requests ++ request_to w route payload ∷ [] },
          error_of (o.answer (length w.requests)),
        )
  ]

  unfoldable pub pause : ℕ → World → World
  pause attempt w =
      if ltb 0 attempt then record w { pauses = w.pauses ++ backoff attempt ∷ [] } else w

  -- The loop over the attempts, with the rounds that are left.
  unfoldable pub send_loop :
      (rounds : ℕ) → (attempt max_retries : ℕ) → World → (stream payload : Text) → World
  send_loop zero attempt max_retries w stream payload = w
  send_loop (suc rounds) attempt max_retries w stream payload =
      let (w', e) = send_stream (pause attempt w) stream payload in
      let again = send_loop rounds (suc attempt) max_retries w' stream payload in
      elim e [
        | none ↦ w'
        | some err ↦ if ltb attempt max_retries && err.retryable then again else w'
      ]

  -- A failed append is taken to leave the file as it was.
  unfoldable pub write_to_file : World → (stream line : Text) → World
  write_to_file w stream line = elim (lookup stream cfg.paths) [
    | none ↦ w
    | some path ↦
        if o.can_append path
        then record w { lines = w.lines ++ (path, line ++ 10 ∷ []) ∷ [] }
        else w
  ]

  unfoldable pub flush_stream : (max_retries : ℕ) → World → (stream : Text) → List Text → World
  flush_stream max_retries w stream batch = elim batch [
    | [] ↦ w
    | item ∷ items ↦ elim (o.marshal (item ∷ items)) [
      | none ↦ w
      | some payload ↦
          let w' = if has_file cfg.mode then write_to_file w stream payload else w in
          if has_http cfg.mode
          then send_loop (suc max_retries) 0 max_retries w' stream payload
          else w'
    ]
  ]
