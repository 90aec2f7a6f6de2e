-- ===== src/Heartbeat/Sender.antt =====
-- internal/heartbeat/heartbeat.go and internal/agent/heartbeat_sender.go: the payload and its sender.
pub mod Laws
mod Tests
use linker_agent.Prelude.{
  ℕ, suc, ◌+◌, Bool, true, false, not, ◌&&◌, List, [], ◌∷◌, ◌++◌, Option, none, some, Text, eq_text,
  if◌then◌else◌, length, leb, ltb, ℤ, pos, is_nonpos,
}
use linker_agent.Agent.{Agent}
use linker_agent.Heartbeat.{
  Primitives, Request, Response, network_error, response, Outside, Traffic, SignError, Signed,
  signature, unsigned, sign_request,
}

pub record Payload : Type 0 where
  pub agent_id : Text
  pub organization_id : Text
  pub version : Text
  pub uptime : ℤ
  pub mode : Text
  pub queue_depth : ℕ
  pub dlq_size : ℕ
  pub dropped_count : ℕ
  pub retry_count : ℕ
  pub last_flush_ts : ℤ
  pub timestamp : ℤ
  pub signature_text : Text

pub record QueueMetrics : Type 0 where
  pub depth : ℕ
  pub dlq_size : ℕ
  pub dropped_count : ℕ
  pub retry_count : ℕ

abbrev pub no_metrics : QueueMetrics
no_metrics = record { depth = 0; dlq_size = 0; dropped_count = 0; retry_count = 0 }

pub data Error : Type 0 where
  endpoint_required secret_required marshal_failed nonce_failed request_failed send_failed : Error
  sign_failed : SignError → Error
  bad_status : ℕ → Error

abbrev pub without_signature : Payload → Payload
without_signature p = record p { signature_text = [] }

-- `Payload.Sign` and `Payload.Verify`, with the JSON of a payload.
module _ (k : Primitives) (marshal : Payload → Option Text) where
  unfoldable pub sign : Payload → (secret : Text) → Payload × Option Error
  sign p secret =
      if eq_text secret []
      then (p, some (sign_failed SignError.secret_empty))
      else elim (marshal (without_signature p)) [
        | none ↦ (p, some marshal_failed)
        | some bytes ↦ (record p { signature_text = k.encode_base64 (k.hmac secret bytes) }, none)
      ]

  unfoldable pub verify : Payload → (secret : Text) → Bool
  verify p secret =
      if eq_text secret []
      then false
      else if eq_text p.signature_text []
      then false
      else elim (k.decode_base64 p.signature_text) [
        | none ↦ false
        | some got ↦ elim (marshal (without_signature p)) [
          | none ↦ false
          | some bytes ↦ eq_text got (k.hmac secret bytes)
        ]
      ]

pub record Sender : Type 0 where
  pub agent : Agent
  pub endpoint : Text
  pub interval : ℤ
  pub secret : Text
  pub queue_metrics : Option QueueMetrics
  pub last_flush : ℤ

pub data Made : Type 0 where
  made : Sender → Made
  refused : Error → Made

-- Times are Unix times, and the interval is in nanoseconds.
unfoldable pub new_sender :
    (now : ℤ)
    → Agent
    → (endpoint : Text) → (interval : ℤ) → (secret : Text) → Option QueueMetrics
    → Made
new_sender now a endpoint interval secret metrics =
    if eq_text endpoint []
    then refused endpoint_required
    else if eq_text secret []
    then refused secret_required
    else made (record {
      agent = a;
      endpoint = endpoint;
      interval = if is_nonpos interval then pos 30000000000 else interval;
      secret = secret;
      queue_metrics = metrics;
      last_flush = now;
    })

-- The metrics with the retries, which are not counted.
unfoldable pub metrics_of : Option QueueMetrics → QueueMetrics
metrics_of none = no_metrics
metrics_of (some m) = record m { retry_count = 0 }

unfoldable pub new_payload : Sender → QueueMetrics → (uptime now : ℤ) → Payload
new_payload s m uptime now = record {
  agent_id = s.agent.id;
  organization_id = s.agent.organization_id;
  version = s.agent.version;
  uptime = uptime;
  mode = s.agent.mode;
  queue_depth = m.depth;
  dlq_size = m.dlq_size;
  dropped_count = m.dropped_count;
  retry_count = m.retry_count;
  last_flush_ts = s.last_flush;
  timestamp = now;
  signature_text = [];
}

pub data Prepared : Type 0 where
  ready : Request → Prepared
  failed : Error → Prepared

-- What the response says.
unfoldable pub read_answer : Response → Option Error
read_answer network_error = some send_failed
read_answer (response status body) =
    if ltb status 200
    then some (bad_status status)
    else if leb 300 status
    then some (bad_status status)
    else none

-- `uptime` is the number of seconds since the start, at the n-th reading.
module _ (o : Outside) (uptime : ℕ → ℤ) (marshal : Payload → Option Text) where
  abbrev pub payload_at : Sender → ℕ → Payload
  payload_at s n = new_payload s (metrics_of s.queue_metrics) (uptime n) (o.clock n)

  -- The request, up to its sending.
  unfoldable pub prepare : Sender → ℕ → Prepared
  prepare s n = elim (marshal (payload_at s n)) [
    | none ↦ failed marshal_failed
    | some body ↦ elim (o.random n) [
      | none ↦ failed nonce_failed
      | some nonce ↦
          elim (sign_request o.primitives s.secret (payload_at s n).timestamp nonce body) [
            | unsigned e ↦ failed (sign_failed e)
            | signature text ↦
                if not (o.valid_url s.endpoint)
                then failed request_failed
                else ready (record {
                  url = s.endpoint;
                  body = body;
                  timestamp = (payload_at s n).timestamp;
                  nonce = nonce;
                  signature_header = text;
                })
          ]
    ]
  ]

  -- The clock is read twice.
  unfoldable pub send_heartbeat : Traffic → Sender → (Traffic × Sender) × Option Error
  send_heartbeat t s = elim (prepare s t.calls) [
    | failed e ↦ ((record t { calls = t.calls + 2 }, s), some e)
    | ready r ↦
        let t' : Traffic = record { calls = t.calls + 2; requests = t.requests ++ r ∷ [] } in
        elim (read_answer (o.answer (length t.requests))) [
          | some e ↦ ((t', s), some e)
          | none ↦ ((t', record s { last_flush = o.clock (t.calls + 1) }), none)
        ]
  ]
