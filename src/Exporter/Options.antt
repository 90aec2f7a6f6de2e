-- ===== src/Exporter/Options.antt =====
-- internal/exporter/exporter.go: options, the streams and their routes.
pub mod Laws
use linker_agent.Prelude.{
  ℕ, ◌*◌, ◌%◌, Bool, true, false, not, ◌&&◌, ◌||◌, List, [], ◌∷◌, ◌++◌, Option, none, some, Text,
  codes, eq_text, if◌then◌else◌, lookup, ℤ, pos, is_nonpos, to_ℕ, u64, to_i64,
}
use linker_agent.Exporter.{ExportQueue, new_queue, push}

-- `config.Export`, as far as the exporter reads it.
pub record Config : Type 0 where
  pub mode : Text
  pub batch_size : ℤ
  pub flush_every : ℤ
  pub max_retries : ℤ
  pub base_url : Text
  pub routes : List (Text × Text)
  pub authorization_env : Text
  pub paths : List (Text × Text)

pub data Error : Type 0 where
  tenant_key_required directory_failed passthrough_forbidden : Error
  undefined_stream route_undefined path_undefined marshal_failed : Text → Error

unfoldable pub has_http : Text → Bool
has_http mode = eq_text mode (codes "http") || eq_text mode (codes "both")

unfoldable pub has_file : Text → Bool
has_file mode = eq_text mode (codes "file") || eq_text mode (codes "both")

abbrev pub connektn_endpoints : List Text
connektn_endpoints = codes "https://api.connektn.dev" ∷ codes "https://api.connektn.io" ∷ []

-- The loop over the endpoints, with or without a slash at the end.
unfoldable pub is_endpoint : Text → List Text → Bool
is_endpoint url [] = false
is_endpoint url (e ∷ es) =
    let rest = is_endpoint url es in
    if eq_text url e || eq_text url (e ++ codes "/") then true else rest

unfoldable pub validate_passthrough :
    (id_mode : Text)
    → (allow_passthrough : Bool) → (export_mode : Text) → (base_url : Text) → Option Error
validate_passthrough id_mode allow export_mode base_url =
    if not (eq_text id_mode (codes "passthrough"))
    then none
    else if not (eq_text export_mode (codes "http")) && not (eq_text export_mode (codes "both"))
    then none
    else if not (is_endpoint base_url connektn_endpoints) && not allow
    then some passthrough_forbidden
    else none

pub record Exporter : Type 0 where
  pub cfg : Config
  pub tenant_key : Text
  pub streams : List (Text × ExportQueue)
  pub batch_size : ℕ
  pub flush_every : ℤ
  pub max_retries : ℕ

abbrev pub or_default : ℤ → ℕ → ℕ
or_default z n = if is_nonpos z then n else to_ℕ z

abbrev pub stream_names : List Text
stream_names = codes "edges" ∷ codes "billing" ∷ codes "usage" ∷ []

-- `make_dirs` says whether the directory of every path can be made. The default capacity wraps;
-- a negative one, with which `make` panics, is 0 here.
unfoldable pub new_exporter :
    (make_dirs : Bool)
    → Config
    → (tenant_key : Text) → (queue_capacity : ℤ) → Option Exporter × Option Error
new_exporter make_dirs cfg tenant_key queue_capacity =
    let size = or_default cfg.batch_size 50 in
    let capacity =
      if is_nonpos queue_capacity then to_ℕ (to_i64 (size * 5 % u64)) else to_ℕ queue_capacity in
    if has_http cfg.mode && eq_text tenant_key []
    then (none, some tenant_key_required)
    else if has_file cfg.mode && not make_dirs
    then (none, some directory_failed)
    else (
      some (record {
        cfg = cfg;
        tenant_key = tenant_key;
        streams =
            (codes "edges", new_queue capacity)
            ∷ (codes "billing", new_queue capacity)
            ∷ (codes "usage", new_queue capacity)
            ∷ [];
        batch_size = size;
        flush_every = if is_nonpos cfg.flush_every then pos 5000000000 else cfg.flush_every;
        max_retries = or_default cfg.max_retries 3;
      }),
      none,
    )

-- A missing key of a map of strings reads as the empty string.
unfoldable pub value_of : List (Text × Text) → Text → Text
value_of m key = elim (lookup key m) [ none ↦ [] | some v ↦ v ]

unfoldable pub validate_stream : Config → Text → Option Error
validate_stream cfg stream =
    if has_http cfg.mode && eq_text (value_of cfg.routes stream) []
    then some (route_undefined stream)
    else if has_file cfg.mode && eq_text (value_of cfg.paths stream) []
    then some (path_undefined stream)
    else none

-- The queue of a stream is replaced in its place.
unfoldable pub update : Text → ExportQueue → List (Text × ExportQueue) → List (Text × ExportQueue)
update key q [] = []
update key q ((k, v) ∷ es) = if eq_text key k then (k, q) ∷ es else (k, v) ∷ update key q es

-- The payload is its JSON, `none` if it has none.
unfoldable pub enqueue : Exporter → (stream : Text) → Option Text → Exporter × Option Error
enqueue e stream payload = elim (lookup stream e.streams) [
  | none ↦ (e, some (undefined_stream stream))
  | some q ↦ elim (validate_stream e.cfg stream) [
    | some err ↦ (e, some err)
    | none ↦ elim payload [
      | none ↦ (e, some (marshal_failed stream))
      | some bytes ↦ (record e { streams = update stream (push q bytes) e.streams }, none)
    ]
  ]
]
