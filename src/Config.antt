-- ===== src/Config.antt =====
-- internal/config/config.go: the configuration, its environment and its validation.
pub mod Sections
pub mod Laws
pub mod Tests
use linker_agent.Prelude.{
  ℕ, Bool, true, false, not, ◌&&◌, ◌||◌, List, [], ◌∷◌, Option, none, some, Text, codes, eq_text,
  has_prefix, drop, length, trim_space, if◌then◌else◌, ltb, ◌==◌, ℤ, pos, negsuc, is_nonpos,
}
use linker_agent.Matchers.{Float, less_i64}
use linker_agent.Matchers as Matchers
use linker_agent.Exporter.Options.{has_http, has_file, value_of}
use linker_agent.Exporter.Options as Options

-- `StripeWebhook` with its `Retry`.
pub record StripeWebhook : Type 0 where
  pub enabled : Bool
  pub path : Text
  pub signing_secret : Text
  pub allowed_ip_ranges : List Text
  pub max_skew : ℤ
  pub max_attempts : ℤ
  pub base_backoff : ℤ
  pub max_backoff : ℤ

pub record StripeSource : Type 0 where
  pub api_key : Text
  pub account : Text
  pub max_requests_per_second : ℤ
  pub webhook : StripeWebhook

pub record Privacy : Type 0 where
  pub mode : Text
  pub id_mode : Text
  pub tenant_salt : Text
  pub allow_passthrough_exports : Bool

-- What the exporter reads, and the legacy fields. A map that is nil reads as an empty one.
pub record Export : Type 0 where
  pub cfg : Options.Config
  pub endpoint : Text
  pub file_path : Text

-- The weights are `none` if they are nil, which is not the empty map here.
pub record MatcherRecipe (F : Type 0) : Type 0 where
  pub name : Text
  pub version : Text
  pub weights : Option (List (Text × F))
  pub threshold : F
  pub temporal_window_sec : ℕ
  pub sku_overlap_min : F

pub record Heartbeat : Type 0 where
  pub enabled : Bool
  pub interval : ℤ
  pub endpoint : Text
  pub signature_secret : Text

pub record CommandPolling : Type 0 where
  pub enabled : Bool
  pub interval : ℤ
  pub signature_secret : Text
  pub max_clock_skew : ℤ
  pub timeout : ℤ

-- Without the sections of the queues, which nothing reads.
pub record Config (F : Type 0) : Type 0 where
  pub cdp_base_url : Text
  pub organization_id : Text
  pub version : Text
  pub addr : Text
  pub privacy : Privacy
  pub stripe : Option StripeSource
  pub export : Export
  pub recipe : MatcherRecipe F
  pub heartbeat : Heartbeat
  pub polling : CommandPolling

pub data Error : Type 0 where
  read_failed parse_failed addr_empty mode_invalid id_mode_invalid salt_empty api_key_empty : Error
  signing_secret_empty path_invalid cidr_invalid export_mode_invalid base_url_empty
        edges_path_empty :
      Error
  threshold_out_of_range window_negative overlap_out_of_range weight_negative : Error
  heartbeat_endpoint_empty heartbeat_secret_empty polling_secret_empty : Error

-- On an error the configuration is not read any more.
pub data Result {ℓ} (A : Type ℓ) : Type ℓ where
  ok : A → Result A
  err : Error → Result A

infixl 5 ◌>>=◌
abbrev pub ◌>>=◌ {ℓ κ} : {A : Type ℓ} {B : Type κ} → Result A → (A → Result B) → Result B
ok a >>= f = f a
err e >>= f = err e

-- `if test { return err }` before the rest.
unfoldable pub refuse {ℓ} : {A : Type ℓ} → (test : Bool) → Error → Result A → Result A
refuse true e rest = err e
refuse false e rest = rest

abbrev pub is_zero : ℤ → Bool
is_zero (pos n) = not (ltb 0 n)
is_zero (negsuc n) = false

-- The default of a number that is 0, and of a text that is empty.
abbrev pub or_number : ℤ → ℕ → ℤ
or_number z n = if is_zero z then pos n else z

abbrev pub or_text : Text → Text → Text
or_text t d = if eq_text t [] then d else t

-- `m[key] = v`.
unfoldable pub put {ℓ} : {A : Type ℓ} → Text → A → List (Text × A) → List (Text × A)
put key v [] = (key, v) ∷ []
put key v ((k, w) ∷ es) = if eq_text key k then (k, v) ∷ es else (k, w) ∷ put key v es

-- The value of a key that has none is set.
abbrev pub put_default : Text → Text → List (Text × Text) → List (Text × Text)
put_default key v m = if eq_text (value_of m key) [] then put key v m else m

-- The environment gives a variable that is not set as the empty text.
unfoldable pub resolve_env_value : (getenv : Text → Text) → Text → Text
resolve_env_value getenv val =
    if has_prefix (codes "env:") val then getenv (trim_space (drop 4 val)) else val

unfoldable pub resolve_stripe : (getenv : Text → Text) → StripeSource → StripeSource
resolve_stripe getenv s = record s {
  api_key = resolve_env_value getenv s.api_key;
  webhook = record s.webhook { signing_secret = resolve_env_value getenv s.webhook.signing_secret };
}

unfoldable pub resolve_env : {F : Type 0} → (getenv : Text → Text) → Config F → Config F
resolve_env getenv c = record c {
  privacy = record c.privacy { tenant_salt = resolve_env_value getenv c.privacy.tenant_salt };
  organization_id = resolve_env_value getenv c.organization_id;
  heartbeat = record c.heartbeat {
    signature_secret = resolve_env_value getenv c.heartbeat.signature_secret;
  };
  polling = record c.polling {
    signature_secret = resolve_env_value getenv c.polling.signature_secret;
  };
  stripe = elim c.stripe [ none ↦ none | some s ↦ some (resolve_stripe getenv s) ];
}

unfoldable pub migrate_legacy_export_config : Export → Export
migrate_legacy_export_config e =
    let url =
      if not (eq_text e.endpoint []) && eq_text e.cfg.base_url []
      then e.endpoint
      else e.cfg.base_url in
    record e {
      cfg = record e.cfg {
        base_url = url;
        paths =
            if eq_text e.file_path []
            then e.cfg.paths
            else put_default (codes "edges") e.file_path e.cfg.paths;
        routes =
            if eq_text url []
            then e.cfg.routes
            else put_default (codes "edges") (codes "/ingest/edges") e.cfg.routes;
      };
    }

unfoldable pub export_defaults : Options.Config → Options.Config
export_defaults c = record c {
  max_retries = or_number c.max_retries 3;
  batch_size = or_number c.batch_size 50;
  flush_every = or_number c.flush_every 5000000000;
}

unfoldable pub check_http : Export → Result Export
check_http e =
    if not (has_http e.cfg.mode)
    then ok e
    else refuse (eq_text e.cfg.base_url []) base_url_empty (
        ok (record e {
          cfg = record e.cfg {
            routes = put_default (codes "edges") (codes "/ingest/edges") e.cfg.routes;
          };
        }))

unfoldable pub check_file : Export → Result Export
check_file e =
    refuse (has_file e.cfg.mode && eq_text (value_of e.cfg.paths (codes "edges")) [])
      edges_path_empty (ok e)

unfoldable pub validate_and_migrate_export : Export → Result Export
validate_and_migrate_export e =
    let mode = or_text e.cfg.mode (codes "http") in
    refuse (not (has_http mode || has_file mode)) export_mode_invalid (
      let migrated =
        migrate_legacy_export_config (record e { cfg = record e.cfg { mode = mode } }) in
      check_http (record migrated { cfg = export_defaults migrated.cfg }) >>= check_file)

-- `valid_cidr` is `net.ParseCIDR`.
unfoldable pub all_valid : (valid_cidr : Text → Bool) → List Text → Bool
all_valid valid_cidr [] = true
all_valid valid_cidr (r ∷ rs) =
    let rest = all_valid valid_cidr rs in if valid_cidr r then rest else false

unfoldable pub validate_stripe_webhook :
    (valid_cidr : Text → Bool) → StripeWebhook → Result StripeWebhook
validate_stripe_webhook valid_cidr w =
    let path = or_text w.path (codes "/webhooks/stripe") in
    if not w.enabled
    then ok w
    else refuse (eq_text w.signing_secret []) signing_secret_empty (
        refuse (not (has_prefix (codes "/") path)) path_invalid (
          refuse (not (all_valid valid_cidr w.allowed_ip_ranges)) cidr_invalid (
            ok (record w {
              path = path;
              max_skew = or_number w.max_skew 300000000000;
              max_attempts = or_number w.max_attempts 5;
              base_backoff = or_number w.base_backoff 2000000000;
              max_backoff = or_number w.max_backoff 30000000000;
            }))))

unfoldable pub validate_stripe : (valid_cidr : Text → Bool) → StripeSource → Result StripeSource
validate_stripe valid_cidr s = refuse (eq_text s.api_key []) api_key_empty (do
  webhook ← validate_stripe_webhook valid_cidr s.webhook
  ok (record s {
    max_requests_per_second =
        if is_nonpos s.max_requests_per_second then pos 8 else s.max_requests_per_second;
    webhook = webhook;
  }))

-- The test of the legacy configurations comes after the id mode is set, so that it never holds.
unfoldable pub validate_privacy : Privacy → Result Privacy
validate_privacy p =
    let id_mode = or_text p.id_mode (codes "strict") in
    refuse (not (eq_text p.mode (codes "strict")) && not (eq_text p.mode (codes "standard")))
      mode_invalid
      (refuse
        (not (eq_text id_mode (codes "strict")) && not (eq_text id_mode (codes "passthrough")))
        id_mode_invalid
        (refuse (eq_text id_mode (codes "strict") && eq_text p.tenant_salt []) salt_empty (
          refuse (eq_text p.tenant_salt [] && eq_text id_mode []) salt_empty
            (ok (record p { id_mode = id_mode })))))

unfoldable pub validate_heartbeat : Heartbeat → (cdp_base_url : Text) → Result Heartbeat
validate_heartbeat h url =
    refuse (h.enabled && (eq_text h.endpoint [] && eq_text url [])) heartbeat_endpoint_empty (
      refuse (h.enabled && eq_text h.signature_secret []) heartbeat_secret_empty
        (ok (record h { interval = or_number h.interval 30000000000 })))

unfoldable pub validate_command_polling : CommandPolling → Result CommandPolling
validate_command_polling p =
    refuse (p.enabled && eq_text p.signature_secret []) polling_secret_empty (
      ok (record p {
        interval = or_number p.interval 30000000000;
        max_clock_skew = or_number p.max_clock_skew 300000000000;
        timeout = or_number p.timeout 10000000000;
      }))

module _ (f : Float) where
  open f use {F, nought, one, tenths, less, same}

  abbrev or_default : F → F → F
  or_default x d = if same x nought then d else x

  abbrev pub default_weights : List (Text × F)
  default_weights =
      (codes "deterministic_id", one)
      ∷ (codes "temporal_proximity", tenths 5)
      ∷ (codes "sku_overlap", tenths 8)
      ∷ []

  abbrev out_of_range : F → Bool
  out_of_range x = less x nought || less one x

  unfoldable pub has_negative : List (Text × F) → Bool
  has_negative [] = false
  has_negative ((name, w) ∷ ws) = let rest = has_negative ws in if less w nought then true else rest

  unfoldable pub validate_matcher_recipe : MatcherRecipe F → Result (MatcherRecipe F)
  validate_matcher_recipe r =
      let weights : List (Text × F) = elim r.weights [ none ↦ default_weights | some ws ↦ ws ] in
      let threshold = or_default r.threshold (tenths 8) in
      let window = if r.temporal_window_sec == 0 then 3600 else r.temporal_window_sec in
      let overlap = or_default r.sku_overlap_min (tenths 5) in
      refuse (out_of_range threshold) threshold_out_of_range (
        refuse (less_i64 window 0) window_negative (
          refuse (out_of_range overlap) overlap_out_of_range (
            refuse (has_negative weights) weight_negative (
              ok (record {
                name = or_text r.name (codes "default");
                version = or_text r.version (codes "v1");
                weights = some weights;
                threshold = threshold;
                temporal_window_sec = window;
                sku_overlap_min = overlap;
              })))))

  unfoldable pub validate : (valid_cidr : Text → Bool) → Config F → Result (Config F)
  validate valid_cidr c = refuse (eq_text c.addr []) addr_empty (do
    privacy ← validate_privacy c.privacy
    stripe ← elim c.stripe [
      | none ↦ ok none
      | some s ↦ validate_stripe valid_cidr s >>= λ s'. ok (some s')
    ]
    export ← validate_and_migrate_export c.export
    recipe ← validate_matcher_recipe c.recipe
    heartbeat ← validate_heartbeat c.heartbeat c.cdp_base_url
    polling ← validate_command_polling c.polling
    ok (record c {
      privacy = privacy;
      stripe = stripe;
      export = export;
      recipe = recipe;
      heartbeat = heartbeat;
      polling = polling;
    }))

  -- The file and its YAML, `none` if it cannot be read or parsed.
  unfoldable pub load :
      (getenv : Text → Text)
      → (valid_cidr : Text → Bool) → (parse : Text → Option (Config F)) → Option Text
      → Result (Config F)
  load getenv valid_cidr parse none = err read_failed
  load getenv valid_cidr parse (some text) = elim (parse text) [
    | none ↦ err parse_failed
    | some c ↦ validate valid_cidr (resolve_env getenv c)
  ]

-- The recipe that main.go hands to the matchers.
unfoldable pub recipe_of : {F : Type 0} → MatcherRecipe F → Matchers.Recipe F
recipe_of r = record {
  name = r.name;
  version = r.version;
  weights = elim r.weights [ none ↦ [] | some ws ↦ ws ];
  threshold = r.threshold;
  temporal_window_sec = r.temporal_window_sec;
  sku_overlap_min = r.sku_overlap_min;
}
