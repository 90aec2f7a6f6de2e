-- ===== src/Config/Tests.antt =====
-- A configuration with few settings, and the theorem about validated ones applied to it.
use linker_agent.Prelude.{
  ℕ, ◌≡◌, refl, Bool, true, false, [], ◌∷◌, none, some, Text, codes, eq_text, has_prefix, lookup,
  pos,
}
use linker_agent.Matchers.{less_i64}
use linker_agent.Matchers.Tests.{percent}
use linker_agent.Exporter.Options.{has_http, has_file, value_of}
use linker_agent.Config.{
  StripeSource, Config, ok, refuse, put, all_valid, migrate_legacy_export_config, export_defaults,
  check_http, check_file, validate_and_migrate_export, validate_stripe_webhook, validate_stripe,
  validate_privacy, validate_heartbeat, validate_command_polling, has_negative,
  validate_matcher_recipe, validate, default_weights,
}
use linker_agent.Config.Laws.{Validated, validate_lem}

abbrev pub source : StripeSource
source = record {
  api_key = codes "sk";
  account = [];
  max_requests_per_second = pos 0;
  webhook = record {
    enabled = true;
    path = [];
    signing_secret = codes "whsec";
    allowed_ip_ranges = [];
    max_skew = pos 0;
    max_attempts = pos 0;
    base_backoff = pos 0;
    max_backoff = pos 0;
  };
}

-- The legacy endpoint, and the standard mode.
abbrev pub given : Config ℕ
given = record {
  cdp_base_url = [];
  organization_id = codes "org";
  version = [];
  addr = codes ":8080";
  privacy = record {
    mode = codes "standard";
    id_mode = [];
    tenant_salt = codes "salt";
    allow_passthrough_exports = false;
  };
  stripe = some source;
  export = record {
    cfg = record {
      mode = [];
      batch_size = pos 0;
      flush_every = pos 0;
      max_retries = pos 0;
      base_url = [];
      routes = [];
      authorization_env = [];
      paths = [];
    };
    endpoint = codes "https://example.org";
    file_path = [];
  };
  recipe = record {
    name = [];
    version = [];
    weights = none;
    threshold = 0;
    temporal_window_sec = 0;
    sku_overlap_min = 0;
  };
  heartbeat = record { enabled = false; interval = pos 0; endpoint = []; signature_secret = [] };
  polling = record {
    enabled = true;
    interval = pos 0;
    signature_secret = codes "s";
    max_clock_skew = pos 0;
    timeout = pos 0;
  };
}

abbrev pub any_cidr : Text → Bool
any_cidr t = true

-- With the defaults.
abbrev pub accepted : Config ℕ
accepted = record given {
  privacy = record given.privacy { id_mode = codes "strict" };
  stripe = some (record source {
    max_requests_per_second = pos 8;
    webhook = record source.webhook {
      path = codes "/webhooks/stripe";
      max_skew = pos 300000000000;
      max_attempts = pos 5;
      base_backoff = pos 2000000000;
      max_backoff = pos 30000000000;
    };
  });
  export = record given.export {
    cfg = record given.export.cfg {
      mode = codes "http";
      batch_size = pos 50;
      flush_every = pos 5000000000;
      max_retries = pos 3;
      base_url = codes "https://example.org";
      routes = (codes "edges", codes "/ingest/edges") ∷ [];
    };
  };
  recipe = record {
    name = codes "default";
    version = codes "v1";
    weights = some (default_weights percent);
    threshold = 80;
    temporal_window_sec = 3600;
    sku_overlap_min = 50;
  };
  heartbeat = record given.heartbeat { interval = pos 30000000000 };
  polling = record given.polling {
    interval = pos 30000000000;
    max_clock_skew = pos 300000000000;
    timeout = pos 10000000000;
  };
}

pub validated : validate percent any_cidr given ≡ ok accepted
unfolding refuse put all_valid migrate_legacy_export_config export_defaults check_http check_file
    validate_and_migrate_export validate_stripe_webhook validate_stripe validate_privacy
    validate_heartbeat validate_command_polling has_negative validate_matcher_recipe validate
    less_i64 has_http has_file value_of eq_text has_prefix lookup
validated = refl

validate_lem_example : Validated percent any_cidr accepted
validate_lem_example = validate_lem percent any_cidr given accepted validated
