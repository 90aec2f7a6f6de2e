-- ===== src/Main/Server.antt =====
-- main.go: the parts that the webhook server makes of the configuration, before it registers its
-- routes.
pub mod Parts
pub mod Laws
mod Tests
use linker_agent.Prelude.{
  ℕ, Bool, true, false, not, List, [], ◌∷◌, ◌++◌, Option, none, some, Text, codes, eq_text,
  if◌then◌else◌, ℤ, pos,
}
use linker_agent.Agent.{Agent, File, Disk, new_manager, new_agent, set_shutdown_func}
use linker_agent.Agent as Agent
use linker_agent.Config.{StripeSource, Heartbeat, CommandPolling, Config}
use linker_agent.Exporter.Options.{Exporter, new_exporter}
use linker_agent.Exporter.Options as Options
use linker_agent.Heartbeat.Sender.{Sender, QueueMetrics, no_metrics, new_sender}
use linker_agent.Heartbeat.Sender as Sender
use linker_agent.Polling.{
  Poller, new_poller, register_handler, handle_switch_mode, handle_restart, handle_upgrade,
}
use linker_agent.Polling as Polling
use linker_agent.Webhook.{Handler, new_handler}
use linker_agent.Webhook.Worker.{new_worker}

-- Why the program ends, with `log.Fatal`.
pub data Refusal : Type 0 where
  no_logger no_agent_id state_failed stripe_missing webhook_disabled worker_failed handler_failed :
      Refusal
  agent_failed : Agent.Error → Refusal
  exporter_failed : Option Options.Error → Refusal
  heartbeat_failed : Sender.Error → Refusal
  poller_failed : Polling.ConfigError → Refusal

-- Whether the logger and the directories of the state file and of the exported files can be made.
pub record System : Type 0 where
  pub logger : Bool
  pub state_dir : Bool
  pub export_dirs : Bool

pub data Start {ℓ} (A : Type ℓ) : Type ℓ where
  started : A → Start A
  refused : Refusal → Start A

infixl 5 ◌>>=◌
abbrev pub ◌>>=◌ {ℓ κ} : {A : Type ℓ} {B : Type κ} → Start A → (A → Start B) → Start B
started a >>= f = f a
refused r >>= f = refused r

pub record Server : Type 0 where
  pub agent : Agent
  pub exporter : Exporter
  pub handler : Handler
  pub path : Text
  pub heartbeat : Option Sender
  pub poller : Option (Poller Agent)

-- The agent with the mode of the configuration, over the state file.
unfoldable pub start_agent :
    {F : Type 0} → Config F → (id : Text) → File → (makes_dir : Bool) → Start Agent
start_agent c id file makes_dir =
    elim (new_manager makes_dir (codes "/home/nonroot/.connektn/agent-state.json") file) [
      | Agent.err e ↦ refused state_failed
      | Agent.ok m ↦
          elim (new_agent (record {
            agent_id = id;
            organization_id = c.organization_id;
            version = c.version;
            initial_mode = c.privacy.mode;
            state_manager = some m;
          })) [ Agent.err e ↦ refused (agent_failed e) | Agent.ok a ↦ started a ]
    ]

unfoldable pub enabled_stripe : Option StripeSource → Start StripeSource
enabled_stripe none = refused stripe_missing
enabled_stripe (some s) = if s.webhook.enabled then started s else refused webhook_disabled

unfoldable pub start_exporter : (make_dirs : Bool) → Options.Config → Start Exporter
start_exporter make_dirs cfg =
    let (x, e) = new_exporter make_dirs cfg (codes "test-tenant-key") (pos 500) in
    elim x [ none ↦ refused (exporter_failed e) | some x' ↦ started x' ]

unfoldable pub start_handler : StripeSource → (tenant_salt : Text) → Start Handler
start_handler s tenant_salt =
    if not (new_worker s.api_key tenant_salt true)
    then refused worker_failed
    else elim (new_handler s.webhook.enabled true (pos 1000)) [
      | none ↦ refused handler_failed
      | some h ↦ started h
    ]

-- The legacy endpoint, or else the one at the base URL.
unfoldable pub heartbeat_endpoint : (cdp_base_url : Text) → Heartbeat → Text
heartbeat_endpoint url h =
    if eq_text h.endpoint [] then url ++ codes "/api/agent/heartbeat" else h.endpoint

unfoldable pub start_heartbeat :
    (now : ℤ) → Agent → (cdp_base_url : Text) → Heartbeat → Start (Option Sender)
start_heartbeat now a url h =
    if not h.enabled
    then started none
    else elim (new_sender now a (heartbeat_endpoint url h) h.interval h.signature_secret
        (some no_metrics)) [
          | Sender.made s ↦ started (some s)
          | Sender.refused e ↦ refused (heartbeat_failed e)
        ]

unfoldable pub with_handlers : (Agent.Error → Text) → Disk → Poller Agent → Poller Agent
with_handlers error_text d q =
    register_handler
      (register_handler (register_handler q (codes "switch_mode") (handle_switch_mode error_text d))
        (codes "restart") (handle_restart error_text))
      (codes "upgrade") handle_upgrade

unfoldable pub start_poller :
    (Poller Agent → Poller Agent)
    → (id organization_id cdp_base_url : Text) → CommandPolling
    → Start (Option (Poller Agent))
start_poller ready id organization_id url p =
    if not p.enabled
    then started none
    else elim (new_poller url id organization_id p.signature_secret p.interval p.timeout) [
      | Polling.made q ↦ started (some (ready q))
      | Polling.refused e ↦ refused (poller_failed e)
    ]

-- The identifier is what agentid gives, `none` on an error.
unfoldable pub start_parts :
    {F : Type 0}
    → (Agent.Error → Text)
    → Disk
    → Config F
    → (id : Option Text) → File
    → System
    → (now : ℤ) → Start Server
start_parts error_text d c none file sys now = refused no_agent_id
start_parts error_text d c (some id) file sys now = do
  a ← start_agent c id file sys.state_dir
  s ← enabled_stripe c.stripe
  x ← start_exporter sys.export_dirs c.export.cfg
  h ← start_handler s c.privacy.tenant_salt
  sender ← start_heartbeat now (set_shutdown_func a) c.cdp_base_url c.heartbeat
  poller ← start_poller (with_handlers error_text d) id c.organization_id c.cdp_base_url c.polling
  started (record {
    agent = set_shutdown_func a;
    exporter = x;
    handler = h;
    path = s.webhook.path;
    heartbeat = sender;
    poller = poller;
  })

-- `runWebhookServer` up to its routes.
unfoldable pub start_server :
    {F : Type 0}
    → (Agent.Error → Text)
    → Disk
    → Config F
    → (id : Option Text) → File
    → System
    → (now : ℤ) → Start Server
start_server error_text d c id file sys now =
    if not sys.logger then refused no_logger else start_parts error_text d c id file sys now
