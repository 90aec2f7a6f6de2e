-- ===== src/Polling.antt =====
-- internal/polling: the poller of commands and the handlers of commands.
pub mod Laws
mod Tests
use linker_agent.Prelude.{
  ℕ, zero, suc, ◌+◌, Bool, true, false, not, ◌&&◌, ◌||◌, List, [], ◌∷◌, ◌++◌, Option, none, some,
  Text, codes, eq_text, if◌then◌else◌, length, lookup, ◌==◌, ℤ, pos, is_nonpos,
}
use linker_agent.Agent.{Agent, Disk, strict, passthrough, switch_mode, restart}
use linker_agent.Agent as Agent
use linker_agent.Control.{Params}
use linker_agent.Control.Handlers.{string_param}
use linker_agent.Heartbeat.{
  Primitives, Request, Response, network_error, response, Outside, Traffic, signature, unsigned,
  sign_request,
}

pub record Command : Type 0 where
  pub command_id : Text
  pub command : Text
  pub params : Params

-- The JSON of the requests, which can be marshalled, and of commands.
pub record Json : Type 0 where
  pub poll_request : (agent_id organization_id : Text) → Text
  pub ack_request : (agent_id organization_id command_id status message : Text) → Text
  pub command : Text → Option Command

-- A handler changes what it controls, and fails with a message.
abbrev pub CommandHandler : Type 0 → Type 0
CommandHandler S = S → Params → S × Option Text

pub record Poller (S : Type 0) : Type 0 where
  pub cdp_base_url : Text
  pub agent_id : Text
  pub organization_id : Text
  pub secret : Text
  pub interval : ℤ
  pub timeout : ℤ
  pub handlers : List (Text × CommandHandler S)

pub data ConfigError : Type 0 where
  url_required agent_required organization_required secret_required : ConfigError

pub data Made (S : Type 0) : Type 0 where
  made : Poller S → Made S
  refused : ConfigError → Made S

-- Durations are in nanoseconds.
unfoldable pub new_poller :
    {S : Type 0} → (url agent organization secret : Text) → (interval timeout : ℤ) → Made S
new_poller url agent organization secret interval timeout =
    if eq_text url []
    then refused url_required
    else if eq_text agent []
    then refused agent_required
    else if eq_text organization []
    then refused organization_required
    else if eq_text secret []
    then refused secret_required
    else made (record {
      cdp_base_url = url;
      agent_id = agent;
      organization_id = organization;
      secret = secret;
      interval = if is_nonpos interval then pos 30000000000 else interval;
      timeout = if is_nonpos timeout then pos 10000000000 else timeout;
      handlers = [];
    })

unfoldable pub register_handler : {S : Type 0} → Poller S → Text → CommandHandler S → Poller S
register_handler p command handler = record p { handlers = (command, handler) ∷ p.handlers }

-- A request signed with the control secret: the URL is checked, the clock and the nonce are read, and the
-- request is sent.
unfoldable pub send :
    {S : Type 0} → Outside → Poller S → Traffic → (url body : Text) → Traffic × Response
send o p t url body =
    let t' : Traffic = record t { calls = suc t.calls } in
    if not (o.valid_url url) then (t, network_error) else elim (o.random t.calls) [
      | none ↦ (t', network_error)
      | some nonce ↦ elim (sign_request o.primitives p.secret (o.clock t.calls) nonce body) [
        | unsigned e ↦ (t', network_error)
        | signature s ↦ (
          record t' {
            requests =
                t'.requests
                ++ (record {
                  url = url;
                  body = body;
                  timestamp = o.clock t.calls;
                  nonce = nonce;
                  signature_header = s;
                })
                  ∷ [];
          },
          o.answer (length t'.requests),
        )
      ]
    ]

pub data PollResult : Type 0 where
  poll_failed no_command : PollResult
  received : Command → PollResult

-- What a response to a poll says.
unfoldable pub read_response : Json → Response → PollResult
read_response j network_error = poll_failed
read_response j (response status body) =
    if status == 204 then no_command else if not (status == 200) then poll_failed else elim body [
      | none ↦ poll_failed
      | some bytes ↦ elim (j.command bytes) [
        | none ↦ poll_failed
        | some c ↦
            if eq_text c.command_id [] || eq_text c.command [] then no_command else received c
      ]
    ]

module _ {S : Type 0} (o : Outside) (j : Json) (p : Poller S) where
  unfoldable pub poll : Traffic → Traffic × PollResult
  poll t =
      let (t', r) =
        send o p t (p.cdp_base_url ++ codes "/api/agent/command/poll")
          (j.poll_request p.agent_id p.organization_id) in
      (t', read_response j r)

  -- The answer to an acknowledgment is only logged.
  unfoldable pub acknowledge : Traffic → (command_id status message : Text) → Traffic
  acknowledge t command_id status message =
      (send o p t (p.cdp_base_url ++ codes "/api/agent/command/result")
        (j.ack_request p.agent_id p.organization_id command_id status message)).0

  unfoldable pub execute_command : S → Command → S × Option Text
  execute_command s c = elim (lookup c.command p.handlers) [
    | none ↦ (s, some (codes "unknown command type: " ++ c.command))
    | some handler ↦ handler s c.params
  ]

  -- A cycle: it polls again after each command that succeeds. The fuel bounds the polls.
  unfoldable pub poll_once : (fuel : ℕ) → Traffic × S → Traffic × S
  poll_once zero (t, s) = (t, s)
  poll_once (suc fuel) (t, s) =
      let (t', r) = poll t in
      elim r [
        | poll_failed ↦ (t', s)
        | no_command ↦ (t', s)
        | received c ↦
            let (s', e) = execute_command s c in
            elim e [
              | some message ↦ (acknowledge t' c.command_id (codes "error") message, s')
              | none ↦ poll_once fuel (acknowledge t' c.command_id (codes "success") [], s')
            ]
      ]

-- The messages of the agent's errors.
module _ (error_text : Agent.Error → Text) where
  unfoldable pub handle_switch_mode : Disk → CommandHandler Agent
  handle_switch_mode d a params = elim (string_param (codes "mode") params) [
    | none ↦ (a, some (codes "mode parameter is required"))
    | some mode ↦
        if eq_text mode []
        then (a, some (codes "mode parameter is required"))
        else if not (eq_text mode strict) && not (eq_text mode passthrough)
        then (
          a,
          some (codes "invalid mode: " ++ (mode ++ codes " (must be 'strict' or 'passthrough')")),
        )
        else if eq_text a.mode mode
        then (a, none)
        else let (a', r) = switch_mode d a mode in
          elim r [
            | Agent.err e ↦ (a', some (codes "switch mode failed: " ++ error_text e))
            | Agent.ok _ ↦ (a', none)
          ]
  ]

  unfoldable pub handle_restart : CommandHandler Agent
  handle_restart a params =
      let (a', r) = restart a in
      elim r [
        | Agent.err e ↦ (a', some (codes "restart failed: " ++ error_text e))
        | Agent.ok _ ↦ (a', none)
      ]

unfoldable pub handle_upgrade : CommandHandler Agent
handle_upgrade a params = elim (string_param (codes "version") params) [
  | none ↦ (a, some (codes "version parameter is required"))
  | some version ↦
      if eq_text version [] then (a, some (codes "version parameter is required")) else (
        a,
        some (codes "upgrade not yet implemented (target version: " ++ (version ++ codes ")")),
      )
]
