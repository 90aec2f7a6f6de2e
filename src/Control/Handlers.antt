-- ===== src/Control/Handlers.antt =====
-- internal/control/handlers.go: the command functions, on the agent of internal/agent/agent.go.
pub mod Laws
pub mod Modes
use linker_agent.Prelude.{
  ℕ, Bool, true, false, not, ◌&&◌, List, [], ◌∷◌, Option, none, some, Text, codes, eq_text,
  if◌then◌else◌, lookup,
}
use linker_agent.Agent.{
  Agent, Disk, Result, ok, err, strict, passthrough, switch_mode, stop, restart,
}
use linker_agent.Control.{
  Value, text, other, Params, CommandFunc, Handler, Error, already_in_progress, stop_failed,
  restart_failed, switch_mode_failed, mode_required, version_required, invalid_mode,
  not_implemented, register_command,
}

pub record Handlers : Type 0 where
  pub controller : Agent
  pub shutdown_in_progress : Bool

unfoldable pub new_handlers : Agent → Handlers
new_handlers a = record { controller = a; shutdown_in_progress = false }

-- `params[name].(string)`.
unfoldable pub string_param : Text → Params → Option Text
string_param name params = elim (lookup name params) [
  | none ↦ none
  | some v ↦ elim v [ text t ↦ some t | other t ↦ none ]
]

-- The flag is set around the call of the agent, and reset on every way out of it.
unfoldable pub handle_stop : Handlers → Params → Handlers × Option Error
handle_stop h params =
    if h.shutdown_in_progress
    then (h, some already_in_progress)
    else let h' : Handlers = record h { shutdown_in_progress = true } in
      let (a, r) = stop h'.controller in
      let out : Handlers = record h' { controller = a; shutdown_in_progress = false } in
      elim r [ err e ↦ (out, some (stop_failed e)) | ok _ ↦ (out, none) ]

unfoldable pub handle_start : Handlers → Params → Handlers × Option Error
handle_start h params = (h, none)

-- The parameter `mode` is only logged.
unfoldable pub handle_restart : Handlers → Params → Handlers × Option Error
handle_restart h params =
    if h.shutdown_in_progress
    then (h, some already_in_progress)
    else let h' : Handlers = record h { shutdown_in_progress = true } in
      let (a, r) = restart h'.controller in
      let out : Handlers = record h' { controller = a; shutdown_in_progress = false } in
      elim r [ err e ↦ (out, some (restart_failed e)) | ok _ ↦ (out, none) ]

unfoldable pub handle_switch_mode : Disk → Handlers → Params → Handlers × Option Error
handle_switch_mode d h params = elim (string_param (codes "mode") params) [
  | none ↦ (h, some mode_required)
  | some mode ↦
      if eq_text mode []
      then (h, some mode_required)
      else if not (eq_text mode strict) && not (eq_text mode passthrough)
      then (h, some (invalid_mode mode))
      else if eq_text h.controller.mode mode
      then (h, none)
      else let (a, r) = switch_mode d h.controller mode in
        elim r [
          | err e ↦ (record h { controller = a }, some (switch_mode_failed e))
          | ok _ ↦ (record h { controller = a }, none)
        ]
]

unfoldable pub handle_upgrade : Handlers → Params → Handlers × Option Error
handle_upgrade h params = elim (string_param (codes "version") params) [
  | none ↦ (h, some version_required)
  | some version ↦
      if eq_text version [] then (h, some version_required) else (h, some (not_implemented version))
]

unfoldable pub register_all : Disk → Handler Handlers → Handler Handlers
register_all d h0 =
    let h1 = register_command h0 (codes "stop") handle_stop in
    let h2 = register_command h1 (codes "start") handle_start in
    let h3 = register_command h2 (codes "restart") handle_restart in
    let h4 = register_command h3 (codes "switch_mode") (handle_switch_mode d) in
    register_command h4 (codes "upgrade") handle_upgrade
