-- ===== src/Agent/Tests.antt =====
-- The agent at concrete inputs, and the theorems about it applied there.
use linker_agent.Prelude.{◌≡◌, refl, true, false, [], none, some, codes, eq_text, arith}
use linker_agent.Agent.{
  Error, ok, err, is_mode, strict, passthrough, holds, absent, Disk, Manager, save, new_manager,
  set_privacy_mode, Agent, Config, chosen_mode, new_agent, switch_mode,
}
use linker_agent.Agent.Laws.{file_of, mode-new_agent-switch_mode}

abbrev manager : Manager
manager = record { privacy_mode = strict; file = absent }

abbrev agent : Agent
agent = record {
  id = codes "agent";
  organization_id = codes "org";
  version = codes "dev";
  mode = strict;
  state_manager = some manager;
  shutdown_fn = false;
  stopped = false;
}

abbrev switched : Agent
switched = record agent {
  mode = passthrough;
  state_manager = some (record { privacy_mode = passthrough; file = holds passthrough });
}

abbrev config : Config
config = record {
  agent_id = codes "agent";
  organization_id = codes "org";
  version = [];
  initial_mode = [];
  state_manager = none;
}

abbrev started : Agent
started = record agent { state_manager = none }

abbrev working : Disk
working = record { write_ok = true; rename_ok = true }

switch_agent : switch_mode working agent passthrough ≡ (switched, ok tt)
unfolding switch_mode is_mode set_privacy_mode save eq_text
switch_agent = refl

-- A failed rename rolls the agent back, and leaves the new mode in the manager's memory.
switch_stuck : switch_mode (record { write_ok = true; rename_ok = false }) agent passthrough ≡ (
  record agent { state_manager = some (record manager { privacy_mode = passthrough }) },
  err (Error.persist_failed Error.rename_failed),
)
unfolding switch_mode is_mode set_privacy_mode save eq_text
switch_stuck = refl

start_agent : new_agent config ≡ ok started
unfolding new_agent chosen_mode is_mode eq_text
start_agent = refl

mode-new_agent-switch_mode_example :
    (m' : Manager) × (b : Agent) × (file_of switched ≡ some m'.file)
    × (new_manager true (codes "state.json") m'.file ≡ ok m')
    × (new_agent (record config { state_manager = some m' }) ≡ ok b)
    × (b.mode ≡ passthrough)
mode-new_agent-switch_mode_example =
    mode-new_agent-switch_mode working agent switched manager config passthrough
      (codes "state.json") refl switch_agent (ground arith) (ground arith) (ground arith)
