-- ===== src/Main/Server/Tests.antt =====
-- A start with the standard mode, and the theorem about refusals applied there.
use linker_agent.Prelude.{◌≡◌, refl, true, [], some, codes, eq_text, pos}
use linker_agent.Agent.{
  Disk, absent, load, new_manager, new_agent, chosen_mode, is_mode, invalid_mode,
}
use linker_agent.Matchers.Tests.{percent}
use linker_agent.Config.Tests.{given, accepted, any_cidr, validated}
use linker_agent.Main.Server.{agent_failed, refused, start_agent, System, start_parts, start_server}
use linker_agent.Main.Server.Laws.{IsDue, start_server_lem}

abbrev disk : Disk
disk = record { write_ok = true; rename_ok = true }

abbrev sys : System
sys = record { logger = true; state_dir = true; export_dirs = true }

-- The agent has no standard mode.
refused_standard :
    start_server (λ e. []) disk accepted (some (codes "agent_1")) absent sys (pos 0)
    ≡ refused (agent_failed invalid_mode)
unfolding start_server start_parts start_agent load new_manager new_agent chosen_mode is_mode
    eq_text
refused_standard = refl

start_server_lem_example :
    IsDue accepted (some (codes "agent_1")) absent sys (agent_failed invalid_mode)
start_server_lem_example =
    start_server_lem percent any_cidr given accepted validated (λ e. []) disk
      (some (codes "agent_1")) absent sys (pos 0) (agent_failed invalid_mode) refused_standard
