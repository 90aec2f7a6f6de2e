-- ===== src/AgentId/Tests.antt =====
-- A first start and a restart, and the theorem about them applied there.
use linker_agent.Prelude.{
  ◌≡◌, refl, true, false, ◌++◌, none, some, Text, codes, replicate, eq_text, has_prefix, after,
  trim_left, trim_space,
}
use linker_agent.Crypto.{hex_encode}
use linker_agent.AgentId.{ok, System, generate, read, write, get_or_create}
use linker_agent.AgentId.Laws.{get_or_create-again}

abbrev bytes : Text
bytes = replicate 16 171

abbrev first : System
first = record { random = some bytes; make_dir = true; write = true; left = none }

-- The disk is not written any more.
abbrev later : System
later = record { random = none; make_dir = false; write = false; left = none }

abbrev id : Text
id = codes "agent_" ++ hex_encode bytes

made : get_or_create first none ≡ (some id, ok id)
unfolding get_or_create generate read write
made = refl

-- What a failed write has left is taken for an identifier.
partial : get_or_create later (some (codes "agent_")) ≡ (some (codes "agent_"), ok (codes "agent_"))
unfolding get_or_create read eq_text has_prefix after trim_left trim_space
partial = refl

get_or_create-again_example : get_or_create later (some id) ≡ (some id, ok id)
get_or_create-again_example = get_or_create-again first later none (some id) id refl made
