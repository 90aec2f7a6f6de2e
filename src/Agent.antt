-- ===== src/Agent.antt =====
-- internal/agent/agent.go and internal/state/state.go: the agent's privacy mode and its file.
pub mod Laws
mod Tests
use linker_agent.Prelude.{
  ℕ, Bool, true, false, ◌&&◌, ◌||◌, not, [], Option, none, some, Text, codes, eq_text,
  if◌then◌else◌,
}

pub data Error : Type 0 where
  path_required directory_failed load_failed invalid_mode write_failed rename_failed : Error
  agent_id_required organization_id_required no_shutdown_function : Error
  persist_failed : Error → Error

pub data Result {ℓ} (A : Type ℓ) : Type ℓ where
  ok : A → Result A
  err : Error → Result A

abbrev pub strict : Text
strict = codes "strict"

abbrev pub passthrough : Text
passthrough = codes "passthrough"

unfoldable pub is_mode : Text → Bool
is_mode mode = eq_text mode strict || eq_text mode passthrough

-- The state file: absent, unreadable or not the JSON of a state, or the mode that it holds.
pub data File : Type 0 where
  absent unreadable : File
  holds : Text → File

-- Whether writing the temporary file and renaming it succeed.
pub record Disk : Type 0 where
  pub write_ok : Bool
  pub rename_ok : Bool

-- `state.Manager`: the state in memory, and the file behind it.
pub record Manager : Type 0 where
  pub privacy_mode : Text
  pub file : File

unfoldable pub load : Manager → Manager × Result (Unit {0})
load m = elim m.file [
  | absent ↦ (record m { privacy_mode = [] }, ok tt)
  | unreadable ↦ (m, err load_failed)
  | holds mode ↦ (record m { privacy_mode = mode }, ok tt)
]

-- The file is replaced by a rename, so that a failure leaves it as it was.
unfoldable pub save : Disk → Manager → Manager × Result (Unit {0})
save d m =
    if not d.write_ok
    then (m, err write_failed)
    else if not d.rename_ok
    then (m, err rename_failed)
    else (record m { file = holds m.privacy_mode }, ok tt)

-- Whether the directory of the file is there or can be made comes first.
unfoldable pub new_manager : (makes_dir : Bool) → Text → File → Result Manager
new_manager makes_dir path file =
    if eq_text path []
    then err path_required
    else if not makes_dir
    then err directory_failed
    else let (m, r) = load (record { privacy_mode = []; file = file }) in
      elim r [ err e ↦ err load_failed | ok _ ↦ ok m ]

unfoldable pub set_privacy_mode : Disk → Manager → Text → Manager × Result (Unit {0})
set_privacy_mode d m mode =
    if not (eq_text mode []) && not (is_mode mode)
    then (m, err invalid_mode)
    else save d (record m { privacy_mode = mode })

-- `agent.Agent`: `shutdown_fn` says whether a shutdown function is registered, `stopped` whether it
-- was called.
pub record Agent : Type 0 where
  pub id : Text
  pub organization_id : Text
  pub version : Text
  pub mode : Text
  pub state_manager : Option Manager
  pub shutdown_fn : Bool
  pub stopped : Bool

pub record Config : Type 0 where
  pub agent_id : Text
  pub organization_id : Text
  pub version : Text
  pub initial_mode : Text
  pub state_manager : Option Manager

-- The mode that the state file overrides.
unfoldable pub chosen_mode : Config → Text
chosen_mode cfg = elim cfg.state_manager [
  | none ↦ cfg.initial_mode
  | some m ↦ if eq_text m.privacy_mode [] then cfg.initial_mode else m.privacy_mode
]

unfoldable pub new_agent : Config → Result Agent
new_agent cfg =
    let chosen = chosen_mode cfg in
    let mode = if eq_text chosen [] then strict else chosen in
    if eq_text cfg.agent_id []
    then err agent_id_required
    else if eq_text cfg.organization_id []
    then err organization_id_required
    else if not (is_mode mode)
    then err invalid_mode
    else ok (record {
      id = cfg.agent_id;
      organization_id = cfg.organization_id;
      version = if eq_text cfg.version [] then codes "dev" else cfg.version;
      mode = mode;
      state_manager = cfg.state_manager;
      shutdown_fn = false;
      stopped = false;
    })

-- The mode is stored, and given back if the state manager cannot persist it.
unfoldable pub switch_mode : Disk → Agent → Text → Agent × Result (Unit {0})
switch_mode d a mode = if not (is_mode mode) then (a, err invalid_mode) else elim a.state_manager [
  | none ↦ (record a { mode = mode }, ok tt)
  | some m ↦
      let (m', r) = set_privacy_mode d m mode in
      elim r [
        | err e ↦ (record a { state_manager = some m' }, err (persist_failed e))
        | ok _ ↦ (record a { mode = mode; state_manager = some m' }, ok tt)
      ]
]

unfoldable pub set_shutdown_func : Agent → Agent
set_shutdown_func a = record a { shutdown_fn = true }

unfoldable pub stop : Agent → Agent × Result (Unit {0})
stop a =
    if a.shutdown_fn then (record a { stopped = true }, ok tt) else (a, err no_shutdown_function)

unfoldable pub restart : Agent → Agent × Result (Unit {0})
restart a = stop a
