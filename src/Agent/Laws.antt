-- ===== src/Agent/Laws.antt =====
-- The mode in memory and the mode on disk.
use linker_agent.Prelude.{
  ◌≡◌, ◌≢◌, refl, ◌⊎◌, inl, inr, true, false, [], ◌∷◌, Option, none, some, Option-cases, Bool-cases,
  Text, codes, subst, eq_text, eq_text_ne, arith, if◌then◌else◌,
}
use linker_agent.Agent.{
  Error, Result, ok, err, invalid_mode, write_failed, rename_failed, persist_failed, is_mode, File,
  holds, Disk, Manager, load, save, new_manager, set_privacy_mode, Agent, Config, chosen_mode,
  new_agent, switch_mode,
}

-- What an agent has on disk: nothing, or its state manager's file.
abbrev pub file_of : Agent → Option File
file_of a = elim a.state_manager [ none ↦ none | some m ↦ some m.file ]

-- A mode is no empty text.
pub mode_not_empty : (mode : Text) → is_mode mode ≡ true → eq_text mode [] ≡ false
unfolding is_mode eq_text
mode_not_empty [] h = absurd (cc)
mode_not_empty (x ∷ mode) h = refl

-- Setting a mode persists it, or fails and leaves the file.
set_privacy_mode-cases :
    (d : Disk) (m : Manager) (mode : Text)
    → is_mode mode ≡ true
    → (set_privacy_mode d m mode ≡ (record { privacy_mode = mode; file = holds mode }, ok tt))
      ⊎ ((e : Error) × (set_privacy_mode d m mode ≡ (record m { privacy_mode = mode }, err e)))
unfolding set_privacy_mode save
set_privacy_mode-cases d m mode h = elim (Bool-cases d.write_ok) [
  | inr unwritten ↦ inr (write_failed, ground (arith, unwritten, h))
  | inl written ↦ elim (Bool-cases d.rename_ok) [
    | inr stuck ↦ inr (rename_failed, ground (arith, written, stuck, h))
    | inl moved ↦ inl (ground (arith, written, moved, h))
  ]
]

-- What a switch does to the agent.
abbrev pub Switched : Agent → Text → Agent × Result (Unit {0}) → Type 0
Switched a mode (a', r) =
    ((r ≡ ok tt)
      × (is_mode mode ≡ true)
      × (a'.mode ≡ mode)
      × ((a.state_manager ≡ none)
          ⊎ (a'.state_manager ≡ some (record { privacy_mode = mode; file = holds mode }))))
    ⊎ ((e : Error) × (r ≡ err e) × (a'.mode ≡ a.mode) × (file_of a' ≡ file_of a))

switch_invalid :
    (d : Disk) (a : Agent) (mode : Text)
    → is_mode mode ≡ false
    → switch_mode d a mode ≡ (a, err invalid_mode)
unfolding switch_mode
switch_invalid d a mode h = rw h

switch_unmanaged :
    (d : Disk) (a : Agent) (mode : Text)
    → is_mode mode ≡ true
    → a.state_manager ≡ none
    → switch_mode d a mode ≡ (record a { mode = mode }, ok tt)
unfolding switch_mode
switch_unmanaged d a mode h e = ground (arith, h, e)

switch_persisted :
    (d : Disk) (a : Agent) (m m' : Manager) (mode : Text)
    → is_mode mode ≡ true
    → a.state_manager ≡ some m
    → set_privacy_mode d m mode ≡ (m', ok tt)
    → switch_mode d a mode ≡ (record a { mode = mode; state_manager = some m' }, ok tt)
unfolding switch_mode
switch_persisted d a m m' mode h e s = ground (arith, h, e, s)

switch_failed :
    (d : Disk) (a : Agent) (m m' : Manager) (mode : Text) (x : Error)
    → is_mode mode ≡ true
    → a.state_manager ≡ some m
    → set_privacy_mode d m mode ≡ (m', err x)
    → switch_mode d a mode ≡ (record a { state_manager = some m' }, err (persist_failed x))
unfolding switch_mode
switch_failed d a m m' mode x h e s = ground (arith, h, e, s)

-- A switch either succeeds, and then the mode is valid and is the agent's and, with a state manager,
-- the manager's and the file's; or it fails, and then the agent's mode and the file are as they were.
pub switch_mode_lem : (d : Disk) (a : Agent) (mode : Text) → Switched a mode (switch_mode d a mode)
switch_mode_lem d a mode = elim (Bool-cases (is_mode mode)) [
  | inr bad ↦ rw (switch_invalid d a mode bad) (inr (invalid_mode, refl, refl, refl))
  | inl good ↦ elim (Option-cases a.state_manager) [
    | inl e ↦ rw (switch_unmanaged d a mode good e) (inl (refl, good, refl, inl e))
    | inr (m, e) ↦ elim (set_privacy_mode-cases d m mode good) [
      | inl s ↦ rw (switch_persisted d a m _ mode good e s) (inl (refl, good, refl, inr refl))
      | inr (x, s) ↦
          rw (switch_failed d a m _ mode x good e s)
            (inr (persist_failed x, refl, refl, ground (arith, e)))
    ]
  ]
]

-- The manager that the state file of a mode gives.
abbrev saved : Text → Manager
saved mode = record { privacy_mode = mode; file = holds mode }

-- The agent that a configuration starts with that manager.
abbrev restarted : Config → Text → Agent
restarted cfg mode = record {
  id = cfg.agent_id;
  organization_id = cfg.organization_id;
  version = if eq_text cfg.version [] then codes "dev" else cfg.version;
  mode = mode;
  state_manager = some (saved mode);
  shutdown_fn = false;
  stopped = false;
}

new_manager-holds :
    (path mode : Text) → path ≢ [] → new_manager true path (holds mode) ≡ ok (saved mode)
unfolding new_manager load
new_manager-holds path mode p = rw (eq_text_ne path [] p) refl

new_agent-saved :
    (cfg : Config) (mode : Text)
    → is_mode mode ≡ true
    → cfg.agent_id ≢ []
    → cfg.organization_id ≢ []
    → new_agent (record cfg { state_manager = some (saved mode) }) ≡ ok (restarted cfg mode)
unfolding new_agent chosen_mode
new_agent-saved cfg mode good i o = ground (
  arith,
  mode_not_empty mode good,
  eq_text_ne cfg.agent_id [] i,
  eq_text_ne cfg.organization_id [] o,
  good,
)

-- After a successful switch of an agent that has a state manager, an agent started again with that
-- file, whatever mode it is configured with, has the mode that was switched to. The path of the file,
-- the agent's id and the organization's id are not empty.
pub mode-new_agent-switch_mode :
    (d : Disk) (a a' : Agent) (m : Manager) (cfg : Config) (mode path : Text)
    → a.state_manager ≡ some m
    → switch_mode d a mode ≡ (a', ok tt)
    → path ≢ []
    → cfg.agent_id ≢ []
    → cfg.organization_id ≢ []
    → (m' : Manager) × (b : Agent) × (file_of a' ≡ some m'.file)
      × (new_manager true path m'.file ≡ ok m')
      × (new_agent (record cfg { state_manager = some m' }) ≡ ok b)
      × (b.mode ≡ mode)
mode-new_agent-switch_mode d a a' m cfg mode path managed done p i o =
    from (subst (Switched a mode) done (switch_mode_lem d a mode))
  where
    from :
        Switched a mode (a', ok tt)
        → (m' : Manager) × (b : Agent) × (file_of a' ≡ some m'.file)
          × (new_manager true path m'.file ≡ ok m')
          × (new_agent (record cfg { state_manager = some m' }) ≡ ok b)
          × (b.mode ≡ mode)
    from (inr (e, bad, _, _)) = absurd (cc)
    from (inl (_, good, now, inl unmanaged)) = absurd (cc)
    from (inl (_, good, now, inr kept)) = (
      saved mode,
      restarted cfg mode,
      ground (arith, kept),
      new_manager-holds path mode p,
      new_agent-saved cfg mode good i o,
      refl,
    )

-- An agent that is made has one of the two modes, whatever the configuration and the state file hold.
pub new_agent-is_mode : (cfg : Config) (a : Agent) → new_agent cfg ≡ ok a → is_mode a.mode ≡ true
unfolding new_agent
new_agent-is_mode cfg a h = ground arith
