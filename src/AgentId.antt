-- ===== src/AgentId.antt =====
-- internal/agentid/agentid.go: the identifier of the agent and its file.
pub mod Laws
mod Tests
use linker_agent.Prelude.{
  Bool, true, false, not, [], ◌++◌, Option, none, some, Text, codes, eq_text, has_prefix, drop,
  trim_space, if◌then◌else◌,
}
use linker_agent.Crypto.{hex_encode}

pub data Error : Type 0 where
  generate_failed directory_failed write_failed : Error

pub data Result {ℓ} (A : Type ℓ) : Type ℓ where
  ok : A → Result A
  err : Error → Result A

-- What the system does: a write that fails may leave anything in the file.
pub record System : Type 0 where
  pub random : Option Text
  pub make_dir : Bool
  pub write : Bool
  pub left : Option Text

-- `home` is `os.UserHomeDir`, and `join` is `filepath.Join` of two elements.
unfoldable pub expand_home_dir : (home : Option Text) → (join : Text → Text → Text) → Text → Text
expand_home_dir home join path = if not (has_prefix (codes "~") path) then path else elim home [
  | none ↦ path
  | some dir ↦ if eq_text path (codes "~") then dir else join dir (drop 2 path)
]

-- The path of the file.
unfoldable pub new_generator : (home : Option Text) → (join : Text → Text → Text) → Text → Text
new_generator home join path =
    expand_home_dir home join (if eq_text path [] then codes "~/.connektn/agent-id" else path)

unfoldable pub generate : (random : Option Text) → Result Text
generate none = err generate_failed
generate (some bytes) = ok (codes "agent_" ++ hex_encode bytes)

-- The file is `none` if it cannot be read.
unfoldable pub read : Option Text → Option Text
read none = none
read (some bytes) =
    let id = trim_space bytes in
    if eq_text id [] then none else if not (has_prefix (codes "agent_") id) then none else some id

unfoldable pub write : System → Option Text → (id : Text) → Option Text × Result (Unit {0})
write s file id =
    if not s.make_dir
    then (file, err directory_failed)
    else if not s.write
    then (s.left, err write_failed)
    else (some id, ok tt)

unfoldable pub get_or_create : System → Option Text → Option Text × Result Text
get_or_create s file = elim (read file) [
  | some id ↦ (file, ok id)
  | none ↦ elim (generate s.random) [
    | err e ↦ (file, err e)
    | ok id ↦ let (file', r) = write s file id in (file', elim r [ err e ↦ err e | ok _ ↦ ok id ])
  ]
]
