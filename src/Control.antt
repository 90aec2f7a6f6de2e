-- ===== src/Control.antt =====
-- internal/control/control.go: signed commands, the window, the nonces and the router.
pub mod Clock
pub mod Laws
pub mod Handlers
mod Tests
use linker_agent.Prelude.{
  ℕ, ◌≡◌, Bool, true, false, not, List, [], ◌∷◌, Option, none, some, Text, codes, eq_text,
  if◌then◌else◌, ℤ, lookup, keep,
}
use linker_agent.Agent
use linker_agent.Control.Clock.{time_sub, time_diff, exceeds}

-- A value of `params`: a string, or the JSON of anything else.
pub data Value : Type 0 where
  text other : Text → Value

abbrev pub Params : Type 0
Params = List (Text × Value)

pub record Command : Type 0 where
  pub command : Text
  pub params : Params
  pub timestamp : ℕ
  pub nonce : Text
  pub signature : Text

-- `crypto/hmac` with SHA-256, `encoding/base64` and `encoding/json`.
pub record Crypto : Type 0 where
  pub hmac : Text → Text → Text
  pub encode_base64 : Text → Text
  pub decode_base64 : Text → Option Text
  pub marshal : Command → Option Text

pub data Error : Type 0 where
  secret_empty signature_missing outside_window nonce_seen bad_signature marshal_failed : Error
  unknown_command : Text → Error
  already_in_progress mode_required version_required : Error
  stop_failed restart_failed switch_mode_failed : Agent.Error → Error
  invalid_mode not_implemented : Text → Error

pub record NonceCache : Type 0 where
  pub cache : List (Text × ℕ)
  pub ttl : ℤ

-- What a command function does to the state that it controls, and its error.
abbrev pub CommandFunc : Type 0 → Type 0
CommandFunc S = S → Params → S × Option Error

pub record Handler (S : Type 0) : Type 0 where
  pub secret : Text
  pub max_clock_skew : ℤ
  pub nonce_cache : NonceCache
  pub command_router : List (Text × CommandFunc S)

-- The text of the message is its error's.
pub data Message : Type 0 where
  verification_failed execution_failed : Error → Message
  unknown : Error → Message
  executed : Message

pub record CommandResult : Type 0 where
  pub command : Text
  pub success : Bool
  pub message : Message
  pub timestamp : ℕ

-- The three readings of the clock that a call of `Handle` makes.
pub record Reading : Type 0 where
  pub verified : ℕ
  pub cleaned : ℕ
  pub answered : ℕ

unfoldable pub new_handler : {S : Type 0} → Text → ℤ → ℤ → Handler S
new_handler secret skew ttl = record {
  secret = secret;
  max_clock_skew = skew;
  nonce_cache = record { cache = []; ttl = ttl };
  command_router = [];
}

unfoldable pub register_command : {S : Type 0} → Handler S → Text → CommandFunc S → Handler S
register_command h command fn = record h { command_router = (command, fn) ∷ h.command_router }

-- Whether `cleanup` keeps the timestamp.
unfoldable pub is_fresh : ℤ → ℕ → ℕ → Bool
is_fresh ttl now t = not (exceeds (time_sub now t) ttl)

unfoldable pub cleanup : ℕ → NonceCache → NonceCache
cleanup now nc = record nc { cache = keep (is_fresh nc.ttl now) nc.cache }

unfoldable pub check_and_store : ℕ → NonceCache → Text → ℕ → NonceCache × Bool
check_and_store now nc nonce t =
    let nc' = cleanup now nc in
    elim (lookup nonce nc'.cache) [
      | some _ ↦ (nc', false)
      | none ↦ (record nc' { cache = (nonce, t) ∷ nc'.cache }, true)
    ]

abbrev pub unsigned : Command → Command
unsigned c = record c { signature = [] }

unfoldable pub verify_signature : Crypto → Text → Command → Bool
verify_signature k secret c = elim (k.decode_base64 c.signature) [
  | none ↦ false
  | some received ↦ elim (k.marshal (unsigned c)) [
    | none ↦ false
    | some bytes ↦ eq_text received (k.hmac secret bytes)
  ]
]

unfoldable pub verify :
    Crypto → Reading → Text → ℤ → NonceCache → Command → NonceCache × Option Error
verify k at secret skew nc c =
    if eq_text secret []
    then (nc, some secret_empty)
    else if eq_text c.signature []
    then (nc, some signature_missing)
    else if exceeds (time_diff at.verified c.timestamp) skew
    then (nc, some outside_window)
    else let (nc', unseen) = check_and_store at.cleaned nc c.nonce c.timestamp in
      if not unseen
      then (nc', some nonce_seen)
      else if not (verify_signature k secret c)
      then (nc', some bad_signature)
      else (nc', none)

unfoldable pub sign : Crypto → Text → Command → Command × Option Error
sign k secret c =
    if eq_text secret [] then (c, some secret_empty) else elim (k.marshal (unsigned c)) [
      | none ↦ (c, some marshal_failed)
      | some bytes ↦ (record c { signature = k.encode_base64 (k.hmac secret bytes) }, none)
    ]

abbrev pub answer : Reading → Command → Bool → Message → CommandResult
answer at c success message = record {
  command = c.command;
  success = success;
  message = message;
  timestamp = at.answered;
}

-- The command function runs after the verification, on the state that it controls.
unfoldable pub handle :
    {S : Type 0}
    → Crypto
    → Reading
    → Handler S
    → S
    → Command
    → (Handler S × S) × CommandResult × Option Error
handle k at h s c =
    let (nc, refused) = verify k at h.secret h.max_clock_skew h.nonce_cache c in
    let h' = record h { nonce_cache = nc } in
    elim refused [
      | some e ↦ ((h', s), answer at c false (verification_failed e), some e)
      | none ↦ elim (lookup c.command h.command_router) [
        | none ↦
            let e = unknown_command c.command in ((h', s), answer at c false (unknown e), some e)
        | some fn ↦
            let (s', problem) = fn s c.params in
            elim problem [
              | some e ↦ ((h', s'), answer at c false (execution_failed e), some e)
              | none ↦ ((h', s'), answer at c true executed, none)
            ]
      ]
    ]
