-- ===== src/Control/Tests.antt =====
-- The control commands at concrete inputs, and the theorems about them applied there.
use linker_agent.Prelude.{
  ℕ, ◌+◌, ◌≤◌, ◌^◌, ◌≡◌, refl, inl, inr, ◌⊎◌, ◌↔◌, true, false, [], ◌∷◌, ◌++◌, Option, none, some,
  Text, codes, eq_text, pos, lookup, keep, arith,
}
use linker_agent.Agent.{Agent, Disk, is_mode, strict, passthrough, switch_mode, stop}
use linker_agent.Control.Clock.{time_sub, time_diff, exceeds, neg}
use linker_agent.Control.Clock.Laws.{time_diff_iff}
use linker_agent.Control.{
  text, Params, Command, Crypto, Handler, NonceCache, Reading, new_handler, register_command,
  is_fresh, cleanup, check_and_store, verify_signature, verify, sign, handle, nonce_seen,
}
use linker_agent.Control.Laws.{IsAccepted, Verified, verify_lem, verify_iff}
use linker_agent.Control.Laws.Handle.{Handled, handle_lem}
use linker_agent.Control.Laws.Runs.{Follows, Refused, handle_all, handle_replayed}
use linker_agent.Control.Laws.Signed.{verify-sign, verify_after_forged}
use linker_agent.Control.Handlers.{
  Handlers, string_param, handle_stop, handle_switch_mode, register_all,
}
use linker_agent.Control.Handlers.Modes.{registered, handle_all-is_mode}

abbrev decode : Text → Option Text
decode [] = none
decode (x ∷ bytes) = some bytes

-- A code that decodes, and a MAC that depends on the key and the bytes.
abbrev crypto : Crypto
crypto = record {
  hmac = λ key bytes. key ++ bytes;
  encode_base64 = λ bytes. 1 ∷ bytes;
  decode_base64 = decode;
  marshal = λ c. some (c.command ++ c.nonce);
}

abbrev agent : Agent
agent = record {
  id = codes "agent";
  organization_id = codes "org";
  version = codes "dev";
  mode = strict;
  state_manager = none;
  shutdown_fn = true;
  stopped = false;
}

abbrev disk : Disk
disk = record { write_ok = true; rename_ok = true }

abbrev params : Params
params = (codes "mode", text passthrough) ∷ []

abbrev key : Text
key = codes "key"

abbrev command : Command
command = record {
  command = codes "switch_mode";
  params = params;
  timestamp = 1000;
  nonce = codes "n1";
  signature = [];
}

abbrev signed_command : Command
signed_command = record command { signature = 1 ∷ (key ++ (codes "switch_mode" ++ codes "n1")) }

abbrev forged_command : Command
forged_command = record command { signature = 1 ∷ [] }

abbrev stop_command : Command
stop_command = record {
  command = codes "stop";
  params = [];
  timestamp = 1150;
  nonce = codes "n2";
  signature = 1 ∷ (key ++ (codes "stop" ++ codes "n2"));
}

abbrev reading : ℕ → Reading
reading n = record { verified = n; cleaned = n + 1; answered = n + 2 }

abbrev no_nonces : NonceCache
no_nonces = record { cache = []; ttl = pos 600 }

abbrev handler : Handler Handlers
handler = registered disk crypto key (pos 300) (pos 600)

abbrev start : Handlers
start = record { controller = agent; shutdown_in_progress = false }

accepts : (verify crypto (reading 1100) key (pos 300) no_nonces signed_command).1 ≡ none
unfolding verify eq_text time_diff time_sub exceeds neg check_and_store cleanup keep lookup is_fresh
    verify_signature
accepts = refl

-- The switch and the stop are carried out, and the replayed switch is not.
runs :
    ((handle_all crypto handler start
        ((reading 1100, signed_command) ∷ (reading 1200, stop_command) ∷ [])).1
      ≡ record start { controller = record agent { mode = passthrough; stopped = true } })
    × ((handle crypto
          (reading 1210)
          (handle crypto (reading 1100) handler start signed_command).0.0
          start
          signed_command).2
        ≡ some nonce_seen)
unfolding handle_all handle verify eq_text time_diff time_sub exceeds neg check_and_store cleanup
    keep lookup is_fresh verify_signature register_all register_command new_handler
    handle_switch_mode string_param switch_mode is_mode handle_stop stop
runs = (refl, refl)

time_diff_iff_example :
    (exceeds (time_diff 1100 1000) (pos 300) ≡ false)
    ↔ (((1100 ≤ 1000 + 300) × (1000 ≤ 1100 + 300)) ⊎ (1100 + 2 ^ 63 ≤ 1000))
time_diff_iff_example = time_diff_iff 1100 1000 300 (omega arith)

-- A timestamp 2 ^ 63 nanoseconds ahead is inside the window.
far_future : exceeds (time_diff 0 (2 ^ 63)) (pos 300) ≡ false
far_future = (time_diff_iff 0 (2 ^ 63) 300 (omega arith)).1 (inr (omega arith))

verify_lem_example :
    Verified crypto
      (reading 1100)
      key
      (pos 300)
      no_nonces
      signed_command
      (verify crypto (reading 1100) key (pos 300) no_nonces signed_command)
verify_lem_example = verify_lem crypto (reading 1100) key (pos 300) no_nonces signed_command

verify_iff_example :
    ((verify crypto (reading 1100) key (pos 300) no_nonces signed_command).1 ≡ none)
    ↔ IsAccepted crypto (reading 1100) key (pos 300) no_nonces signed_command
verify_iff_example = verify_iff crypto (reading 1100) key (pos 300) no_nonces signed_command

handle_lem_example :
    Handled crypto
      (reading 1100)
      handler
      start
      signed_command
      (handle crypto (reading 1100) handler start signed_command)
handle_lem_example = handle_lem crypto (reading 1100) handler start signed_command

not_spent : lookup command.nonce (cleanup 1101 no_nonces).cache ≡ none
unfolding cleanup keep lookup
not_spent = refl

inside : exceeds (time_diff 1100 1000) (pos 300) ≡ false
inside = (time_diff_iff 1100 1000 300 (omega arith)).1 (inl (omega arith, omega arith))

verify-sign_example :
    ((sign crypto key command).1 ≡ none)
    × ((verify crypto (reading 1100) key (pos 300) no_nonces (sign crypto key command).0).1 ≡ none)
verify-sign_example =
    verify-sign crypto key (reading 1100) (pos 300) no_nonces command
      (codes "switch_mode" ++ codes "n1") (λ bytes. refl) (λ k bytes. ground arith) (ground arith)
      refl inside not_spent

forged : verify_signature crypto key forged_command ≡ false
unfolding verify_signature eq_text
forged = refl

later : exceeds (time_diff 1200 1000) (pos 300) ≡ false
later = (time_diff_iff 1200 1000 300 (omega arith)).1 (inl (omega arith, omega arith))

young : exceeds (time_sub 1201 1000) (pos 600) ≡ false
unfolding exceeds time_sub
young = refl

verify_after_forged_example :
    (verify crypto
      (reading 1200)
      key
      (pos 300)
      (verify crypto (reading 1100) key (pos 300) no_nonces forged_command).0
      signed_command).1
    ≡ some nonce_seen
verify_after_forged_example =
    verify_after_forged crypto key (reading 1100) (reading 1200) (pos 300) no_nonces forged_command
      signed_command (ground arith) (ground arith) (ground arith) refl inside later young not_spent
      forged

accepted :
    (verify crypto
      (reading 1100)
      handler.secret
      handler.max_clock_skew
      handler.nonce_cache
      signed_command).1
    ≡ none
unfolding register_all register_command new_handler
accepted = accepts

ordered :
    Follows 1 1101 (((reading 1200, stop_command) ∷ []) ++ (reading 1300, signed_command) ∷ [])
unfolding Follows
ordered = (omega arith, omega arith, omega arith, (omega arith, omega arith, omega arith, tt))

handle_replayed_example :
    let (h', s') =
      handle_all crypto
        (handle crypto (reading 1100) handler start signed_command).0.0
        (handle crypto (reading 1100) handler start signed_command).0.1
        ((reading 1200, stop_command) ∷ []) in
    Refused s' (handle crypto (reading 1300) h' s' signed_command)
unfolding register_all register_command new_handler
handle_replayed_example =
    handle_replayed crypto 300 600 1 (omega arith) (omega arith) handler start (reading 1100)
      (reading 1300) signed_command signed_command ((reading 1200, stop_command) ∷ []) refl refl
      accepted refl refl ordered

strict-is_mode : is_mode strict ≡ true
unfolding is_mode eq_text
strict-is_mode = refl

handle_all-is_mode_example :
    is_mode
      (handle_all crypto handler start ((reading 1100, signed_command) ∷ [])).1.controller.mode
    ≡ true
handle_all-is_mode_example =
    handle_all-is_mode disk crypto key (pos 300) (pos 600) start
      ((reading 1100, signed_command) ∷ []) strict-is_mode
