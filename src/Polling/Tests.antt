-- ===== src/Polling/Tests.antt =====
-- A polling cycle with two commands, and the theorem about cycles applied there.
use linker_agent.Prelude.{
  ℕ, suc, ◌≡◌, refl, true, List, [], ◌∷◌, ◌++◌, none, some, Text, codes, eq_text, if◌then◌else◌,
  ◌==◌, pos, arith,
}
use linker_agent.Heartbeat.{response, Outside, Traffic}
use linker_agent.Polling.{Command, Json, Poller, read_response, poll_once}
use linker_agent.Polling.Laws.{CanSend, Serves, sent, dialogue, poll_once_lem}

abbrev command : Text → Command
command id = record { command_id = id; command = codes "restart"; params = [] }

abbrev json : Json
json = record {
  poll_request = λ agent organization. agent ++ organization;
  ack_request = λ agent organization id status message. id ++ status;
  command = λ bytes. some (command bytes);
}

-- The server has two commands.
abbrev outside : Outside
outside = record {
  primitives = record {
    decode_base64 = λ t. some t;
    encode_base64 = λ t. t;
    hmac = λ key message. message;
  };
  clock = λ n. pos n;
  random = λ n. some (n ∷ []);
  answer = λ n.
      if n == 0
      then response 200 (some (codes "c1"))
      else if n == 2
      then response 200 (some (codes "c2"))
      else response 204 none;
  valid_url = λ url. true;
}

-- The state counts the restarts.
abbrev poller : Poller ℕ
poller = record {
  cdp_base_url = codes "https://example.org";
  agent_id = codes "a";
  organization_id = codes "o";
  secret = codes "s";
  interval = pos 30;
  timeout = pos 10;
  handlers = (codes "restart", λ n params. (suc n, none)) ∷ [];
}

abbrev quiet : Traffic
quiet = record { calls = 0; requests = [] }

abbrev two : List Command
two = command (codes "c1") ∷ command (codes "c2") ∷ []

poller-CanSend : CanSend outside poller
poller-CanSend = (refl, refl, (λ e. cc), (codes "s", refl), λ n. (n ∷ [], refl))

outside-Serves : Serves outside json poller 0 two
unfolding read_response eq_text
outside-Serves = (refl, (refl, refl))

poll_once_lem_example :
    ((poll_once outside json poller 3 (quiet, 0)).1 ≡ (dialogue outside json poller two 0).0)
    × (sent ((poll_once outside json poller 3 (quiet, 0)).0)
        ≡ [] ++ (dialogue outside json poller two 0).1)
poll_once_lem_example =
    poll_once_lem outside json poller poller-CanSend 3 two quiet 0 outside-Serves (omega arith)
