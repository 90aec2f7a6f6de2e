-- ===== src/Heartbeat/Sender/Tests.antt =====
-- A heartbeat that is refused, and the theorem about heartbeats applied there.
use linker_agent.Prelude.{
  ℕ, ◌≡◌, refl, ◌⊎◌, true, false, [], ◌∷◌, ◌++◌, Option, none, some, Text, codes, eq_text, pos, ℤ,
}
use linker_agent.Agent.{strict}
use linker_agent.Heartbeat.{response, Outside, Traffic, message_of, sign_request}
use linker_agent.Heartbeat.Sender.{
  Payload, bad_status, Sender, metrics_of, new_payload, prepare, read_answer, send_heartbeat,
}
use linker_agent.Heartbeat.Sender.Laws.{Arrived, Missed, send_heartbeat_lem}

abbrev outside : Outside
outside = record {
  primitives = record {
    decode_base64 = λ t. some t;
    encode_base64 = λ t. t;
    hmac = λ key message. [];
  };
  clock = λ n. pos n;
  random = λ n. some (n ∷ []);
  answer = λ n. response 503 none;
  valid_url = λ url. true;
}

abbrev sender : Sender
sender = record {
  agent = record {
    id = codes "a";
    organization_id = codes "o";
    version = codes "1";
    mode = strict;
    state_manager = none;
    shutdown_fn = true;
    stopped = false;
  };
  endpoint = codes "https://example.org";
  interval = pos 30;
  secret = codes "s";
  queue_metrics = none;
  last_flush = pos 0;
}

abbrev marshal : Payload → Option Text
marshal p = some (p.agent_id ++ p.mode)

abbrev uptime : ℕ → ℤ
uptime n = pos n

abbrev quiet : Traffic
quiet = record { calls = 7; requests = [] }

unavailable : (send_heartbeat outside uptime marshal quiet sender).1 ≡ some (bad_status 503)
unfolding send_heartbeat prepare sign_request message_of read_answer eq_text new_payload metrics_of
unavailable = refl

send_heartbeat_lem_example :
    Arrived outside uptime marshal quiet sender (send_heartbeat outside uptime marshal quiet sender)
    ⊎ Missed outside uptime marshal quiet sender
        (send_heartbeat outside uptime marshal quiet sender)
send_heartbeat_lem_example = send_heartbeat_lem outside uptime marshal quiet sender
