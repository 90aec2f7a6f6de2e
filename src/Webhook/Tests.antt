-- ===== src/Webhook/Tests.antt =====
-- The webhook at concrete inputs, and the theorems about it applied there.
use linker_agent.Prelude.{
  ℕ, ◌≡◌, refl, true, false, List, [], ◌∷◌, none, some, codes, eq_text, has_prefix, pos, arith,
}
use linker_agent.Webhook.{
  Handler, Job, Request, event, System, Step, serve, take_job, has_seen, is_duplicate, send,
  serve_http, step, run, empty_handler,
}
use linker_agent.Webhook.Laws.{count_id, IsOnce, run-IsOnce, serve_http_full}
use linker_agent.Webhook.Worker.{
  Error, Attempt, wrapped, stripe, is_supported, is_one_of, is_retryable_error, process_object,
  process_once, attempts, process,
}
use linker_agent.Webhook.Worker.Laws.{process_lem}

abbrev invoice : Job
invoice = record {
  event_id = codes "e1";
  kind = codes "invoice.created";
  object_id = codes "in1";
  created = 7;
}

abbrev request : Request
request = record {
  is_post = true;
  ip_allowed = true;
  body_read = true;
  signature_valid = true;
  body = event invoice;
}

abbrev start : System
start = record { handler = empty_handler (pos 1); taken = [] }

abbrev steps : List Step
steps = serve request ∷ take_job ∷ serve request ∷ []

-- The second delivery is ignored.
delivered_twice : ((run start steps).handler.jobs ≡ []) × ((run start steps).taken ≡ invoice ∷ [])
unfolding run step serve_http is_duplicate has_seen send empty_handler eq_text
delivered_twice = (refl, refl)

start-IsOnce : IsOnce start
unfolding empty_handler count_id has_seen
start-IsOnce id = omega arith

run-IsOnce_example : IsOnce (run start steps)
run-IsOnce_example = run-IsOnce start steps start-IsOnce

-- The client is limited in its rate at every attempt.
abbrev limited : ℕ → Attempt
limited n = record {
  fetch = some (stripe (codes "rate_limit") 429);
  sanitize = none;
  pipeline = none;
}

limited_once :
    process invoice limited (λ n. false) (pos 5)
    ≡ (1, some (wrapped (codes "failed to fetch invoice") (stripe (codes "rate_limit") 429)))
unfolding process attempts is_supported is_one_of eq_text process_once process_object has_prefix
    is_retryable_error
limited_once = refl

invoice_supported : is_supported invoice.kind ≡ true
unfolding is_supported is_one_of eq_text
invoice_supported = refl

process_lem_example :
    (process invoice limited (λ n. false) (pos 5) ≡ (1, process_once invoice (limited 0)))
    × ((a : Attempt) (e : Error) → process_once invoice a ≡ some e → is_retryable_error e ≡ false)
process_lem_example = process_lem invoice limited (λ n. false) 4 invoice_supported

-- The event arrives while a queue of one is full, and again when it is empty.
abbrev full : Handler
full = record { seen = []; jobs = invoice ∷ []; queue_depth = 1 }

abbrev drained : Handler
drained = record { seen = codes "e1" ∷ []; jobs = []; queue_depth = 1 }

drained_seen : drained.seen ≡ (serve_http full request).0.seen
unfolding serve_http is_duplicate has_seen send eq_text
drained_seen = refl

invoice_new : has_seen invoice.event_id full.seen ≡ false
unfolding has_seen
invoice_new = refl

serve_http_full_example :
    ((serve_http full request).0.jobs ≡ full.jobs) × ((serve_http drained request).0 ≡ drained)
serve_http_full_example =
    serve_http_full full drained request request invoice (refl, refl, refl, refl, refl)
      (refl, refl, refl, refl, refl) invoice_new (omega arith) drained_seen
