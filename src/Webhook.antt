-- ===== src/Webhook.antt =====
-- internal/ingest/stripewebhook: the webhook requests and the jobs that they give.
pub mod Worker
pub mod Events
pub mod Verify
mod Laws
mod Tests
use linker_agent.Prelude.{
  ℕ, Bool, true, false, not, List, [], ◌∷◌, ◌++◌, Option, none, some, Text, eq_text, length, ltb,
  if◌then◌else◌, ℤ, pos, is_nonpos, to_ℕ,
}

pub record Job : Type 0 where
  pub event_id : Text
  pub kind : Text
  pub object_id : Text
  pub created : ℕ

pub data Status : Type 0 where
  ok method_not_allowed forbidden bad_request unauthorized : Status

-- What a request brings: whether it is a POST, whether `VerifyIPAllowlist` and `VerifySignature` accept
-- it, whether its body is read, and the event that the body holds, if it is the JSON of one.
pub data Body : Type 0 where
  no_event : Body
  event : Job → Body

pub record Request : Type 0 where
  pub is_post : Bool
  pub ip_allowed : Bool
  pub body_read : Bool
  pub signature_valid : Bool
  pub body : Body

pub record Handler : Type 0 where
  pub seen : List Text
  pub jobs : List Job
  pub queue_depth : ℕ

-- A queue depth that is not positive is replaced by 1000.
unfoldable pub empty_handler : ℤ → Handler
empty_handler depth = record {
  seen = [];
  jobs = [];
  queue_depth = if is_nonpos depth then 1000 else to_ℕ depth;
}

-- There is no handler if the webhook is disabled or no worker is given.
unfoldable pub new_handler : (enabled has_worker : Bool) → ℤ → Option Handler
new_handler enabled has_worker depth =
    if not enabled then none else if not has_worker then none else some (empty_handler depth)

unfoldable pub has_seen : Text → List Text → Bool
has_seen id [] = false
has_seen id (x ∷ xs) = let rest = has_seen id xs in if eq_text id x then true else rest

-- The answer, and the handler that has seen the event.
unfoldable pub is_duplicate : Handler → Text → Handler × Bool
is_duplicate h id =
    if has_seen id h.seen then (h, true) else (record h { seen = id ∷ h.seen }, false)

-- The send that does not block.
unfoldable pub send : Handler → Job → Handler
send h job = if ltb (length h.jobs) h.queue_depth then record h { jobs = h.jobs ++ job ∷ [] } else h

unfoldable pub serve_http : Handler → Request → Handler × Status
serve_http h r =
    if not r.is_post
    then (h, method_not_allowed)
    else if not r.ip_allowed
    then (h, forbidden)
    else if not r.body_read
    then (h, bad_request)
    else if not r.signature_valid
    then (h, unauthorized)
    else elim r.body [
      | no_event ↦ (h, bad_request)
      | event job ↦
          let (h', duplicate) = is_duplicate h job.event_id in
          if duplicate then (h', ok) else (send h' job, ok)
    ]

-- A step of the handler: a request, or the worker taking the first job.
pub data Step : Type 0 where
  serve : Request → Step
  take_job : Step

-- The jobs that the worker has taken, the latest first.
pub record System : Type 0 where
  pub handler : Handler
  pub taken : List Job

unfoldable pub step : System → Step → System
step s (serve r) = record s { handler = (serve_http s.handler r).0 }
step s take_job = elim s.handler.jobs [
  | [] ↦ s
  | j ∷ js ↦ record { handler = record s.handler { jobs = js }; taken = j ∷ s.taken }
]

unfoldable pub run : System → List Step → System
run s [] = s
run s (x ∷ xs) = run (step s x) xs
