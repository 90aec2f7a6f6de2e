-- ===== src/Webhook/Worker.antt =====
-- internal/ingest/stripewebhook/worker.go: the attempts at a job.
pub mod Laws
use linker_agent.Prelude.{
  ℕ, zero, suc, ◌<◌, Bool, true, false, not, ◌&&◌, List, [], ◌∷◌, ◌++◌, Option, none, some, Text,
  codes, eq_text, has_prefix, ltb, leb, if◌then◌else◌, ℤ, to_ℕ,
}
use linker_agent.Webhook.{Job}

-- An error: Stripe's with its code and HTTP status, an expired deadline, an error that wraps another
-- one under a text, or any other.
pub data Error : Type 0 where
  stripe : Text → ℕ → Error
  deadline_exceeded : Error
  wrapped : Text → Error → Error
  other : Text → Error
  canceled : Error
  exhausted : Error → Error
  never_attempted : Error

-- The outcomes of the calls of one attempt, an error or none: the Stripe client, the sanitizer and the
-- pipeline.
pub record Attempt : Type 0 where
  pub fetch : Option Error
  pub sanitize : Option Error
  pub pipeline : Option Error

abbrev pub supported_event_types : List Text
supported_event_types =
    codes "invoice.created"
    ∷ codes "invoice.finalized"
    ∷ codes "invoice.payment_succeeded"
    ∷ codes "invoice.payment_failed"
    ∷ codes "customer.subscription.created"
    ∷ codes "customer.subscription.updated"
    ∷ codes "customer.subscription.deleted"
    ∷ codes "charge.succeeded"
    ∷ codes "charge.refunded"
    ∷ []

unfoldable pub is_one_of : Text → List Text → Bool
is_one_of t [] = false
is_one_of t (x ∷ xs) = let rest = is_one_of t xs in if eq_text t x then true else rest

unfoldable pub is_supported : Text → Bool
is_supported kind = is_one_of kind supported_event_types

-- The type of the error itself is tested, not that of an error that it wraps.
unfoldable pub is_retryable_error : Error → Bool
is_retryable_error (stripe code status) =
    if eq_text code (codes "rate_limit") then true else leb 500 status
is_retryable_error deadline_exceeded = true
is_retryable_error (wrapped t e) = false
is_retryable_error (other t) = false
is_retryable_error canceled = false
is_retryable_error (exhausted e) = false
is_retryable_error never_attempted = false

-- The error after the last attempt.
unfoldable pub give_up : Option Error → Error
give_up none = never_attempted
give_up (some e) = exhausted e

-- An invoice or a subscription: its three calls in order, the first error wrapped.
unfoldable pub process_object : (what : Text) → Attempt → Option Error
process_object what a = elim a.fetch [
  | some e ↦ some (wrapped (codes "failed to fetch " ++ what) e)
  | none ↦ elim a.sanitize [
    | some e ↦ some (wrapped (codes "failed to sanitize " ++ what) e)
    | none ↦ elim a.pipeline [
      | some e ↦ some (wrapped (codes "pipeline failed for " ++ what) e)
      | none ↦ none
    ]
  ]
]

unfoldable pub process_once : Job → Attempt → Option Error
process_once job a =
    if has_prefix (codes "invoice.") job.kind
    then process_object (codes "invoice") a
    else if has_prefix (codes "customer.subscription.") job.kind
    then process_object (codes "subscription") a
    else if has_prefix (codes "charge.") job.kind
    then none
    else some (other (codes "unsupported event type"))

module _ (job : Job) (calls : ℕ → Attempt) (stops : ℕ → Bool) where
  -- The loop of `Process` with the rounds that are left: the number of attempts made, and the error.
  -- `stops n` says that the context is canceled in the backoff before the attempt.
  unfoldable pub attempts : (rounds : ℕ) → ℕ → Option Error → ℕ × Option Error
  attempts zero n last = (n, some (give_up last))
  attempts (suc rounds) n last =
      let again = attempts rounds (suc n) (process_once job (calls n)) in
      if ltb 0 n && stops n then (n, some canceled) else elim (process_once job (calls n)) [
        | none ↦ (suc n, none)
        | some e ↦ if not (is_retryable_error e) then (suc n, some e) else again
      ]

  unfoldable pub process : (max_attempts : ℤ) → ℕ × Option Error
  process max_attempts =
      if not (is_supported job.kind) then (0, none) else attempts (to_ℕ max_attempts) 0 none

-- Whether `NewWorker` gives a worker.
unfoldable pub new_worker : (api_key tenant_salt : Text) → (has_exporter : Bool) → Bool
new_worker api_key tenant_salt has_exporter =
    not (eq_text api_key []) && not (eq_text tenant_salt []) && has_exporter
