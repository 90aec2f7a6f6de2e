-- ===== src/Webhook/Worker/Laws.antt =====
-- What is tried again: nothing.
use linker_agent.Prelude.{
  ℕ, suc, ◌≡◌, inl, inr, Bool, true, false, some, Option-cases, Text, codes, pos, arith,
}
use linker_agent.Webhook.{Job}
use linker_agent.Webhook.Worker.{
  Error, Attempt, is_supported, is_retryable_error, process_object, process_once, attempts, process,
}

process_object_final :
    (what : Text) (a : Attempt) (e : Error)
    → process_object what a ≡ some e
    → is_retryable_error e ≡ false
unfolding process_object is_retryable_error
process_object_final what a e h = ground arith

process_once_final :
    (job : Job) (a : Attempt) (e : Error)
    → process_once job a ≡ some e
    → is_retryable_error e ≡ false
unfolding process_once is_retryable_error
process_once_final job a e h = ground (
  arith,
  process_object_final (codes "invoice") a e,
  process_object_final (codes "subscription") a e,
)

-- A job of a supported type is attempted exactly once, whatever the errors are and however many
-- attempts, at least one, are configured: its result is the first attempt's. No error that an attempt
-- at the job ends with is taken as retryable.
pub process_lem :
    (job : Job) (calls : ℕ → Attempt) (stops : ℕ → Bool) (more : ℕ)
    → is_supported job.kind ≡ true
    → (process job calls stops (pos (suc more)) ≡ (1, process_once job (calls 0)))
      × ((a : Attempt) (e : Error) → process_once job a ≡ some e → is_retryable_error e ≡ false)
unfolding process attempts
process_lem job calls stops more s = (
  elim (Option-cases (process_once job (calls 0))) [
    | inl good ↦ ground (arith, s, good)
    | inr (e, bad) ↦ ground (arith, s, bad, process_once_final job (calls 0) e bad)
  ],
  process_once_final job,
)
