-- ===== src/Main/Laws.antt =====
-- The batch mode of the pipeline: what Stripe's objects become is valid input.
use linker_agent.Prelude.{ℕ, ◌^◌, ◌<◌, List, Option}
use linker_agent.Matchers.{LinkEdge}
use linker_agent.Exporter.Options.{Exporter}
use linker_agent.Pipeline.{Stats, RunResult}
use linker_agent.Pipeline.Laws.{OnResult, RunIsSound}
use linker_agent.Pipeline.Valid.{IsNotInvalid}
use linker_agent.Stripe.{Subscription}
use linker_agent.Stripe.Laws.{ClearSubscription}

-- A time from 1970 to some billions of years later.
abbrev pub IsPlausible : ℕ → Type 0
IsPlausible t = (0 < t) × (t < 2 ^ 62)

-- A model whose identifiers are synthetic, of a plausible time.
abbrev pub GoodSubscription : Subscription → Type 0
GoodSubscription s = ClearSubscription s × IsPlausible s.created_at

-- What a run of the pipeline on Stripe's objects may end in.
abbrev pub IsFine : {F : Type 0} → Option Exporter × RunResult (List (LinkEdge F) × Stats) → Type 0
IsFine (x, r) = OnResult RunIsSound r × IsNotInvalid r
