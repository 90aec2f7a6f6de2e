-- ===== src/Lib.antt =====
-- The data path and the control path of the Connektn linker agent.
--
-- The agent takes events from webhooks and pollers, keeps them in durable queues, links usage to billing
-- by synthetic identifiers, exports the links, and is controlled by signed commands that stop it or
-- switch its privacy mode. This library models the parts below and leaves the transport (HTTP, goroutines,
-- files, logging) out.
--
-- Prelude: the names that all modules share; lists measured by native numbers, 64-bit words, byte
--   strings, association lists for Go's maps.
-- Queue: internal/queue.
--   Queue.Key: queue.go, `formatKey` and `parseOffsetFromKey`, with `fmt.Sscanf` as far as they use it.
--   Queue.Types: queue.go, the configuration, the errors and the items; the interface of BadgerDB (a
--     record of operations with their documented laws: a transaction is all or nothing, an iterator
--     visits the keys of a prefix in order).
--   Queue.Durable: badger_queue.go. A queue is its configuration, its database and its counters, which
--     are words of 64 bits; an operation gives the new queue and its result. A failing transaction is
--     `none`. The concurrent use of a queue is not modelled.
--   Queue.Dlq: dlq.go and `MoveToDLQ`; the JSON of an entry is a parameter.
--     `PurgeOlderThan` runs on fuel, since it need not end.
--   Queue.Memory: memory_queue.go; the channel is the list of its items with a capacity.
-- Agent: internal/agent/agent.go and internal/state/state.go. The state file is a value that writing and
--   renaming replace or leave; whether the directory of the file can be made is an argument.
-- Control: internal/control/control.go. The MAC, base64 and JSON are parameters; the map of nonces and
--   the router are association lists. Each reading of the clock is an argument of its own.
--   Control.Clock: times in nanoseconds and `time.Duration` with its saturation and overflow.
--   Control.Handlers: internal/control/handlers.go on the agent of Agent, one command at a time, so that
--     the flag of a shutdown in progress is never seen set by another command.
-- Exporter: internal/exporter. queue.go is the bounded queue in front of the worker of a stream.
--   Exporter.Options: exporter.go, `New`, `ValidatePassthroughExportOptions` and `Enqueue` on the streams.
--   Exporter.Worker: `worker` and `Shutdown` as steps on one stream, each choice of the `select` a step;
--     a flush is its batch here.
--   Exporter.Flush: what a flush does, with the requests, the pauses and the lines of files as a list
--     each; the loop over the attempts has one round more than there are retries. What the client, the
--     environment and the file system answer is a record of functions.
-- Crypto: internal/crypto. HMAC and SHA-256 are functions on byte strings; hexadecimal, identifiers, proofs
--   and the two mappers are written out.
-- Matchers: internal/matchers. Times are words of 64 bits; float64 is a record of its operations.
--   Matchers.Deterministic, Matchers.Temporal, Matchers.SkuOverlap: the matchers, a file each.
--   Matchers.Ensemble: ensemble.go. A Go map is an association list in the order of insertion, and the
--     orders in which its loops go through maps are arguments.
--   Matchers.Privacy: which identifiers the matchers pass on.
-- Pipeline: internal/pipeline/pipeline.go, from the inputs through the matchers and the ensemble into the
--   exporter of Exporter.Options.
-- Heartbeat: internal/heartbeat/heartbeat.go, `SignRequest`, with the requests that it signs.
--   Heartbeat.Sender: the payload of heartbeat.go and internal/agent/heartbeat_sender.go.
-- Polling: internal/polling. A cycle runs on fuel, since a server may hand out commands for ever; one poll
--   more than the server has commands is enough. The n-th reading of the clock, nonce and answer are
--   functions of n.
-- Webhook: internal/ingest/stripewebhook/handler.go. A request carries its verdicts and the
--   event of its body; a step is a request or the worker taking a job.
--   Webhook.Worker: worker.go, the attempts at a job; the outcomes of the Stripe client, the sanitizer and
--     the pipeline are arguments, and so is the cancellation in a backoff.
--   Webhook.Events: worker.go, the processing of an invoice or a subscription by the sanitizer of Stripe and
--     the run of Pipeline.
--   Webhook.Verify: verify.go, the header with its timestamp and signature, and the ranges of addresses; HMAC
--     and the parsers of package net are arguments.
-- Stripe: internal/connectors/stripe, sanitize.go and to_lite.go, with the records of internal/models. A
--   pointer that may be nil is an option, and a nil that is read is an outcome of its own.
--   Stripe.Limiter: stripe.go, the token bucket; the tokens of a duration are a function, since they go
--     through floating point.
--   Stripe.Client: stripe.go, the lists over what the iterators of the Stripe library hand out.
-- Config: internal/config/config.go. The YAML parser, the environment and the parser of address ranges are
--   arguments. Prelude.Trim is `strings.TrimSpace`.
-- AgentId: internal/agentid/agentid.go. The file is its content, and a write that fails may leave anything.
-- Main: main.go, the two batch modes from the lists of Stripe to the exporter and the pipeline.
--   Main.Server: main.go, the parts that the webhook server makes of its configuration, in their order: the
--     agent of Agent, the exporter of Exporter.Options, the handler of Webhook, the sender of
--     Heartbeat.Sender and the poller of Polling. Whether the logger and the directories can be made are
--     arguments.
-- Loops are structural recursion on the list or on the number of rounds that the code makes.
--
-- Not modelled: the HTTP servers, flags and signals, the counters of metrics, and the command line tools under
-- cmd, which send requests.
pub mod Prelude
pub mod Queue
pub mod Agent
pub mod Control
pub mod Exporter
pub mod Crypto
pub mod Matchers
pub mod Pipeline
pub mod Webhook
pub mod Heartbeat
pub mod Polling
pub mod Stripe
pub mod Config
pub mod AgentId
pub mod Main
