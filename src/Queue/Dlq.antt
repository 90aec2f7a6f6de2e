-- ===== src/Queue/Dlq.antt =====
-- internal/queue/dlq.go, and `MoveToDLQ` of internal/queue/badger_queue.go: the dead letter queue.
pub mod Laws
mod Tests
use linker_agent.Prelude.{
  ℕ, zero, suc, ◌+◌, ◌-◌, ◌≡◌, Bool, true, false, List, [], ◌∷◌, Option, none, some, Text, codes,
  eq_text, length, ltb, ◌==◌, if◌then◌else◌, ℤ, pos, is_nonpos,
}
use linker_agent.Queue.Types.{QueueItem, Error, Result, ok, err, Badger}
use linker_agent.Queue.Durable.{BadgerQueue, enqueue, commit, dequeue_batch, depth, last_offset}

pub record DlqEntry : Type 0 where
  pub original_event : Text
  pub stream : Text
  pub reason : Text
  pub error_message : Text
  pub first_attempt_at : ℕ
  pub last_attempt_at : ℕ
  pub attempt_count : ℕ
  pub http_status_code : ℕ

-- The JSON of an entry. Bytes are read as an entry if they are the JSON of any object.
pub record Codec : Type 0 where
  pub marshal : DlqEntry → Text
  pub unmarshal : Text → Option DlqEntry

abbrev pub stream_dlq : Text
stream_dlq = codes "dlq"

pub data DlqError : Type 0 where
  list_failed purge_dequeue_failed purge_commit_failed delete_old_failed : DlqError
  no_entry offset_mismatch bad_entry reprocess_dequeue_failed reprocess_commit_failed : DlqError

pub data Outcome {ℓ} (A : Type ℓ) : Type ℓ where
  done : A → Outcome A
  failed : DlqError → Outcome A

pub record Stats : Type 0 where
  pub total_entries : ℕ
  pub oldest_entry_age : ℕ
  pub entries_by_reason : List (Text × ℕ)
  pub entries_by_stream : List (Text × ℕ)

-- `m[key]++`
pub count_up : Text → List (Text × ℕ) → List (Text × ℕ)
count_up key [] = (key, 1) ∷ []
count_up key ((k, n) ∷ m) = if eq_text k key then (k, n + 1) ∷ m else (k, n) ∷ count_up key m

-- The loop of `GetStats`, from the earliest time so far.
pub gather : List DlqEntry → ℕ → Stats → ℕ × Stats
gather [] oldest s = (oldest, s)
gather (e ∷ es) oldest s =
    gather es (if ltb e.first_attempt_at oldest then e.first_attempt_at else oldest) (record s {
      entries_by_reason = count_up e.reason s.entries_by_reason;
      entries_by_stream = count_up e.stream s.entries_by_stream;
    })

module _ (b : Badger) (c : Codec) where
  open b use {Db}

  -- `MoveToDLQ`: the queue, its dead letter queue and the answer. A failed commit is only logged.
  unfoldable pub move_to_dlq :
      BadgerQueue Db
      → Option (BadgerQueue Db)
      → QueueItem
      → (reason message : Text) → (now : ℕ)
      → BadgerQueue Db × Option (BadgerQueue Db) × Result (Unit {0})
  move_to_dlq q none item reason message now = (q, none, err Error.dlq_not_configured)
  move_to_dlq q (some dlq) item reason message now =
      let entry : DlqEntry = record {
        original_event = item.bytes;
        stream = q.cfg.stream;
        reason = reason;
        error_message = message;
        first_attempt_at = item.enqueued_at;
        last_attempt_at = now;
        attempt_count = 1;
        http_status_code = 0;
      } in
      let (dlq', r) = enqueue b dlq (c.marshal entry) now in
      if eq_text q.cfg.stream stream_dlq then (q, some dlq, err Error.dlq_item_to_dlq) else elim r [
        | err e ↦ (q, some dlq', err (Error.dlq_enqueue_failed e))
        | ok _ ↦ ((commit b q item.offset).0, some dlq', ok tt)
      ]

  -- The entries among items; what cannot be parsed is skipped.
  unfoldable pub parse_entries : List QueueItem → List DlqEntry
  parse_entries [] = []
  parse_entries (x ∷ xs) = elim (c.unmarshal x.bytes) [
    | none ↦ parse_entries xs
    | some e ↦ e ∷ parse_entries xs
  ]

  unfoldable pub list_entries : BadgerQueue Db → ℤ → ℕ → BadgerQueue Db × Outcome (List DlqEntry)
  list_entries m limit now =
      let (m', r) = dequeue_batch b m (if is_nonpos limit then pos 100 else limit) now in
      elim r [ err e ↦ (m', failed list_failed) | ok items ↦ (m', done (parse_entries items)) ]

  unfoldable pub count : BadgerQueue Db → ℤ
  count m = depth b m

  unfoldable pub purge : BadgerQueue Db → ℕ → BadgerQueue Db × Outcome (Unit {0})
  purge m now =
      let (m', r) = dequeue_batch b m m.cfg.max_events now in
      elim r [
        | err e ↦ (m', failed purge_dequeue_failed)
        | ok items ↦ elim (last_offset items) [
          | none ↦ (m', done tt)
          | some last ↦
              let (m'', s) = commit b m' last in
              elim s [ err e ↦ (m'', failed purge_commit_failed) | ok _ ↦ (m'', done tt) ]
        ]
      ]

  -- The inner loop of `PurgeOlderThan`: the items of a batch in order, each old entry committed. The
  -- number is that of the entries purged so far. An entry is old if it was first attempted before
  -- `now - age`.
  unfoldable pub purge_items :
      List QueueItem
      → BadgerQueue Db
      → (age now purged : ℕ) → BadgerQueue Db × ℕ × Outcome (Unit {0})
  purge_items [] m age now purged = (m, purged, done tt)
  purge_items (x ∷ xs) m age now purged =
      let skip = purge_items xs m age now purged in
      let next = λ (m' : BadgerQueue Db). purge_items xs m' age now (purged + 1) in
      elim (c.unmarshal x.bytes) [
        | none ↦ skip
        | some e ↦
            let (m', r) = commit b m x.offset in
            if ltb (e.first_attempt_at + age) now
            then elim r [ err _ ↦ (m', purged, failed delete_old_failed) | ok _ ↦ next m' ]
            else skip
      ]

  -- `PurgeOlderThan` on fuel for its batches of 100, `none` when that runs out.
  unfoldable pub purge_older_than :
      (fuel : ℕ)
      → BadgerQueue Db
      → (age now purged : ℕ) → Option (BadgerQueue Db × ℕ × Outcome (Unit {0}))
  purge_older_than zero m age now purged = none
  purge_older_than (suc fuel) m age now purged =
      let (m', r) = dequeue_batch b m (pos 100) now in
      elim r [
        | err e ↦ some (m', purged, failed purge_dequeue_failed)
        | ok items ↦
            let (m'', purged', s) = purge_items items m' age now purged in
            let again = purge_older_than fuel m'' age now purged' in
            if length items == 0 then some (m', purged, done tt) else elim s [
              | failed e ↦ some (m'', purged', failed e)
              | done _ ↦ if ltb (length items) 100 then some (m'', purged', done tt) else again
            ]
      ]

  -- `Reprocess`: the event and the stream that it belongs to.
  unfoldable pub reprocess :
      BadgerQueue Db → (offset now : ℕ) → BadgerQueue Db × Outcome (Text × Text)
  reprocess m offset now =
      let (m', r) = dequeue_batch b m (pos 1) now in
      elim r [
        | err e ↦ (m', failed reprocess_dequeue_failed)
        | ok [] ↦ (m', failed no_entry)
        | ok (x ∷ xs) ↦
            if x.offset == offset
            then elim (c.unmarshal x.bytes) [
              | none ↦ (m', failed bad_entry)
              | some e ↦
                  let (m'', s) = commit b m' offset in
                  elim s [
                    | err _ ↦ (m'', failed reprocess_commit_failed)
                    | ok _ ↦ (m'', done (e.original_event, e.stream))
                  ]
            ]
            else (m', failed offset_mismatch)
      ]

  unfoldable pub get_stats : BadgerQueue Db → ℕ → BadgerQueue Db × Outcome Stats
  get_stats m now =
      let (m', r) = list_entries m m.cfg.max_events now in
      let start : Stats = record {
        total_entries = 0;
        oldest_entry_age = 0;
        entries_by_reason = [];
        entries_by_stream = [];
      } in
      elim r [
        | failed e ↦ (m', failed e)
        | done [] ↦ (m', done start)
        | done (e ∷ es) ↦
            let (oldest, s) = gather (e ∷ es) now start in
            (
              m',
              done (record s { total_entries = length (e ∷ es); oldest_entry_age = now - oldest }),
            )
      ]
