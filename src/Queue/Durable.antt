-- ===== src/Queue/Durable.antt =====
-- internal/queue/badger_queue.go: the queue on disk. Calls follow one another, each with the time
-- at which it reads the clock; logging and the garbage collection of the value log are left out.
pub mod Log
pub mod Writes
pub mod Enqueue
pub mod Batch
pub mod Recovery
use linker_agent.Prelude.{
  ℕ, zero, suc, ◌+◌, ◌-◌, ◌*◌, ◌%◌, Bool, true, false, List, [], ◌∷◌, ◌++◌, Option, none, some,
  Text, eq_text, length, ltb, leb, ◌==◌, if◌then◌else◌, u64, add64, sub64, ℤ, pos, to_i64, leb_ℤ,
  is_nonpos, to_ℕ,
}
use linker_agent.Queue.Key.{format_key, parse_offset_from_key}
use linker_agent.Queue.Types.{
  QueueItem, DropPolicy, is_reject_new, Config, Error, Result, ok, err, Value, item, raw, Write,
  put, delete, Badger,
}

-- The reference to the dead letter queue is an argument of `move_to_dlq`.
pub record BadgerQueue (Db : Type 0) : Type 0 where
  pub cfg : Config
  pub db : Db
  pub write_offset : ℕ
  pub read_offset : ℕ
  pub dropped_count : ℕ
  pub enqueued_count : ℕ
  pub dequeued_count : ℕ
  pub committed_count : ℕ
  pub closed : Bool

pub record Metrics : Type 0 where
  pub depth : ℤ
  pub dlq_size : ℕ
  pub dropped : ℕ
  pub enqueued : ℕ
  pub dequeued : ℕ
  pub committed : ℕ
  pub bytes_used : ℤ

-- The item that a stored value stands for; bytes that are no stored item are taken whole.
unfoldable pub to_item : ℕ → Value → ℕ → QueueItem
to_item offset (item bytes at) now = record { offset = offset; bytes = bytes; enqueued_at = at }
to_item offset (raw bytes) now = record { offset = offset; bytes = bytes; enqueued_at = now }

-- `items[len(items)-1].Offset`, `none` for no items.
unfoldable pub last_offset : List QueueItem → Option ℕ
last_offset [] = none
last_offset (x ∷ xs) = elim (last_offset xs) [ none ↦ some x.offset | some o ↦ some o ]

-- The deletions of `n` keys from an offset on.
unfoldable pub deletes : Text → ℕ → ℕ → List Write
deletes stream o zero = []
deletes stream o (suc n) = delete (format_key stream o) ∷ deletes stream (o + 1) n

unfoldable pub default_config : Config → Config
default_config cfg = record cfg {
  max_bytes = if is_nonpos cfg.max_bytes then pos (1024 * 1024 * 1024) else cfg.max_bytes;
  max_events = if is_nonpos cfg.max_events then pos 100000 else cfg.max_events;
  drop_policy = elim cfg.drop_policy [ DropPolicy.unspecified ↦ DropPolicy.drop_oldest | p ↦ p ];
}

-- The least and the greatest offset among the keys, and their number.
pub record Range : Type 0 where
  pub least : ℕ
  pub greatest : ℕ
  pub count : ℕ

unfoldable pub widen : Option ℕ → Range → Range
widen none r = r
widen (some o) r = record {
  least = if ltb o r.least then o else r.least;
  greatest = if ltb r.greatest o then o else r.greatest;
  count = r.count + 1;
}

unfoldable pub range_of : List Text → Range → Range
range_of [] r = r
range_of (k ∷ ks) r = range_of ks (widen (parse_offset_from_key k) r)

abbrev pub no_keys : Range
no_keys = record { least = u64 - 1; greatest = 0; count = 0 }

-- An item is added to those of the later rounds, unless a value cannot be read.
unfoldable pub take_value : ℕ → ℕ → Option Value → Result (List QueueItem) → Result (List QueueItem)
take_value offset now none rest = err Error.dequeue_failed
take_value offset now (some v) (ok items) = ok (to_item offset v now ∷ items)
take_value offset now (some v) (err e) = err e

unfoldable pub fresh_queue : {Db : Type 0} → Config → Db → BadgerQueue Db
fresh_queue cfg db = record {
  cfg = cfg;
  db = db;
  write_offset = 0;
  read_offset = 0;
  dropped_count = 0;
  enqueued_count = 0;
  dequeued_count = 0;
  committed_count = 0;
  closed = false;
}

-- The counters after recovery.
unfoldable pub resume : {Db : Type 0} → BadgerQueue Db → Range → BadgerQueue Db
resume q r =
    if r.count == 0
    then record q { read_offset = 0; write_offset = 0 }
    else record q { read_offset = r.least; write_offset = add64 r.greatest 1 }

module _ (b : Badger) where
  open b use {Db}

  -- A transaction of the queue's database fails once the queue is closed.
  unfoldable pub update_db : BadgerQueue Db → List Write → Option Db
  update_db q ws = if q.closed then none else b.update q.db ws

  unfoldable pub depth : BadgerQueue Db → ℤ
  depth q =
      if leb q.write_offset q.read_offset
      then pos 0
      else to_i64 (sub64 q.write_offset q.read_offset)

  unfoldable pub approximate_bytes_used : BadgerQueue Db → ℤ
  approximate_bytes_used q =
      if leb q.write_offset q.read_offset
      then pos 0
      else to_i64 (sub64 q.write_offset q.read_offset * 500 % u64)

  unfoldable pub check_capacity : BadgerQueue Db → Option Error
  unfolding depth approximate_bytes_used
  check_capacity q =
      if leb_ℤ q.cfg.max_events (depth q)
      then some Error.queue_full
      else if leb_ℤ q.cfg.max_bytes (approximate_bytes_used q)
      then some Error.queue_full
      else none

  unfoldable pub drop_oldest : BadgerQueue Db → BadgerQueue Db × Result (Unit {0})
  drop_oldest q =
      if leb q.write_offset q.read_offset
      then (q, ok tt)
      else elim (update_db q (delete (format_key q.cfg.stream q.read_offset) ∷ [])) [
        | none ↦ (q, err Error.delete_failed)
        | some db' ↦ (
          record q {
            db = db';
            read_offset = add64 q.read_offset 1;
            dropped_count = add64 q.dropped_count 1;
          },
          ok tt,
        )
      ]

  -- The write of `Enqueue`, at the offset that it takes from the counter.
  unfoldable pub write_item : BadgerQueue Db → Text → ℕ → BadgerQueue Db × Result (Unit {0})
  write_item q bytes now =
      let next = add64 q.write_offset 1 in
      elim (update_db q (put (format_key q.cfg.stream (sub64 next 1)) (item bytes now) ∷ [])) [
        | none ↦ (record q { write_offset = add64 next (u64 - 1) }, err Error.write_failed)
        | some db' ↦ (
          record q { db = db'; write_offset = next; enqueued_count = add64 q.enqueued_count 1 },
          ok tt,
        )
      ]

  -- The write of `Enqueue` after `dropOldest`, whose failure it wraps.
  unfoldable pub write_after_drop :
      BadgerQueue Db × Result (Unit {0}) → Text → ℕ → BadgerQueue Db × Result (Unit {0})
  write_after_drop (q, ok _) bytes now = write_item q bytes now
  write_after_drop (q, err e) bytes now = (q, err (Error.drop_failed e))

  unfoldable pub enqueue : BadgerQueue Db → Text → ℕ → BadgerQueue Db × Result (Unit {0})
  enqueue q bytes now = if q.closed then (q, err Error.queue_closed) else elim (check_capacity q) [
    | none ↦ write_item q bytes now
    | some e ↦
        if is_reject_new q.cfg.drop_policy
        then (q, err e)
        else write_after_drop (drop_oldest q) bytes now
  ]

  -- The loop of `DequeueBatch`: `rounds` offsets are left, and `room` items may still be taken.
  unfoldable pub collect :
      Db → Text → (rounds : ℕ) → (offset room now : ℕ) → Result (List QueueItem)
  collect db stream zero offset room now = ok []
  collect db stream (suc rounds) offset zero now = ok []
  collect db stream (suc rounds) offset (suc room) now =
      let skip = collect db stream rounds (offset + 1) (suc room) now in
      let rest = collect db stream rounds (offset + 1) room now in
      elim (b.seek db (format_key stream offset)) [
        | none ↦ skip
        | some (key, value) ↦
            if eq_text key (format_key stream offset)
            then take_value offset now value rest
            else skip
      ]

  -- A batch size below 1 gives no items; the queue's items stay where they are.
  unfoldable pub dequeue_batch : BadgerQueue Db → ℤ → ℕ → BadgerQueue Db × Result (List QueueItem)
  dequeue_batch q batch_size now =
      if is_nonpos batch_size
      then (q, ok [])
      else if q.closed
      then (q, err Error.dequeue_failed)
      else elim (collect q.db q.cfg.stream (q.write_offset - q.read_offset) q.read_offset
          (to_ℕ batch_size) now) [
            | err e ↦ (q, err Error.dequeue_failed)
            | ok items ↦
                (record q { dequeued_count = add64 q.dequeued_count (length items) }, ok items)
          ]

  -- At the greatest offset `o <= offset` never fails, and the transaction grows until it is
  -- refused for its size.
  unfoldable pub commit : BadgerQueue Db → ℕ → BadgerQueue Db × Result (Unit {0})
  commit q offset =
      if ltb offset q.read_offset
      then (q, err Error.invalid_offset)
      else if offset == u64 - 1
      then (q, err Error.commit_failed)
      else elim (update_db q (deletes q.cfg.stream q.read_offset (offset + 1 - q.read_offset))) [
        | none ↦ (q, err Error.commit_failed)
        | some db' ↦ (
          record q {
            db = db';
            read_offset = add64 offset 1;
            committed_count = add64 q.committed_count (add64 (sub64 offset q.read_offset) 1);
          },
          ok tt,
        )
      ]

  unfoldable pub metrics : BadgerQueue Db → Metrics
  metrics q = record {
    depth = depth q;
    dlq_size = 0;
    dropped = q.dropped_count;
    enqueued = q.enqueued_count;
    dequeued = q.dequeued_count;
    committed = q.committed_count;
    bytes_used = approximate_bytes_used q;
  }

  unfoldable pub close : BadgerQueue Db → BadgerQueue Db
  close q = record q { closed = true }

  -- The offsets of the stream's keys on disk give the two counters back.
  unfoldable pub recover : BadgerQueue Db → Option (BadgerQueue Db)
  recover q = elim (b.scan q.db (q.cfg.stream ++ (b':' ∷ []))) [
    | none ↦ none
    | some keys ↦ some (resume q (range_of keys no_keys))
  ]

  unfoldable pub new_badger_queue : Config → Result (BadgerQueue Db)
  new_badger_queue cfg =
      if eq_text cfg.wal_path []
      then err Error.wal_path_required
      else elim (b.open_at cfg.wal_path) [
        | none ↦ err Error.open_failed
        | some db ↦ elim (recover (fresh_queue (default_config cfg) db)) [
          | none ↦ err Error.recovery_failed
          | some q ↦ ok q
        ]
      ]
