-- ===== src/Queue/Memory.antt =====
-- internal/queue/memory_queue.go: the queue in a buffered channel. The channel is the list of what it
-- buffers; each call runs alone, though `DequeueBatch` takes no mutex, and no receiver waits.
pub mod Laws
mod Tests
use linker_agent.Prelude.{
  ℕ, zero, suc, ◌+◌, ◌-◌, Bool, true, false, List, [], ◌∷◌, ◌++◌, Option, none, some, Text, length,
  ltb, if◌then◌else◌, u64, add64, sub64, ℤ, is_nonpos, to_ℕ,
}
use linker_agent.Queue.Types.{QueueItem, DropPolicy, is_reject_new, Error, Result, ok, err}

pub record MemoryQueue : Type 0 where
  pub stream : Text
  pub ch : List QueueItem
  pub capacity : ℕ
  pub closed : Bool
  pub write_offset : ℕ
  pub read_offset : ℕ
  pub dropped_count : ℕ
  pub enqueued_count : ℕ
  pub dequeued_count : ℕ
  pub committed_count : ℕ
  pub drop_policy : DropPolicy

pub record Counts : Type 0 where
  pub depth : ℕ
  pub dropped : ℕ
  pub enqueued : ℕ
  pub dequeued : ℕ
  pub committed : ℕ

-- The zero value of an item, which a receive from a closed channel gives.
abbrev pub zero_item : QueueItem
zero_item = record { offset = 0; bytes = []; enqueued_at = 0 }

unfoldable pub new_memory_queue : Text → ℤ → DropPolicy → MemoryQueue
new_memory_queue stream capacity policy = record {
  stream = stream;
  ch = [];
  capacity = if is_nonpos capacity then 1000 else to_ℕ capacity;
  closed = false;
  write_offset = 0;
  read_offset = 0;
  dropped_count = 0;
  enqueued_count = 0;
  dequeued_count = 0;
  committed_count = 0;
  drop_policy = policy;
}

-- A send that does not block: `none` if the buffer is full.
unfoldable pub try_send : MemoryQueue → QueueItem → Option MemoryQueue
try_send q item =
    if ltb (length q.ch) q.capacity
    then some (record q { ch = q.ch ++ (item ∷ []); enqueued_count = add64 q.enqueued_count 1 })
    else none

-- The receive by which `Enqueue` makes room.
unfoldable pub drop_head : MemoryQueue → List QueueItem → MemoryQueue
drop_head q [] = q
drop_head q (x ∷ xs) = record q {
  ch = xs;
  dropped_count = add64 q.dropped_count 1;
  read_offset = add64 q.read_offset 1;
}

-- The write offset after its decrement.
unfoldable pub give_back : MemoryQueue → MemoryQueue
give_back q = record q { write_offset = add64 q.write_offset (u64 - 1) }

-- The part of `Enqueue` that runs once room was made.
unfoldable pub send_again : MemoryQueue → QueueItem → MemoryQueue × Result (Unit {0})
send_again q item = elim (try_send q item) [
  | some q' ↦ (q', ok tt)
  | none ↦ (
    record (give_back q) { dropped_count = add64 q.dropped_count 1 },
    err Error.failed_after_drop,
  )
]

unfoldable pub enqueue : MemoryQueue → Text → MemoryQueue × Result (Unit {0})
enqueue q bytes =
    let next = record q { write_offset = add64 q.write_offset 1 } in
    let item = record zero_item { offset = sub64 next.write_offset 1; bytes = bytes } in
    if q.closed then (q, err Error.queue_closed) else elim (try_send next item) [
      | some q' ↦ (q', ok tt)
      | none ↦
          if is_reject_new q.drop_policy
          then (give_back next, err Error.queue_full)
          else send_again (drop_head next next.ch) item
    ]

-- The loop of `DequeueBatch`: the items, what stays buffered, and whether it made all its rounds. An
-- empty channel ends it early unless the channel is closed.
unfoldable pub receive :
    (rounds : ℕ) → Bool → List QueueItem → List QueueItem × List QueueItem × Bool
receive zero closed ch = ([], ch, true)
receive (suc n) closed (x ∷ ch) =
    let (items, rest, full) = receive n closed ch in (x ∷ items, rest, full)
receive (suc n) false [] = ([], [], false)
receive (suc n) true [] =
    let (items, rest, full) = receive n true [] in (zero_item ∷ items, rest, full)

-- A negative batch size makes no capacity for `make`, which panics; it is taken as no rounds.
unfoldable pub dequeue_batch : MemoryQueue → ℕ → MemoryQueue × List QueueItem
dequeue_batch q batch_size =
    let (items, rest, full) = receive batch_size q.closed q.ch in
    (
      if full
          then record q { ch = rest; dequeued_count = add64 q.dequeued_count (length items) }
          else record q { ch = rest },
      items,
    )

pub commit : MemoryQueue → ℕ → MemoryQueue
commit q offset = record q {
  committed_count = add64 q.committed_count 1;
  read_offset = add64 offset 1;
}

pub move_to_dlq : MemoryQueue → QueueItem → MemoryQueue × Result (Unit {0})
move_to_dlq q item = (q, err Error.dlq_unsupported)

pub metrics : MemoryQueue → Counts
metrics q = record {
  depth = length q.ch;
  dropped = q.dropped_count;
  enqueued = q.enqueued_count;
  dequeued = q.dequeued_count;
  committed = q.committed_count;
}

pub close : MemoryQueue → MemoryQueue
close q = record q { closed = true }
