-- ===== src/Exporter.antt =====
-- internal/exporter/queue.go: the bounded queue between the producers and the export worker.
pub mod Laws
pub mod Options
pub mod Flush
pub mod Worker
mod Tests
use linker_agent.Prelude.{
  ℕ, Bool, true, false, List, [], ◌∷◌, ◌++◌, length, ltb, if◌then◌else◌, add64, Text,
}

-- The channel is the list of its items, the oldest first, with its capacity.
pub record ExportQueue : Type 0 where
  pub ch : List Text
  pub capacity : ℕ
  pub closed : Bool
  pub dropped_count : ℕ
  pub enqueued_count : ℕ

unfoldable pub new_queue : ℕ → ExportQueue
new_queue capacity = record {
  ch = [];
  capacity = capacity;
  closed = false;
  dropped_count = 0;
  enqueued_count = 0;
}

-- The receive that makes room, if there is something to receive.
unfoldable pub drop_first : ExportQueue → List Text → ExportQueue
drop_first q [] = q
drop_first q (x ∷ xs) = record q { ch = xs; dropped_count = add64 q.dropped_count 1 }

unfoldable pub send_or_drop : ExportQueue → Text → ExportQueue
send_or_drop q bytes =
    if ltb (length q.ch) q.capacity
    then record q { ch = q.ch ++ bytes ∷ []; enqueued_count = add64 q.enqueued_count 1 }
    else record q { dropped_count = add64 q.dropped_count 1 }

unfoldable pub push : ExportQueue → Text → ExportQueue
push q bytes =
    if q.closed
    then record q { dropped_count = add64 q.dropped_count 1 }
    else if ltb (length q.ch) q.capacity
    then record q { ch = q.ch ++ bytes ∷ []; enqueued_count = add64 q.enqueued_count 1 }
    else send_or_drop (drop_first q q.ch) bytes

unfoldable pub shut : ExportQueue → ExportQueue
shut q = record q { closed = true }

-- Any number of items, one after the other.
unfoldable pub push_all : ExportQueue → List Text → ExportQueue
push_all q [] = q
push_all q (x ∷ xs) = push_all (push q x) xs
