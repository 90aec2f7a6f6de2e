-- ===== src/Queue/Memory/Tests.antt =====
-- The in-memory queue at concrete inputs, and the theorems about it applied there.
use linker_agent.Prelude.{◌≡◌, refl, false, [], ◌∷◌, codes, pos, arith}
use linker_agent.Queue.Types.{DropPolicy}
use linker_agent.Queue.Memory.{MemoryQueue, new_memory_queue, enqueue}
use linker_agent.Queue.Memory.Laws.{item_at, IsValid, Enqueued, enqueue_fifo}

-- A full queue of two items.
abbrev full : MemoryQueue
full = record {
  stream = codes "usage";
  ch = item_at 3 (codes "a") ∷ item_at 4 (codes "b") ∷ [];
  capacity = 2;
  closed = false;
  write_offset = 5;
  read_offset = 3;
  dropped_count = 0;
  enqueued_count = 5;
  dequeued_count = 3;
  committed_count = 1;
  drop_policy = DropPolicy.drop_oldest;
}

full-IsValid : IsValid full
full-IsValid = omega arith

default_capacity : (new_memory_queue (codes "usage") (pos 0) DropPolicy.reject_new).capacity ≡ 1000
unfolding new_memory_queue
default_capacity = refl

enqueue_fifo_example : Enqueued full (codes "c") (enqueue full (codes "c"))
enqueue_fifo_example = enqueue_fifo full (codes "c") full-IsValid refl (omega arith)
