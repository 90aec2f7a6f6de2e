-- ===== src/Queue.antt =====
-- internal/queue: the durable queue, its in-memory variant and the dead letter queue.
pub mod Key
pub mod Types
pub mod Durable
pub mod Sample
pub mod Memory
pub mod Dlq
mod Tests
