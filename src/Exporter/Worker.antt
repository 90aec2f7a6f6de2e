-- ===== src/Exporter/Worker.antt =====
-- internal/exporter/exporter.go: the worker of a stream and `Shutdown`, as steps on the stream's queue.
pub mod Laws
pub mod Shutdown
pub mod Batches
use linker_agent.Prelude.{
  ℕ, Bool, true, false, List, [], ◌∷◌, ◌++◌, ◌≡◌, Text, if◌then◌else◌, length, leb, ltb,
}
use linker_agent.Exporter.{ExportQueue, push, shut}

-- A worker: its queue, the batch that it gathers, the batches that it flushed, whether the exporter's
-- context is canceled, and whether the worker has returned.
pub record Worker : Type 0 where
  pub queue : ExportQueue
  pub batch : List Text
  pub flushed : List (List Text)
  pub canceled : Bool
  pub stopped : Bool

-- A flush of the batch, unless it is empty.
unfoldable pub flush : Worker → Worker
flush w = elim w.batch [
  | [] ↦ w
  | x ∷ xs ↦ record w { flushed = w.flushed ++ (x ∷ xs) ∷ []; batch = [] }
]

unfoldable pub halt : Worker → Worker
halt w = record w { stopped = true }

-- An item is received: the rest of the queue, and the item.
unfoldable pub receive : (batch_size : ℕ) → Worker → Text → List Text → Worker
receive batch_size w x xs =
    let w' : Worker = record w { queue = record w.queue { ch = xs }; batch = w.batch ++ x ∷ [] } in
    if leb batch_size (length w'.batch) then flush w' else w'

-- What can happen: a producer pushes, `Shutdown` closes the queue and then cancels the context, and
-- the `select` of a running worker takes any of the cases that are ready.
pub data Step (batch_size : ℕ) : Worker → Worker → Type 0 where
  pushes : (w : Worker) (x : Text) → Step batch_size w (record w { queue = push w.queue x })
  closes : (w : Worker) → Step batch_size w (record w { queue = shut w.queue })
  cancels : (w : Worker) → w.queue.closed ≡ true → Step batch_size w (record w { canceled = true })
  receives :
      (w : Worker) (x : Text) (xs : List Text)
      → w.stopped ≡ false
      → w.queue.ch ≡ x ∷ xs
      → Step batch_size w (receive batch_size w x xs)
  drains :
      (w : Worker)
      → w.stopped ≡ false
      → w.queue.ch ≡ []
      → w.queue.closed ≡ true
      → Step batch_size w (halt (flush w))
  ticks : (w : Worker) → w.stopped ≡ false → Step batch_size w (flush w)
  quits : (w : Worker) → w.stopped ≡ false → w.canceled ≡ true → Step batch_size w (halt (flush w))

pub data Reach (batch_size : ℕ) (w : Worker) : Worker → Type 0 where
  here : Reach batch_size w w
  next : {u v : Worker} → Reach batch_size w u → Step batch_size u v → Reach batch_size w v
