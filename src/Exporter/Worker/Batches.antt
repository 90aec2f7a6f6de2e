-- ===== src/Exporter/Worker/Batches.antt =====
-- The sizes of the batches.
use linker_agent.Prelude.{
  ℕ, ◌+◌, ◌≤◌, ◌<◌, ◌≡◌, inl, inr, List, [], ◌∷◌, ◌++◌, Text, length, length-append, leb, All,
  All-append, Bool-cases, arith,
}
use linker_agent.Exporter.Worker.{
  Worker, flush, halt, receive, Step, pushes, closes, cancels, receives, drains, ticks, quits,
  Reach, here, next,
}
use linker_agent.Exporter.Worker.Laws.{List-cases, flush_none, flush_some}

module _ (size : ℕ) where
  -- No batch is empty or larger than the batch size, and the one that is gathered is smaller.
  abbrev pub IsBatched : Worker → Type 0
  IsBatched w = (length w.batch < size) × All (λ b. (1 ≤ length b) × (length b ≤ size)) w.flushed

  flushed_sizes :
      (w : Worker)
      → 0 < size
      → length w.batch ≤ size
      → All (λ b. (1 ≤ length b) × (length b ≤ size)) w.flushed
      → IsBatched (flush w)
  flushed_sizes w pos_size le all = elim (List-cases w.batch) [
    | inl e ↦ rw (flush_none w e) (ground (arith, e), all)
    | inr (x, (xs, e)) ↦ rw (flush_some w x xs e) (
      pos_size,
      All-append (λ b. (1 ≤ length b) × (length b ≤ size)) w.flushed (w.batch ∷ []) all
          ((ground (arith, e), le), tt),
    )
  ]

  receive_sizes :
      (w : Worker) (x : Text) (xs : List Text)
      → 0 < size
      → IsBatched w
      → IsBatched (receive size w x xs)
  unfolding receive
  receive_sizes w x xs pos_size (lt, all) =
      let w' : Worker = record w {
        queue = record w.queue { ch = xs };
        batch = w.batch ++ x ∷ [];
      } in
      let n : length w'.batch ≡ length w.batch + 1 = length-append w.batch (x ∷ []) in
      elim (Bool-cases (leb size (length w'.batch))) [
        | inl full ↦ rw full (flushed_sizes w' pos_size (omega (arith, n)) all)
        | inr room ↦ rw room (ground (arith, room), all)
      ]

  Step-IsBatched : {w w' : Worker} → 0 < size → Step size w w' → IsBatched w → IsBatched w'
  unfolding halt
  Step-IsBatched p (pushes w x) b = b
  Step-IsBatched p (closes w) b = b
  Step-IsBatched p (cancels w h) b = b
  Step-IsBatched p (receives w x xs s e) b = receive_sizes w x xs p b
  Step-IsBatched p (drains w s e h) (lt, all) = flushed_sizes w p (omega arith) all
  Step-IsBatched p (ticks w s) (lt, all) = flushed_sizes w p (omega arith) all
  Step-IsBatched p (quits w s h) (lt, all) = flushed_sizes w p (omega arith) all

  -- Whatever steps the producers, `Shutdown` and the worker take, no batch that is flushed is empty or
  -- larger than the batch size, which is at least one, and the batch that is gathered is smaller,
  -- provided that this holds at the start.
  pub Reach-IsBatched : {w w' : Worker} → 0 < size → Reach size w w' → IsBatched w → IsBatched w'
  Reach-IsBatched p here b = b
  Reach-IsBatched p (next r st) b = Step-IsBatched p st (Reach-IsBatched p r b)
