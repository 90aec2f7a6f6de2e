-- ===== src/Exporter/Worker/Shutdown.antt =====
-- Closing the queue: what is kept, how the worker can finish, and what `Shutdown` can lose.
use linker_agent.Prelude.{
  ℕ, ◌≡◌, refl, sym, ap, ◌∙◌, true, false, List, [], ◌∷◌, ◌++◌, append_assoc, append-nil, Text,
  arith,
}
use linker_agent.Exporter.{ExportQueue, push, shut}
use linker_agent.Exporter.Worker.{
  Worker, flush, halt, receive, Step, pushes, closes, cancels, receives, drains, ticks, quits,
  Reach, here, next,
}
use linker_agent.Exporter.Worker.Laws.{concat, gathered, items, flush_lem, receive_lem}

push_closed :
    (q : ExportQueue) (x : Text)
    → q.closed ≡ true
    → ((push q x).ch ≡ q.ch) × ((push q x).closed ≡ true)
unfolding push
push_closed q x c = ground (arith, c)

-- With a closed queue: the queue stays closed, and the items are the same in the same order.
abbrev pub Keeps : Worker → Worker → Type 0
Keeps w w' = (w'.queue.closed ≡ true) × (items w' ≡ items w)

flush-Keeps : (w : Worker) → w.queue.closed ≡ true → Keeps w (flush w)
flush-Keeps w c =
    let (g, _, q, _, _) = flush_lem w in
    (ap (λ q. q.closed) q ∙ c, ap (λ l. l ++ (flush w).queue.ch) g ∙ ap (λ q. gathered w ++ q.ch) q)

halt-Keeps : (w v : Worker) → Keeps w v → Keeps w (halt v)
unfolding halt
halt-Keeps w v k = k

receive-Keeps :
    (size : ℕ) (w : Worker) (x : Text) (xs : List Text)
    → w.queue.closed ≡ true
    → w.queue.ch ≡ x ∷ xs
    → Keeps w (receive size w x xs)
receive-Keeps size w x xs c e =
    let (g, q, _, _) = receive_lem size w x xs in
    (
      ap (λ q. q.closed) q ∙ c,
      ap (λ l. l ++ (receive size w x xs).queue.ch) g
          ∙ ap (λ q. (gathered w ++ x ∷ []) ++ q.ch) q
          ∙ append_assoc (gathered w) (x ∷ []) xs
          ∙ ap (λ l. gathered w ++ l) (sym e),
    )

Step-Keeps : {size : ℕ} {w w' : Worker} → Step size w w' → w.queue.closed ≡ true → Keeps w w'
unfolding shut
Step-Keeps (pushes w x) c =
    let (same, shut_) = push_closed w.queue x c in (shut_, ap (λ l. gathered w ++ l) same)
Step-Keeps (closes w) c = (refl, refl)
Step-Keeps (cancels w h) c = (c, refl)
Step-Keeps {size} (receives w x xs s e) c = receive-Keeps size w x xs c e
Step-Keeps (drains w s e h) c = halt-Keeps w (flush w) (flush-Keeps w c)
Step-Keeps (ticks w s) c = flush-Keeps w c
Step-Keeps (quits w s h) c = halt-Keeps w (flush w) (flush-Keeps w c)

-- Once the queue is closed, whatever steps the producers, `Shutdown` and the worker take: the items
-- flushed, those in the batch and those that wait make up the same sequence as before, and the queue
-- stays closed.
pub Reach-Keeps :
    {size : ℕ} (w : Worker) {w' : Worker} → w.queue.closed ≡ true → Reach size w w' → Keeps w w'
Reach-Keeps w c here = (c, refl)
Reach-Keeps w c (next r st) =
    let (c', i) = Reach-Keeps w c r in let (c'', i') = Step-Keeps st c' in (c'', i' ∙ i)

-- A run of steps before a run.
first : {size : ℕ} {u v w : Worker} → Step size u v → Reach size v w → Reach size u w
first st here = next here st
first st (next r st') = next (first st r) st'

-- The worker has returned with every item flushed.
abbrev pub IsFinished : Worker → Worker → Type 0
IsFinished w w' = (w'.stopped ≡ true) × (w'.queue.ch ≡ []) × (concat w'.flushed ≡ items w)

drained :
    (size : ℕ) (w : Worker)
    → w.queue.closed ≡ true
    → w.stopped ≡ false
    → w.queue.ch ≡ []
    → (w' : Worker) × Reach size w w' × IsFinished w w'
unfolding halt
drained size w c s e =
    let (g, b, q, _, _) = flush_lem w in
    (
      halt (flush w),
      next here (drains w s e c),
      (
        refl,
        ap (λ q. q.ch) q ∙ e,
        sym (append-nil (concat (flush w).flushed))
            ∙ ap (λ l. concat (flush w).flushed ++ l) (sym b)
            ∙ g
            ∙ sym (append-nil (gathered w))
            ∙ ap (λ l. gathered w ++ l) (sym e),
      ),
    )

finish_from :
    (size : ℕ) (xs : List Text) (w : Worker)
    → w.queue.ch ≡ xs
    → w.queue.closed ≡ true
    → w.stopped ≡ false
    → (w' : Worker) × Reach size w w' × IsFinished w w'
finish_from size [] w e c s = drained size w c s e
finish_from size (x ∷ xs) w e c s =
    let (g, q, st, _) = receive_lem size w x xs in
    let (c', i) = receive-Keeps size w x xs c e in
    let (w', r, (a, b, f)) =
      finish_from size xs (receive size w x xs) (ap (λ q. q.ch) q) c' (st ∙ s) in
    (w', first (receives w x xs s e) r, (a, b, f ∙ i))

-- A running worker whose queue is closed can return with all items flushed in order: those of its
-- batch and those that wait.
pub worker_finishes :
    (size : ℕ) (w : Worker)
    → w.queue.closed ≡ true
    → w.stopped ≡ false
    → (w' : Worker) × Reach size w w' × IsFinished w w'
worker_finishes size w c s = finish_from size w.queue.ch w refl c s

stopped_after :
    {size : ℕ} {w w' : Worker}
    → Step size w w'
    → w.stopped ≡ true
    → (w'.stopped ≡ true) × (w'.flushed ≡ w.flushed)
stopped_after (pushes w x) t = (t, refl)
stopped_after (closes w) t = (t, refl)
stopped_after (cancels w h) t = (t, refl)
stopped_after (receives w x xs s e) t = absurd (cc)
stopped_after (drains w s e h) t = absurd (cc)
stopped_after (ticks w s) t = absurd (cc)
stopped_after (quits w s h) t = absurd (cc)

Reach-stopped :
    {size : ℕ} (w : Worker) {w' : Worker}
    → w.stopped ≡ true
    → Reach size w w'
    → (w'.stopped ≡ true) × (w'.flushed ≡ w.flushed)
Reach-stopped w t here = (t, refl)
Reach-stopped w t (next r st) =
    let (t', f) = Reach-stopped w t r in let (t'', f') = stopped_after st t' in (t'', f' ∙ f)

-- A running worker whose context is canceled, as `Shutdown` does after it closed the queue, can
-- return at once: then the items that wait are not flushed, and no later step flushes anything more.
pub shutdown_loses :
    (size : ℕ) (w : Worker)
    → w.stopped ≡ false
    → w.canceled ≡ true
    → (w' : Worker) × Reach size w w'
      × (w'.stopped ≡ true)
      × (w'.queue.ch ≡ w.queue.ch)
      × (concat w'.flushed ≡ gathered w)
      × ((v : Worker) → Reach size w' v → v.flushed ≡ w'.flushed)
unfolding halt
shutdown_loses size w s c =
    let (g, b, q, _, _) = flush_lem w in
    (
      halt (flush w),
      next here (quits w s c),
      refl,
      ap (λ q. q.ch) q,
      sym (append-nil (concat (flush w).flushed))
          ∙ ap (λ l. concat (flush w).flushed ++ l) (sym b)
          ∙ g,
      λ v r. (Reach-stopped (halt (flush w)) refl r).1,
    )
