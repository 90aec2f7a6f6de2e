-- ===== src/Queue/Dlq/Laws.antt =====
-- The dead letter queue against the logs of its queues.
use linker_agent.Prelude.{
  ℕ, zero, suc, ◌+◌, ◌-◌, ◌^◌, ◌≤◌, ◌<◌, ◌≡◌, refl, ap, ◌∙◌, ◌⊎◌, inl, inr, false, List, [], ◌∷◌,
  ◌++◌, Option, none, some, Option-cases, Text, arith, All, length, take, drop, tail, eq_text, ltb,
  pos, add64, length-take, drop_of_length-le,
}
use linker_agent.Queue.Types.{
  QueueItem, Value, Error, Result, ok, err, Result-cases, Badger, is_reject_new,
}
use linker_agent.Queue.Durable.{
  BadgerQueue, check_capacity, enqueue, commit, dequeue_batch, last_offset,
}
use linker_agent.Queue.Durable.Log.{contents, IsValid}
use linker_agent.Queue.Durable.Enqueue.{Outcome, enqueue_lem}
use linker_agent.Queue.Durable.Batch.{
  items_of, dequeue_batch_lem, Committed, commit_lem, contents-commit-dequeue_batch,
}
use linker_agent.Queue.Dlq.{
  DlqEntry, Codec, done, stream_dlq, move_to_dlq, purge, purge_items, purge_older_than,
}

-- The entry that `MoveToDLQ` makes of an item.
abbrev pub entry_of : Text → QueueItem → Text → Text → ℕ → DlqEntry
entry_of stream item reason message now = record {
  original_event = item.bytes;
  stream = stream;
  reason = reason;
  error_message = message;
  first_attempt_at = item.enqueued_at;
  last_attempt_at = now;
  attempt_count = 1;
  http_status_code = 0;
}

last_offset-none : (items : List QueueItem) → last_offset items ≡ none → items ≡ []
unfolding last_offset
last_offset-none [] h = refl
last_offset-none (x ∷ items) h = absurd (ground arith)

items_of-nil : (now n : ℕ) (l : List (ℕ × Value)) → 0 < n → take n (items_of now l) ≡ [] → l ≡ []
items_of-nil now n [] positive h = refl
items_of-nil now zero (x ∷ l) positive h = absurd (omega arith)
items_of-nil now (suc n) (x ∷ l) positive h = absurd (cc)

length-items_of : (now : ℕ) (l : List (ℕ × Value)) → length (items_of now l) ≡ length l
length-items_of now [] = refl
length-items_of now (x ∷ l) = ap suc (length-items_of now l)

module _ (b : Badger) (c : Codec) where
  open b use {Db}

  -- What a write finds in a queue: its contents, or those without the oldest value, if the queue was
  -- full and does not reject new values.
  abbrev pub Room : BadgerQueue Db → List (ℕ × Value) → Type 0
  Room q kept =
      (kept ≡ contents b q)
      ⊎ ((e : Error) × (check_capacity b q ≡ some e)
          × (is_reject_new q.cfg.drop_policy ≡ false)
          × (kept ≡ tail (contents b q)))

  Enqueued-Room :
      (q q' : BadgerQueue Db) (r : Result (Unit {0})) (bytes : Text) (now : ℕ)
      → Outcome b q bytes now q' r
      → (kept : List (ℕ × Value)) × Room q kept
        × (((r ≡ ok tt) × (contents b q' ≡ kept ++ ((q.write_offset, Value.item bytes now) ∷ [])))
            ⊎ ((e : Error) × (r ≡ err e) × (contents b q' ≡ kept)))
  Enqueued-Room q q' r bytes now (Outcome.refused_closed _ e same) =
      (_, inl refl, inr (_, e, ap (contents b) same))
  Enqueued-Room q q' r bytes now (Outcome.refused_full x _ _ e same) =
      (_, inl refl, inr (x, e, ap (contents b) same))
  Enqueued-Room q q' r bytes now (Outcome.appended _ fine more) = (_, inl refl, inl (fine, more))
  Enqueued-Room q q' r bytes now (Outcome.replaced x full keep fine more) =
      (_, inr (x, full, keep, refl), inl (fine, more))
  Enqueued-Room q q' r bytes now (Outcome.not_written e same) = (_, inl refl, inr (_, e, same))
  Enqueued-Room q q' r bytes now (Outcome.not_deleted e same) =
      (_, inl refl, inr (_, e, ap (contents b) same))
  Enqueued-Room q q' r bytes now (Outcome.only_dropped x full keep e cut) =
      (_, inr (x, full, keep, refl), inr (_, e, cut))

  -- The queue after the commit of an item whose answer is only logged.
  abbrev pub Removed : BadgerQueue Db → ℕ → BadgerQueue Db → Type 0
  Removed q offset q' =
      ((q.read_offset ≤ offset)
        × IsValid b q'
        × (contents b q' ≡ drop (offset + 1 - q.read_offset) (contents b q)))
      ⊎ ((e : Error) × ((commit b q offset).1 ≡ err e) × (q' ≡ q))

  Committed-Removed :
      (q q' : BadgerQueue Db) (r : Result (Unit {0})) (offset : ℕ)
      → (commit b q offset).1 ≡ r
      → Committed b q offset (q', r)
      → Removed q offset q'
  Committed-Removed q q' r offset at (inl (_, le, v, _, _, less)) = inl (le, v, less)
  Committed-Removed q q' r offset at (inr (inl (e, _, same))) = inr (_, at ∙ e, same)
  Committed-Removed q q' r offset at (inr (inr (e, _, same))) = inr (_, at ∙ e, same)

  -- What `MoveToDLQ` leaves of the two logs, and its answer.
  unfoldable pub Moved :
      BadgerQueue Db
      → BadgerQueue Db
      → ℕ
      → Text
      → ℕ
      → BadgerQueue Db × Option (BadgerQueue Db) × Result (Unit {0})
      → Type 0
  Moved q dlq offset bytes now (q', d, r) =
      (dlq' : BadgerQueue Db) × (d ≡ some dlq')
      × IsValid b dlq'
      × (kept : List (ℕ × Value)) × Room dlq kept
      × (((r ≡ ok tt)
            × (contents b dlq' ≡ kept ++ ((dlq.write_offset, Value.item bytes now) ∷ []))
            × Removed q offset q')
          ⊎ ((e : Error) × (r ≡ err (Error.dlq_enqueue_failed e))
              × (contents b dlq' ≡ kept)
              × (q' ≡ q)))

  move_to_dlq_taken :
      (q dlq : BadgerQueue Db) (item : QueueItem) (reason message : Text) (now : ℕ)
      → eq_text q.cfg.stream stream_dlq ≡ false
      → let (dlq', r) =
          enqueue b dlq (c.marshal (entry_of q.cfg.stream item reason message now)) now in
        r ≡ ok tt
        → move_to_dlq b c q (some dlq) item reason message now
          ≡ ((commit b q item.offset).0, some dlq', ok tt)
  unfolding move_to_dlq
  move_to_dlq_taken q dlq item reason message now other taken = ground (arith, other, taken)

  move_to_dlq_refused :
      (q dlq : BadgerQueue Db) (item : QueueItem) (reason message : Text) (now : ℕ) (e : Error)
      → eq_text q.cfg.stream stream_dlq ≡ false
      → let (dlq', r) =
          enqueue b dlq (c.marshal (entry_of q.cfg.stream item reason message now)) now in
        r ≡ err e
        → move_to_dlq b c q (some dlq) item reason message now
          ≡ (q, some dlq', err (Error.dlq_enqueue_failed e))
  unfolding move_to_dlq
  move_to_dlq_refused q dlq item reason message now e other refused = ground (arith, other, refused)

  -- `MoveToDLQ` of a valid queue that is not the dead letter queue itself, for an item below the write
  -- offset and with room for an offset in the dead letter queue, keeps the dead letter queue valid. It
  -- succeeds exactly when the entry of the item is written: the dead letter queue then ends with it,
  -- and has lost at most its oldest value, if it was full. From the queue go the item and all items
  -- before it, which get no entry; or the commit failed, and the queue is as it was, though the answer
  -- is success. If the entry is not written the queue is as it was.
  pub move_to_dlq_lem :
      (q dlq : BadgerQueue Db) (item : QueueItem) (reason message : Text) (now : ℕ)
      → IsValid b q
      → IsValid b dlq
      → eq_text q.cfg.stream stream_dlq ≡ false
      → item.offset < q.write_offset
      → dlq.write_offset + 1 < 2 ^ 63
      → Moved q dlq item.offset
          (c.marshal (entry_of q.cfg.stream item reason message now))
          now
          (move_to_dlq b c q (some dlq) item reason message now)
  unfolding Moved
  move_to_dlq_lem q dlq item reason message now v w other below room =
      let bytes = c.marshal (entry_of q.cfg.stream item reason message now) in
      let (w', _, o) = enqueue_lem b dlq bytes now w room in
      let (kept, found, result) = Enqueued-Room dlq _ _ bytes now o in
      elim result [
        | inl (taken, more) ↦ rw (move_to_dlq_taken q dlq item reason message now other taken) (
          _,
          refl,
          w',
          kept,
          found,
          inl (
            refl,
            more,
            Committed-Removed q _ _ item.offset refl (commit_lem b q item.offset v below),
          ),
        )
        | inr (e, refused, same) ↦
            rw (move_to_dlq_refused q dlq item reason message now e other refused)
              (_, refl, w', kept, found, inr (e, refl, same, refl))
      ]

  purge_dequeued :
      (m m' m₁ : BadgerQueue Db) (items : List QueueItem) (now : ℕ)
      → dequeue_batch b m m.cfg.max_events now ≡ (m₁, ok items)
      → purge b c m now ≡ (m', done tt)
      → ((items ≡ []) × (m' ≡ m₁))
        ⊎ ((last : ℕ) × (last_offset items ≡ some last) × (commit b m₁ last ≡ (m', ok tt)))
  unfolding purge
  purge_dequeued m m' m₁ items now got h = elim (Option-cases (last_offset items)) [
    | inl nothing ↦ inl (last_offset-none items nothing, ground (arith, got, nothing))
    | inr (last, found) ↦ elim (Result-cases (commit b m₁ last).1) [
      | inl (_, fine) ↦ inr (last, found, ground (arith, got, found, fine))
      | inr (e, bad) ↦ absurd (ground (arith, got, found, bad))
    ]
  ]

  -- Purging a valid open dead letter queue that holds no more than its configured number of entries,
  -- at least one, leaves it empty if it reports success.
  pub contents-purge :
      (m m' : BadgerQueue Db) (n now : ℕ)
      → IsValid b m
      → m.closed ≡ false
      → m.cfg.max_events ≡ pos n
      → 0 < n
      → length (contents b m) ≤ n
      → purge b c m now ≡ (m', done tt)
      → contents b m' ≡ []
  contents-purge m m' n now v opened max positive le h =
      elim (purge_dequeued m m' m₁ items now (ap (λ z. dequeue_batch b m z now) max ∙ got) h) [
        | inl (none_left, same) ↦
            ap (contents b) same ∙ items_of-nil now n (contents b m) positive none_left
        | inr (last, found, committed) ↦
            (contents-commit-dequeue_batch b m m₁ m' items n now last v opened got found
              committed).1.1
            ∙ drop_of_length-le n (contents b m) le
      ]
    where
      items : List QueueItem
      items = take n (items_of now (contents b m))

      m₁ : BadgerQueue Db
      m₁ = record m { dequeued_count = add64 m.dequeued_count (length items) }

      got : dequeue_batch b m (pos n) now ≡ (m₁, ok items)
      got = dequeue_batch_lem b m n now opened positive

  -- An item that `PurgeOlderThan` passes over.
  abbrev pub Kept : (age now : ℕ) → QueueItem → Type 0
  Kept age now x = elim (c.unmarshal x.bytes) as (λ _. Type 0) [
    | none ↦ Unit
    | some e ↦ ltb (e.first_attempt_at + age) now ≡ false
  ]

  purge_items-Kept :
      (items : List QueueItem) (m : BadgerQueue Db) (age now purged : ℕ)
      → All (Kept age now) items
      → purge_items b c items m age now purged ≡ (m, purged, done tt)
  unfolding purge_items
  purge_items-Kept [] m age now purged h = refl
  purge_items-Kept (x ∷ items) m age now purged h =
      ground (arith, h.0, purge_items-Kept items m age now purged h.1)

  purge_older_than_step :
      (fuel : ℕ) (m m' : BadgerQueue Db) (items : List QueueItem) (age now purged : ℕ)
      → dequeue_batch b m (pos 100) now ≡ (m', ok items)
      → purge_items b c items m' age now purged ≡ (m', purged, done tt)
      → length items ≡ 100
      → purge_older_than b c (suc fuel) m age now purged
        ≡ purge_older_than b c fuel m' age now purged
  unfolding purge_older_than
  purge_older_than_step fuel m m' items age now purged got passed count =
      ground (arith, got, passed, count)

  no_fuel :
      (m : BadgerQueue Db) (age now purged : ℕ) → purge_older_than b c 0 m age now purged ≡ none
  unfolding purge_older_than
  no_fuel m age now purged = refl

  -- If the first 100 items of an open dead letter queue are all kept, `PurgeOlderThan` never ends: it
  -- takes the same batch again and again, however much fuel it is given.
  pub purge_older_than-none :
      (fuel : ℕ) (m : BadgerQueue Db) (age now purged : ℕ)
      → m.closed ≡ false
      → 100 ≤ length (contents b m)
      → All (Kept age now) (take 100 (items_of now (contents b m)))
      → purge_older_than b c fuel m age now purged ≡ none
  purge_older_than-none zero m age now purged opened many kept = no_fuel m age now purged
  purge_older_than-none (suc fuel) m age now purged opened many kept =
      let items = take 100 (items_of now (contents b m)) in
      let m' = record m { dequeued_count = add64 m.dequeued_count (length items) } in
      let got = dequeue_batch_lem b m 100 now opened (omega arith) in
      let passed = purge_items-Kept items m' age now purged kept in
      let again = purge_older_than-none fuel m' age now purged opened many kept in
      purge_older_than_step fuel m m' items age now purged got passed count ∙ again
    where
      count : length (take 100 (items_of now (contents b m))) ≡ 100
      count =
          length-take 100 (items_of now (contents b m))
          ∙ omega (arith, length-items_of now (contents b m))
