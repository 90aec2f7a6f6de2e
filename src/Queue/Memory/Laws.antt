-- ===== src/Queue/Memory/Laws.antt =====
-- The in-memory queue is a bounded queue, first in, first out.
use linker_agent.Prelude.{
  ℕ, zero, suc, ◌+◌, ◌-◌, ◌≤◌, ◌<◌, ◌≡◌, refl, ap, ◌∙◌, ◌⊎◌, inl, inr, true, false, List, [], ◌∷◌,
  ◌++◌, subst, Text, length, length-append, length-tail, length-replicate, take, drop, replicate,
  tail, arith, u64, add64, Bool-cases, ltb, if◌then◌else◌,
}
use linker_agent.Queue.Types.{QueueItem, is_reject_new, Error, Result, ok, err}
use linker_agent.Queue.Memory.{
  MemoryQueue, zero_item, try_send, drop_head, give_back, send_again, enqueue, receive,
  dequeue_batch,
}

-- The item that `Enqueue` makes.
abbrev pub item_at : ℕ → Text → QueueItem
item_at o bytes = record { offset = o; bytes = bytes; enqueued_at = 0 }

-- The buffered items have consecutive offsets, the last just below the write offset, and there are
-- no more of them than the capacity, which is positive.
abbrev pub Consecutive : ℕ → List QueueItem → ℕ → Type 0
Consecutive o [] w = o ≡ w
Consecutive o (x ∷ xs) w = (x.offset ≡ o) × Consecutive (o + 1) xs w

pub record IsValid (q : MemoryQueue) : Type 0 where
  pub positive : 0 < q.capacity
  pub within : length q.ch ≤ q.capacity
  pub counted : length q.ch ≤ q.write_offset
  pub consecutive : Consecutive (q.write_offset - length q.ch) q.ch q.write_offset

Consecutive-append :
    (o : ℕ) (xs : List QueueItem) (w : ℕ) (bytes : Text)
    → Consecutive o xs w
    → Consecutive o (xs ++ (item_at w bytes ∷ [])) (w + 1)
Consecutive-append o [] w bytes h = omega arith
Consecutive-append o (x ∷ xs) w bytes h = (h.0, Consecutive-append (o + 1) xs w bytes h.1)

-- What `Enqueue` does to an open queue: the item is appended while there is room; a full queue
-- refuses it under `reject_new`, and gives up its oldest item for it otherwise.
abbrev pub Enqueued : MemoryQueue → Text → MemoryQueue × Result (Unit {0}) → Type 0
Enqueued q bytes (q', r) =
    let item = item_at q.write_offset bytes in
    ((length q.ch < q.capacity)
      × (r ≡ ok tt)
      × (q'.ch ≡ q.ch ++ (item ∷ []))
      × (q'.write_offset ≡ q.write_offset + 1)
      × (q'.dropped_count ≡ q.dropped_count))
    ⊎ ((length q.ch ≡ q.capacity)
        × (is_reject_new q.drop_policy ≡ true)
        × (r ≡ err Error.queue_full)
        × (q' ≡ q))
    ⊎ ((length q.ch ≡ q.capacity)
        × (is_reject_new q.drop_policy ≡ false)
        × (r ≡ ok tt)
        × (q'.ch ≡ tail q.ch ++ (item ∷ []))
        × (q'.write_offset ≡ q.write_offset + 1)
        × (q'.dropped_count ≡ add64 q.dropped_count 1))

-- The queue once an item was taken in.
abbrev taken_in : MemoryQueue → List QueueItem → MemoryQueue
taken_in q ch = record q {
  ch = ch;
  write_offset = q.write_offset + 1;
  enqueued_count = add64 q.enqueued_count 1;
}

enqueue_closed :
    (q : MemoryQueue) (bytes : Text)
    → q.closed ≡ true
    → enqueue q bytes ≡ (q, err Error.queue_closed)
unfolding enqueue
enqueue_closed q bytes shut = ground arith

enqueue_room :
    (q : MemoryQueue) (bytes : Text)
    → q.closed ≡ false
    → q.write_offset + 1 < u64
    → length q.ch < q.capacity
    → enqueue q bytes ≡ (taken_in q (q.ch ++ (item_at q.write_offset bytes ∷ [])), ok tt)
unfolding enqueue try_send
enqueue_room q bytes opened lt room = ground arith

enqueue_reject :
    (q : MemoryQueue) (bytes : Text)
    → q.closed ≡ false
    → q.write_offset + 1 < u64
    → q.capacity ≤ length q.ch
    → is_reject_new q.drop_policy ≡ true
    → enqueue q bytes ≡ (q, err Error.queue_full)
unfolding enqueue try_send give_back
enqueue_reject q bytes opened lt full reject = ground arith

enqueue_replace :
    (q : MemoryQueue) (bytes : Text)
    → q.closed ≡ false
    → q.write_offset + 1 < u64
    → 0 < q.capacity
    → q.capacity ≡ length q.ch
    → is_reject_new q.drop_policy ≡ false
    → enqueue q bytes ≡ (
      record (taken_in q (tail q.ch ++ (item_at q.write_offset bytes ∷ []))) {
        dropped_count = add64 q.dropped_count 1;
        read_offset = add64 q.read_offset 1;
      },
      ok tt,
    )
unfolding enqueue try_send send_again drop_head give_back
enqueue_replace q bytes opened lt positive full keep = ground arith

-- `Enqueue` on a valid open queue whose offsets do not run out has the three outcomes of `Enqueued`:
-- the item is appended, refused with the queue unchanged, or appended in place of the oldest one.
pub enqueue_fifo :
    (q : MemoryQueue) (bytes : Text)
    → IsValid q
    → q.closed ≡ false
    → q.write_offset + 1 < u64
    → Enqueued q bytes (enqueue q bytes)
enqueue_fifo q bytes v opened lt = elim (Bool-cases (ltb (length q.ch) q.capacity)) [
  | inl room ↦
      let less : length q.ch < q.capacity = ground arith in
      rw (enqueue_room q bytes opened lt less) (inl (less, refl, refl, refl, refl))
  | inr full ↦
      let same : length q.ch ≡ q.capacity = ground arith in
      elim (Bool-cases (is_reject_new q.drop_policy)) [
        | inl reject ↦
            rw (enqueue_reject q bytes opened lt (omega arith) reject)
              (inr (inl (same, reject, refl, refl)))
        | inr keep ↦
            rw (enqueue_replace q bytes opened lt (omega arith) (omega arith) keep)
              (inr (inr (same, keep, refl, refl, refl, refl)))
      ]
]

-- A queue stays valid when its items give way to consecutive ones up to the next write offset.
taken_in-IsValid :
    (q : MemoryQueue) (ch : List QueueItem) (d r : ℕ)
    → IsValid q
    → length ch ≤ q.capacity
    → length ch ≤ q.write_offset + 1
    → Consecutive (q.write_offset + 1 - length ch) ch (q.write_offset + 1)
    → IsValid (record (taken_in q ch) { dropped_count = d; read_offset = r })
taken_in-IsValid q ch d r v within counted consecutive = record {
  positive = v.positive;
  within = within;
  counted = counted;
  consecutive = consecutive;
}

Consecutive-tail :
    (ch : List QueueItem) (w : ℕ)
    → length ch ≤ w
    → Consecutive (w - length ch) ch w
    → 0 < length ch
    → Consecutive (w + 1 - length ch) (tail ch) w
Consecutive-tail [] w le h more = absurd (omega arith)
Consecutive-tail (x ∷ ch) w le h more = subst (λ o. Consecutive o ch w) (omega arith) h.1

-- `Enqueue` keeps a valid queue, whose write offset does not run out, valid.
pub enqueue-IsValid :
    (q : MemoryQueue) (bytes : Text)
    → IsValid q
    → q.write_offset + 1 < u64
    → IsValid (enqueue q bytes).0
enqueue-IsValid q bytes v lt = elim (Bool-cases q.closed) [
  | inl shut ↦ rw (enqueue_closed q bytes shut) v
  | inr opened ↦ elim (Bool-cases (ltb (length q.ch) q.capacity)) [
    | inl room ↦ rw (enqueue_room q bytes opened lt (ground arith)) (
        taken_in-IsValid q (q.ch ++ last) q.dropped_count q.read_offset v
          (ground (arith, length-append q.ch last))
          (omega (arith, length-append {0} q.ch last, v.counted))
          (subst (λ o. Consecutive o (q.ch ++ last) (q.write_offset + 1))
            (omega (arith, length-append {0} q.ch last, v.counted))
            (Consecutive-append _ q.ch q.write_offset bytes v.consecutive)))
    | inr full ↦
        let same : q.capacity ≡ length q.ch = ground arith in
        elim (Bool-cases (is_reject_new q.drop_policy)) [
          | inl reject ↦ rw (enqueue_reject q bytes opened lt (omega arith) reject) v
          | inr keep ↦ rw (enqueue_replace q bytes opened lt v.positive same keep) (
              taken_in-IsValid q (tail q.ch ++ last) _ _ v
                (omega (arith, count, v.within, v.positive))
                (omega (arith, count, v.counted, v.positive))
                (subst (λ o. Consecutive o (tail q.ch ++ last) (q.write_offset + 1))
                  (omega (arith, count, v.positive))
                  (Consecutive-append _ (tail q.ch) q.write_offset bytes
                    (Consecutive-tail q.ch q.write_offset v.counted v.consecutive (omega arith)))))
        ]
  ]
]
  where
    last : List QueueItem
    last = item_at q.write_offset bytes ∷ []

    count : length (tail q.ch ++ last) ≡ length q.ch - 1 + 1
    count = omega (arith, length-append {0} (tail q.ch) last, length-tail {0} q.ch)

receive-open :
    (n : ℕ) (ch : List QueueItem)
    → receive n false ch ≡ (take n ch, drop n ch, if ltb (length ch) n then false else true)
unfolding receive
receive-open zero ch = ground arith
receive-open (suc n) [] = ground arith
receive-open (suc n) (x ∷ ch) = ground (arith, receive-open n ch)

receive-closed : (n : ℕ) → receive n true [] ≡ (replicate n zero_item, [], true)
unfolding receive
receive-closed zero = refl
receive-closed (suc n) = ground (arith, receive-closed n)

-- On an open queue `DequeueBatch` hands out the first `n` items in order and keeps the others; the
-- count of dequeued items grows, by `n`, only if the queue held at least `n` of them.
pub dequeue_batch_open :
    (q : MemoryQueue) (n : ℕ)
    → q.closed ≡ false
    → ((dequeue_batch q n).1 ≡ take n q.ch)
      × ((dequeue_batch q n).0.ch ≡ drop n q.ch)
      × ((dequeue_batch q n).0.dequeued_count ≡ (
          if ltb (length q.ch) n
          then q.dequeued_count
          else add64 q.dequeued_count (length (take n q.ch))))
unfolding dequeue_batch
dequeue_batch_open q n opened = ground (arith, receive-open n q.ch)

receive-all :
    (n : ℕ) (ch : List QueueItem)
    → length ch ≤ n
    → receive n true ch ≡ (ch ++ replicate (n - length ch) zero_item, [], true)
unfolding receive
receive-all n [] le = receive-closed n ∙ ap (λ k. (replicate k zero_item, [], true)) (omega arith)
receive-all zero (x ∷ ch) le = absurd (omega arith)
receive-all (suc n) (x ∷ ch) le =
    let shift : suc n - suc (length ch) ≡ n - length ch = omega arith in
    rw (shift, receive-all n ch (omega arith))

-- On a closed queue that holds no more items than the batch size `DequeueBatch` fills the batch up
-- with zero items, and counts them as dequeued.
pub dequeue_batch_closed :
    (q : MemoryQueue) (n : ℕ)
    → q.closed ≡ true
    → length q.ch ≤ n
    → ((dequeue_batch q n).1 ≡ q.ch ++ replicate (n - length q.ch) zero_item)
      × ((dequeue_batch q n).0.dequeued_count ≡ add64 q.dequeued_count n)
unfolding dequeue_batch
dequeue_batch_closed q n shut le =
    let all : receive n q.closed q.ch ≡ (q.ch ++ replicate (n - length q.ch) zero_item, [], true) =
      ap (λ c. receive n c q.ch) shut ∙ receive-all n q.ch le in
    let count : length (q.ch ++ replicate (n - length q.ch) zero_item) ≡ n = omega (
      arith,
      length-append {0} q.ch (replicate (n - length q.ch) zero_item),
      length-replicate {0} (n - length q.ch) zero_item,
    ) in
    ground (arith, all, count)
