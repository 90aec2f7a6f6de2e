-- ===== src/Queue/Durable/Batch.antt =====
-- `DequeueBatch` and `Commit` against the log.
use linker_agent.Prelude.{
  ℕ, zero, suc, ◌+◌, ◌-◌, ◌≤◌, ◌<◌, ◌≡◌, refl, ap, sym, ◌∙◌, ◌⊎◌, false, List, [], ◌∷◌, Option,
  none, some, Option-cases, arith, Text, u64, add64, sub64, length, take, drop, Bool-cases, inl,
  inr, if◌then◌else◌, ltb, pos, subst, drop-min, eq_text, eq_text_refl, eq_text_ne, min, lt→ltb,
  ltb→lt,
}
use linker_agent.Queue.Key.{format_key}
use linker_agent.Queue.Types.{Value, Badger, Error, Result, ok, err, QueueItem}
use linker_agent.Queue.Durable.{
  BadgerQueue, deletes, update_db, to_item, take_value, collect, dequeue_batch, commit, write_item,
  enqueue, write_after_drop, drop_oldest, last_offset,
}
use linker_agent.Queue.Durable.Log.{contents, IsValid, IsLog, length-contents, stored, stored_none}
use linker_agent.Queue.Durable.Writes.{deletes-IsLog, deletes-stored, update-update_db}

-- The items that stored values are handed out as.
abbrev pub items_of : ℕ → List (ℕ × Value) → List QueueItem
items_of now [] = []
items_of now ((o, v) ∷ l) = to_item o v now ∷ items_of now l

offset-to_item : (o now : ℕ) (v : Value) → (to_item o v now).offset ≡ o
unfolding to_item
offset-to_item o now (Value.item x t) = refl
offset-to_item o now (Value.raw x) = refl

module _ (b : Badger) where
  open b use {Db, view}

  -- A seek for a key finds its value, or another key.
  seek-cases :
      (db : Db) (k : Text)
      → ((v : Value) × (view db k ≡ some v) × (b.seek db k ≡ some (k, some v)))
        ⊎ ((view db k ≡ none)
            × ((b.seek db k ≡ none)
                ⊎ ((j : Text) × (r : Option Value) × (b.seek db k ≡ some (j, r))
                    × (eq_text j k ≡ false))))
  seek-cases db k = elim (Option-cases (view db k)) [
    | inr (v, held) ↦ inl (v, held, b.seek_present db k v held)
    | inl gone ↦ inr (
      gone,
      elim (Option-cases (b.seek db k)) [
        | inl e ↦ inl e
        | inr ((j, r), e) ↦ inr (j, r, e, eq_text_ne j k (b.seek_absent db k j r gone e))
      ],
    )
  ]

  -- The loop collects the first values in the order of their offsets and passes over the gaps.
  collect_lem :
      (db : Db) (s : Text) (rounds o room now : ℕ)
      → collect b db s rounds o room now ≡ ok (take room (items_of now (stored b db s o rounds)))
  unfolding collect take_value stored
  collect_lem db s zero o zero now = refl
  collect_lem db s zero o (suc room) now = refl
  collect_lem db s (suc rounds) o zero now = refl
  collect_lem db s (suc rounds) o (suc room) now = elim (seek-cases db (format_key s o)) [
    | inl (v, held, found) ↦ ground (
      arith,
      held,
      found,
      eq_text_refl (format_key s o),
      collect_lem db s rounds (o + 1) room now,
    )
    | inr (gone, inl nowhere) ↦
        ground (arith, gone, nowhere, collect_lem db s rounds (o + 1) (suc room) now)
    | inr (gone, inr (j, r, other, differs)) ↦
        ground (arith, gone, other, differs, collect_lem db s rounds (o + 1) (suc room) now)
  ]

  -- An open queue hands out its first `n` values, for a batch size `n` above 0, and changes nothing
  -- but the count of the items handed out.
  pub dequeue_batch_lem :
      (q : BadgerQueue Db) (n now : ℕ)
      → q.closed ≡ false
      → 0 < n
      → let items = take n (items_of now (contents b q)) in
        dequeue_batch b q (pos n) now
        ≡ (record q { dequeued_count = add64 q.dequeued_count (length items) }, ok items)
  unfolding dequeue_batch
  dequeue_batch_lem q n now opened some_room =
      ground
        (arith, collect_lem q.db q.cfg.stream (q.write_offset - q.read_offset) q.read_offset n now)

  -- The transaction of a commit up to an offset.
  abbrev commit_writes : BadgerQueue Db → ℕ → Option Db
  commit_writes q o = update_db b q (deletes q.cfg.stream q.read_offset (o + 1 - q.read_offset))

  commit_refused :
      (q : BadgerQueue Db) (o : ℕ)
      → o < q.read_offset
      → commit b q o ≡ (q, err Error.invalid_offset)
  unfolding commit
  commit_refused q o h = rw (lt→ltb o q.read_offset h)

  commit_failed :
      (q : BadgerQueue Db) (o : ℕ)
      → q.read_offset ≤ o
      → commit_writes q o ≡ none
      → commit b q o ≡ (q, err Error.commit_failed)
  unfolding commit
  commit_failed q o le h = ground (arith, h)

  -- The queue after a transaction that succeeded.
  abbrev after_commit : BadgerQueue Db → ℕ → Db → BadgerQueue Db
  after_commit q o db' = record q {
    db = db';
    read_offset = add64 o 1;
    committed_count = add64 q.committed_count (add64 (sub64 o q.read_offset) 1);
  }

  commit_done :
      (q : BadgerQueue Db) (o : ℕ) (db' : Db)
      → q.read_offset ≤ o
      → o < u64 - 1
      → commit_writes q o ≡ some db'
      → commit b q o ≡ (after_commit q o db', ok tt)
  unfolding commit
  commit_done q o db' le lt h = ground (arith, h)

  -- What `Commit` does: the values up to the offset go, or nothing changes and it fails.
  abbrev pub Committed : BadgerQueue Db → ℕ → BadgerQueue Db × Result (Unit {0}) → Type 0
  Committed q offset (q', r) =
      ((r ≡ ok tt)
        × (q.read_offset ≤ offset)
        × IsValid b q'
        × (q'.read_offset ≡ offset + 1)
        × (q'.write_offset ≡ q.write_offset)
        × (contents b q' ≡ drop (offset + 1 - q.read_offset) (contents b q)))
      ⊎ ((r ≡ err Error.invalid_offset) × (offset < q.read_offset) × (q' ≡ q))
      ⊎ ((r ≡ err Error.commit_failed) × (q.read_offset ≤ offset) × (q' ≡ q))

  after_commit_lem :
      (q : BadgerQueue Db) (o : ℕ) (db' : Db)
      → IsValid b q
      → q.read_offset ≤ o
      → o < q.write_offset
      → commit_writes q o ≡ some db'
      → Committed q o (after_commit q o db', ok tt)
  after_commit_lem q o db' v le lt done = inl (
    refl,
    le,
    subst (λ r. IsLog b db' q.cfg.stream r q.write_offset) next
        (deletes-IsLog b q.db db' _ _ _ n v fits run),
    omega (arith, v.bounded),
    refl,
    sym (ap (λ r. stored b db' q.cfg.stream r (q.write_offset - r)) next)
        ∙ deletes-stored b q.db db' _ _ _ n v fits run,
  )
    where
      n : ℕ
      n = o + 1 - q.read_offset

      run : b.update q.db (deletes q.cfg.stream q.read_offset n) ≡ some db'
      run = update-update_db b q db' _ done

      fits : q.read_offset + n ≤ q.write_offset
      fits = omega arith

      next : q.read_offset + n ≡ add64 o 1
      next = omega (arith, v.bounded)

  -- `Commit` of an offset below the write offset on a valid queue: it drops exactly the values up to
  -- and including that offset and keeps the queue valid; or the offset was committed before, or the
  -- transaction failed, and then the queue is as it was.
  pub commit_lem :
      (q : BadgerQueue Db) (offset : ℕ)
      → IsValid b q
      → offset < q.write_offset
      → Committed q offset (commit b q offset)
  commit_lem q o v lt = elim (Bool-cases (ltb o q.read_offset)) [
    | inl low ↦ rw (commit_refused q o (ltb→lt o _ low)) (inr (inl (refl, ltb→lt o _ low, refl)))
    | inr high ↦
        let le : q.read_offset ≤ o = ground arith in
        elim (Option-cases (commit_writes q o)) [
          | inl fail ↦ rw (commit_failed q o le fail) (inr (inr (refl, le, refl)))
          | inr (db', done) ↦
              rw (commit_done q o db' le (omega (arith, v.bounded)) done)
                (after_commit_lem q o db' v le lt done)
        ]
  ]

  offsets-commit :
      (q q' : BadgerQueue Db) (o : ℕ)
      → commit b q o ≡ (q', ok tt)
      → (q'.read_offset ≡ add64 o 1) × (q'.write_offset ≡ q.write_offset)
  unfolding commit
  offsets-commit q q' o h = ground arith

  offsets-enqueue :
      (q q' : BadgerQueue Db) (bytes : Text) (now : ℕ)
      → q.write_offset ≤ q.read_offset
      → enqueue b q bytes now ≡ (q', ok tt)
      → (q'.read_offset ≡ q.read_offset) × (q'.write_offset ≡ add64 q.write_offset 1)
  unfolding enqueue write_after_drop drop_oldest write_item
  offsets-enqueue q q' bytes now empty h = ground arith

  -- A commit that succeeds on a valid queue with an offset from the write offset on, below the
  -- greatest word, leaves a queue in which the next item is lost: if `Enqueue` writes it and
  -- reports success, the queue has no contents, since the item lies before the read offset.
  pub commit_past_end :
      (q q' q'' : BadgerQueue Db) (offset now : ℕ) (bytes : Text)
      → IsValid b q
      → q.write_offset ≤ offset
      → offset < u64 - 1
      → commit b q offset ≡ (q', ok tt)
      → enqueue b q' bytes now ≡ (q'', ok tt)
      → contents b q'' ≡ []
  commit_past_end q q' q'' o now bytes v past lt committed written =
      let (r', w') = offsets-commit q q' o committed in
      let (r'', w'') = offsets-enqueue q' q'' bytes now (omega arith) written in
      stored_none b q''.db q''.cfg.stream _ _ (omega arith)

  last_offset-items_of :
      (db : Db) (s : Text) (r k n now : ℕ)
      → ((i : ℕ) → r ≤ i → i < r + k → (v : Value) × (view db (format_key s i) ≡ some v))
      → last_offset (take n (items_of now (stored b db s r k)))
        ≡ (if ltb 0 (min n k) then some (r + min n k - 1) else none)
  unfolding last_offset stored
  last_offset-items_of db s r zero zero now h = ground arith
  last_offset-items_of db s r zero (suc n) now h = ground arith
  last_offset-items_of db s r (suc k) zero now h = ground arith
  last_offset-items_of db s r (suc k) (suc n) now h = ground (
    arith,
    offset-to_item r now (h r (omega arith) (omega arith)).0,
    (h r (omega arith) (omega arith)).1,
    last_offset-items_of db s (r + 1) k n now (λ i lo hi. h i (omega arith) (omega arith)),
  )

  commit_taken :
      (q q' : BadgerQueue Db) (n last : ℕ)
      → IsValid b q
      → (if ltb 0 (min n (q.write_offset - q.read_offset))
          then some (q.read_offset + min n (q.write_offset - q.read_offset) - 1)
          else none)
        ≡ some last
      → commit b q last ≡ (q', ok tt)
      → IsValid b q' × (contents b q' ≡ drop n (contents b q))
  commit_taken q q' n last v e done =
      from (subst (Committed q last) done (commit_lem q last v (ground arith)))
    where
      count : last + 1 - q.read_offset ≡ min n (length (contents b q))
      count = ground (arith, length-contents b q v)

      from : Committed q last (q', ok tt) → IsValid b q' × (contents b q' ≡ drop n (contents b q))
      from (inl (_, _, v', _, _, less)) =
          (v', less ∙ ap (λ k. drop k (contents b q)) count ∙ drop-min n (contents b q))
      from (inr (inl (bad, _, _))) = absurd (cc)
      from (inr (inr (bad, _, _))) = absurd (cc)

  dequeue_batch_zero : (q : BadgerQueue Db) (now : ℕ) → dequeue_batch b q (pos 0) now ≡ (q, ok [])
  unfolding dequeue_batch
  dequeue_batch_zero q now = refl

  dequeue_batch-some :
      (q q₁ : BadgerQueue Db) (items : List QueueItem) (n now last : ℕ)
      → IsValid b q
      → q.closed ≡ false
      → dequeue_batch b q (pos n) now ≡ (q₁, ok items)
      → last_offset items ≡ some last
      → (items ≡ take n (items_of now (contents b q)))
        × (q₁ ≡ record q { dequeued_count = q₁.dequeued_count })
  unfolding last_offset
  dequeue_batch-some q q₁ items zero now last v opened taken ends =
      absurd (ground (arith, dequeue_batch_zero q now))
  dequeue_batch-some q q₁ items (suc n) now last v opened taken ends =
      ground (arith, dequeue_batch_lem q (suc n) now opened)

  -- A consumer's round on a valid open queue: it takes a batch of at most `n` items and commits the
  -- offset of the last. If the commit succeeds, the items were the first `n` of the queue in order,
  -- and the queue stays valid and holds exactly the values that were not handed out.
  pub contents-commit-dequeue_batch :
      (q q₁ q' : BadgerQueue Db) (items : List QueueItem) (n now last : ℕ)
      → IsValid b q
      → q.closed ≡ false
      → dequeue_batch b q (pos n) now ≡ (q₁, ok items)
      → last_offset items ≡ some last
      → commit b q₁ last ≡ (q', ok tt)
      → (items ≡ take n (items_of now (contents b q)))
        × (IsValid b q' × (contents b q' ≡ drop n (contents b q)))
  contents-commit-dequeue_batch q q₁ q' items n now last v opened taken ends done =
      let (same, kept) = dequeue_batch-some q q₁ items n now last v opened taken ends in
      (
        same,
        commit_taken (record q { dequeued_count = q₁.dequeued_count }) q' n last v
            (sym (
                last_offset-items_of q.db q.cfg.stream q.read_offset _ n now
                  (λ i lo hi. v.present i lo (omega (arith, v.ordered))))
              ∙ ap last_offset (sym same)
              ∙ ends)
            (ap (λ p. commit b p last) (sym kept) ∙ done),
      )
