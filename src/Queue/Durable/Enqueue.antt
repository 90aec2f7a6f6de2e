-- ===== src/Queue/Durable/Enqueue.antt =====
-- `Enqueue` against the log: what each outcome does to the stored values.
use linker_agent.Prelude.{
  ℕ, ◌+◌, ◌-◌, ◌^◌, ◌≤◌, ◌<◌, ◌≡◌, refl, ap, sym, ◌∙◌, ◌⊎◌, true, false, List, [], ◌∷◌, ◌++◌, none,
  some, Option-cases, arith, Text, u64, add64, sub64, length, tail, drop_one, Bool-cases, inl, inr,
  if◌then◌else◌, leb, pos, length-append, length-tail, subst, ap₂,
}
use linker_agent.Queue.Key.{format_key}
use linker_agent.Queue.Types.{Value, item, put, Badger, Error, Result, ok, err, is_reject_new}
use linker_agent.Queue.Durable.{
  BadgerQueue, deletes, update_db, check_capacity, drop_oldest, write_item, write_after_drop,
  enqueue,
}
use linker_agent.Queue.Durable.Log.{contents, IsValid, IsLog, length-contents, stored, stored_none}
use linker_agent.Queue.Durable.Writes.{
  deletes-IsLog, deletes-stored, put-IsLog, put-stored, update-update_db,
}

module _ (b : Badger) where
  open b use {Db}

  -- What `dropOldest` does: the oldest value goes, or nothing changes and it fails.
  abbrev Dropped : BadgerQueue Db → BadgerQueue Db × Result (Unit {0}) → Type 0
  Dropped q (q', r) =
      IsValid b q'
      × (q'.write_offset ≡ q.write_offset)
      × (q'.cfg ≡ q.cfg)
      × (q'.closed ≡ q.closed)
      × (((r ≡ ok tt) × (contents b q' ≡ tail (contents b q)))
          ⊎ ((r ≡ err Error.delete_failed) × (q' ≡ q)))

  drop_oldest_lem : (q : BadgerQueue Db) → IsValid b q → Dropped q (drop_oldest b q)
  unfolding drop_oldest deletes
  drop_oldest_lem q v = elim (Bool-cases (leb q.write_offset q.read_offset)) [
    | inl empty ↦
        rw empty (v, refl, refl, refl, inl (refl, nothing empty ∙ sym (ap tail (nothing empty))))
    | inr more ↦ elim (Option-cases (update_db b q (deletes q.cfg.stream q.read_offset 1))) [
      | inl fail ↦ rw (more, fail) (v, refl, refl, refl, inr (refl, refl))
      | inr (db', done) ↦
          let run = update-update_db b q db' _ done in
          rw (more, done)
            (
              subst (λ r. IsLog b db' q.cfg.stream r q.write_offset) next
                  (deletes-IsLog b q.db db' _ _ _ 1 v (ground arith) run),
              refl,
              refl,
              refl,
              inl (
                refl,
                sym (ap (λ r. stored b db' q.cfg.stream r (q.write_offset - r)) next)
                    ∙ deletes-stored b q.db db' _ _ _ 1 v (ground arith) run
                    ∙ drop_one (contents b q),
              ),
            )
    ]
  ]
    where
      nothing : leb q.write_offset q.read_offset ≡ true → contents b q ≡ []
      nothing empty = stored_none b q.db q.cfg.stream _ _ (ground arith)

      next : q.read_offset + 1 ≡ add64 q.read_offset 1
      next = omega (arith, v.ordered, v.bounded)

  -- What the write of `Enqueue` does: the value is appended at the write offset, or nothing changes.
  abbrev Written : BadgerQueue Db → Text → ℕ → BadgerQueue Db × Result (Unit {0}) → Type 0
  Written q bytes now (q', r) =
      IsValid b q'
      × (q'.cfg ≡ q.cfg)
      × (((r ≡ ok tt) × (contents b q' ≡ contents b q ++ ((q.write_offset, item bytes now) ∷ [])))
          ⊎ ((r ≡ err Error.write_failed) × (contents b q' ≡ contents b q)))

  write_item_lem :
      (q : BadgerQueue Db) (bytes : Text) (now : ℕ)
      → IsValid b q
      → q.write_offset + 1 < 2 ^ 63
      → Written q bytes now (write_item b q bytes now)
  unfolding write_item
  write_item_lem q bytes now v room =
      elim (Option-cases
        (update_db b q (put (format_key q.cfg.stream q.write_offset) (item bytes now) ∷ []))) [
          | inl fail ↦ rw (here, write_item, fail, back) (v, refl, inr (refl, refl))
          | inr (db', done) ↦
              let run = update-update_db b q db' _ done in
              rw (here, write_item, done, next)
                (
                  put-IsLog b q.db db' _ _ _ _ v room run,
                  refl,
                  inl (refl, put-stored b q.db db' _ _ _ _ v run),
                )
        ]
    where
      next : add64 q.write_offset 1 ≡ q.write_offset + 1
      next = omega arith

      here : sub64 (add64 q.write_offset 1) 1 ≡ q.write_offset
      here = omega arith

      back : add64 (add64 q.write_offset 1) (u64 - 1) ≡ q.write_offset
      back = omega arith

  check_capacity-none :
      (q : BadgerQueue Db) (m : ℕ)
      → IsValid b q
      → q.cfg.max_events ≡ pos m
      → check_capacity b q ≡ none
      → length (contents b q) < m
  unfolding check_capacity
  check_capacity-none q m v e h = ground (arith, length-contents b q v, v.ordered, v.bounded, e)

  -- The outcomes of `Enqueue`, each with its condition and its effect on the log.
  pub data Outcome (q : BadgerQueue Db) (bytes : Text) (now : ℕ) (q' : BadgerQueue Db)
      (r : Result (Unit {0})) : Type 0 where
    refused_closed :
        q.closed ≡ true → r ≡ err Error.queue_closed → q' ≡ q → Outcome q bytes now q' r
    refused_full :
        (e : Error)
        → check_capacity b q ≡ some e
        → is_reject_new q.cfg.drop_policy ≡ true
        → r ≡ err e
        → q' ≡ q
        → Outcome q bytes now q' r
    appended :
        check_capacity b q ≡ none
        → r ≡ ok tt
        → contents b q' ≡ contents b q ++ ((q.write_offset, item bytes now) ∷ [])
        → Outcome q bytes now q' r
    replaced :
        (e : Error)
        → check_capacity b q ≡ some e
        → is_reject_new q.cfg.drop_policy ≡ false
        → r ≡ ok tt
        → contents b q' ≡ tail (contents b q) ++ ((q.write_offset, item bytes now) ∷ [])
        → Outcome q bytes now q' r
    not_written :
        r ≡ err Error.write_failed → contents b q' ≡ contents b q → Outcome q bytes now q' r
    not_deleted :
        r ≡ err (Error.drop_failed Error.delete_failed) → q' ≡ q → Outcome q bytes now q' r
    only_dropped :
        (e : Error)
        → check_capacity b q ≡ some e
        → is_reject_new q.cfg.drop_policy ≡ false
        → r ≡ err Error.write_failed
        → contents b q' ≡ tail (contents b q)
        → Outcome q bytes now q' r

  abbrev pub Enqueued : BadgerQueue Db → Text → ℕ → BadgerQueue Db × Result (Unit {0}) → Type 0
  Enqueued q bytes now (q', r) = IsValid b q' × (q'.cfg ≡ q.cfg) × Outcome q bytes now q' r

  write_after_drop_lem :
      (q : BadgerQueue Db) (bytes : Text) (now : ℕ) (e : Error)
      → check_capacity b q ≡ some e
      → is_reject_new q.cfg.drop_policy ≡ false
      → q.write_offset + 1 < 2 ^ 63
      → (d : BadgerQueue Db × Result (Unit {0})) → Dropped q d
      → Enqueued q bytes now (write_after_drop b d bytes now)
  unfolding write_after_drop
  write_after_drop_lem q bytes now e full keep room (q', ok _) (v, w, c, _, o) =
      let (v', c', o') = write_item_lem q' bytes now v (omega arith) in
      (
        v',
        c' ∙ c,
        elim o [
          | inr (bad, _) ↦ absurd (cc)
          | inl (_, cut) ↦ elim o' [
            | inl (done, more) ↦
                Outcome.replaced e full keep done
                  (more ∙ ap₂ (λ l n. l ++ ((n, item bytes now) ∷ [])) cut w)
            | inr (fail, same) ↦ Outcome.only_dropped e full keep fail (same ∙ cut)
          ]
        ],
      )
  write_after_drop_lem q bytes now e full keep room (q', err x) (v, w, c, _, o) = (
    v,
    c,
    elim o [ inl (bad, _) ↦ absurd (cc) | inr (fail, same) ↦ Outcome.not_deleted (cc) same ],
  )

  enqueue_closed :
      (q : BadgerQueue Db) (bytes : Text) (now : ℕ)
      → q.closed ≡ true
      → enqueue b q bytes now ≡ (q, err Error.queue_closed)
  unfolding enqueue
  enqueue_closed q bytes now h = ground (arith, h)

  enqueue_open :
      (q : BadgerQueue Db) (bytes : Text) (now : ℕ)
      → q.closed ≡ false
      → enqueue b q bytes now ≡ elim (check_capacity b q) [
        | none ↦ write_item b q bytes now
        | some e ↦
            if is_reject_new q.cfg.drop_policy
            then (q, err e)
            else write_after_drop b (drop_oldest b q) bytes now
      ]
  unfolding enqueue
  enqueue_open q bytes now h = simp h

  -- `Enqueue` on a valid queue with room for one more offset keeps the queue valid and its
  -- configuration as it is, and has one of the outcomes listed by `Outcome`: an error that leaves
  -- the queue as it was (closed, full under `reject_new`, a failed deletion), the item appended
  -- after all others, the item appended after the oldest was dropped, or a failed write, which
  -- leaves the log as it was or without the oldest item if that was dropped first.
  pub enqueue_lem :
      (q : BadgerQueue Db) (bytes : Text) (now : ℕ)
      → IsValid b q
      → q.write_offset + 1 < 2 ^ 63
      → Enqueued q bytes now (enqueue b q bytes now)
  enqueue_lem q bytes now v room = elim (Bool-cases q.closed) [
    | inl shut ↦
        rw (enqueue_closed q bytes now shut) (v, refl, Outcome.refused_closed shut refl refl)
    | inr opened ↦ elim (Option-cases (check_capacity b q)) [
      | inl fits ↦
          let (v', c, o) = write_item_lem q bytes now v room in
          rw (enqueue_open q bytes now opened, fits)
            (
              v',
              c,
              elim o [
                | inl (done, more) ↦ Outcome.appended fits done more
                | inr (fail, same) ↦ Outcome.not_written fail same
              ],
            )
      | inr (e, full) ↦ elim (Bool-cases (is_reject_new q.cfg.drop_policy)) [
        | inl reject ↦
            rw (enqueue_open q bytes now opened, full, reject)
              (v, refl, Outcome.refused_full e full reject refl refl)
        | inr keep ↦
            rw (enqueue_open q bytes now opened, full, keep)
              (write_after_drop_lem q bytes now e full keep room (drop_oldest b q)
                (drop_oldest_lem q v))
      ]
    ]
  ]

  -- A valid queue, with a write offset that stays below 2 ^ 63, that holds at most its configured
  -- number of events, at least one, does so after a call of `Enqueue` too.
  pub length-enqueue-le :
      (q : BadgerQueue Db) (bytes : Text) (now m : ℕ)
      → IsValid b q
      → q.write_offset + 1 < 2 ^ 63
      → q.cfg.max_events ≡ pos m
      → 0 < m
      → length (contents b q) ≤ m
      → length (contents b (enqueue b q bytes now).0) ≤ m
  length-enqueue-le q bytes now m v room e pos_m le = bound (enqueue_lem q bytes now v room).2
    where
      last : List (ℕ × Value)
      last = (q.write_offset, item bytes now) ∷ []

      bound :
          {q' : BadgerQueue Db} {r : Result (Unit {0})}
          → Outcome q bytes now q' r
          → length (contents b q') ≤ m
      bound (Outcome.refused_closed _ _ same) = rw same le
      bound (Outcome.refused_full x _ _ _ same) = rw same le
      bound (Outcome.appended fits _ more) =
          rw (more, length-append (contents b q) last)
            (omega (arith, check_capacity-none q m v e fits))
      bound (Outcome.replaced x _ _ _ more) =
          rw (more, length-append (tail (contents b q)) last)
            (omega (arith, length-tail (contents b q)))
      bound (Outcome.not_written _ same) = rw same le
      bound (Outcome.not_deleted _ same) = rw same le
      bound (Outcome.only_dropped x _ _ _ cut) = rw cut (omega (arith, length-tail (contents b q)))
