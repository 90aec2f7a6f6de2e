-- ===== src/Queue/Durable/Recovery.antt =====
-- `recover`: a queue that is opened again on its database has the contents that it had.
use linker_agent.Prelude.{
  ℕ, ◌+◌, ◌-◌, ◌^◌, ◌≤◌, ◌<◌, ◌≡◌, refl, ap, sym, ◌∙◌, false, List, [], ◌∷◌, ◌++◌, some, arith,
  Text, Bool-cases, inl, inr, ltb, eq_text,
}
use linker_agent.Queue.Key.{format_key, parse_offset_from_key}
use linker_agent.Queue.Key.Laws.{parse_offset_from_key-format_key, has_prefix-format_key}
use linker_agent.Queue.Types.{Badger, Among, Config, ok}
use linker_agent.Queue.Durable.{
  BadgerQueue, Range, widen, range_of, no_keys, resume, fresh_queue, recover, default_config,
  new_badger_queue,
}
use linker_agent.Queue.Durable.Log.{contents, IsValid, IsLog, stored_none}

-- All keys have offsets from `lo` to below `hi`.
abbrev InBounds : ℕ → ℕ → List Text → Type 0
InBounds lo hi ks =
    (k : Text) → Among k ks → (o : ℕ) × (parse_offset_from_key k ≡ some o) × (lo ≤ o) × (o < hi)

-- The range of the keys lies within their bounds.
range_of-bounds :
    (ks : List Text) (r : Range) (lo hi : ℕ)
    → InBounds lo hi ks
    → lo ≤ r.least
    → r.greatest < hi
    → (lo ≤ (range_of ks r).least) × ((range_of ks r).greatest < hi)
unfolding range_of widen
range_of-bounds [] r lo hi h p q = (p, q)
range_of-bounds (k ∷ ks) r lo hi h p q =
    let (o, parsed, above, below) = h k (inl refl) in
    let r' = widen (parse_offset_from_key k) r in
    range_of-bounds ks r' lo hi (λ j m. h j (inr m)) (ground (arith, parsed))
      (ground (arith, parsed))

-- Further keys only widen a range.
range_of-widens :
    (ks : List Text) (r : Range)
    → ((range_of ks r).least ≤ r.least)
      × (r.greatest ≤ (range_of ks r).greatest)
      × (r.count ≤ (range_of ks r).count)
unfolding range_of widen
range_of-widens [] r = omega arith
range_of-widens (k ∷ ks) r = ground (arith, range_of-widens ks (widen (parse_offset_from_key k) r))

-- A range holds the offset of each of its keys.
range_of-holds :
    (ks : List Text) (r : Range) (k : Text) (o : ℕ)
    → Among k ks
    → parse_offset_from_key k ≡ some o
    → ((range_of ks r).least ≤ o) × (o ≤ (range_of ks r).greatest) × (0 < (range_of ks r).count)
unfolding range_of widen
range_of-holds [] r k o m e = elim m [ ]
range_of-holds (j ∷ ks) r k o (inl same) e =
    ground
      (arith, ap parse_offset_from_key same, range_of-widens ks (widen (parse_offset_from_key j) r))
range_of-holds (j ∷ ks) r k o (inr m) e =
    range_of-holds ks (widen (parse_offset_from_key j) r) k o m e

-- Keys with no room for an offset are none.
no_keys_lem : (ks : List Text) (lo hi : ℕ) → InBounds lo hi ks → hi ≤ lo → ks ≡ []
no_keys_lem [] lo hi h le = refl
no_keys_lem (k ∷ ks) lo hi h le = let (o, _, above, below) = h k (inl refl) in absurd (omega arith)

stream-default_config : (cfg : Config) → (default_config cfg).stream ≡ cfg.stream
unfolding default_config
stream-default_config cfg = refl

module _ (b : Badger) where
  open b use {Db, view, scan}

  -- The keys that recovery visits in the database of a log.
  scan-InBounds :
      (db : Db) (s : Text) (r w : ℕ) (keys : List Text)
      → IsLog b db s r w
      → scan db (s ++ (b':' ∷ [])) ≡ some keys
      → InBounds r w keys
  scan-InBounds db s r w keys v e k m =
      let (pre, (x, held)) = b.scan_only db _ keys k e m in
      let (o, lo, hi, same) = v.only k x held pre in
      (
        o,
        ap parse_offset_from_key same
            ∙ parse_offset_from_key-format_key s o v.name (omega (arith, v.bounded)),
        lo,
        hi,
      )

  -- The range of these keys is the log's.
  range_of-log :
      (db : Db) (s : Text) (r w : ℕ) (keys : List Text)
      → IsLog b db s r w
      → scan db (s ++ (b':' ∷ [])) ≡ some keys
      → r < w
      → ((range_of keys no_keys).least ≡ r)
        × ((range_of keys no_keys).greatest + 1 ≡ w)
        × (0 < (range_of keys no_keys).count)
  range_of-log db s r w keys v e more =
      let (lo, hi) =
        range_of-bounds keys no_keys r w (scan-InBounds db s r w keys v e)
          (omega (arith, v.bounded)) (omega arith) in
      let (lo₁, _, some_key) = held_at r (omega arith) more in
      let (_, hi₁, _) = held_at (w - 1) (omega arith) (omega arith) in
      (omega arith, omega arith, some_key)
    where
      held_at :
          (o : ℕ)
          → r ≤ o
          → o < w
          → ((range_of keys no_keys).least ≤ o)
            × (o ≤ (range_of keys no_keys).greatest)
            × (0 < (range_of keys no_keys).count)
      held_at o lo hi =
          let (x, held) = v.present o lo hi in
          range_of-holds keys no_keys (format_key s o) o
            (b.scan_present db _ keys _ x e held (has_prefix-format_key s o))
            (parse_offset_from_key-format_key s o v.name (omega (arith, v.bounded)))

  -- What a recovered queue has in common with the one whose database it opened.
  abbrev Recovered : BadgerQueue Db → BadgerQueue Db → Type 0
  Recovered q q' = IsValid b q' × (contents b q' ≡ contents b q)

  resume_some :
      (cfg : Config) (db : Db) (range : Range) (r w : ℕ)
      → w < 2 ^ 63
      → (range.least ≡ r) × (range.greatest + 1 ≡ w) × (0 < range.count)
      → resume (fresh_queue cfg db) range
        ≡ record (fresh_queue cfg db) { read_offset = r; write_offset = w }
  unfolding resume fresh_queue
  resume_some cfg db range r w lt e = ground arith

  resume_none : (cfg : Config) (db : Db) → resume (fresh_queue cfg db) no_keys ≡ fresh_queue cfg db
  unfolding resume fresh_queue
  resume_none cfg db = refl

  -- With no offset to recover both counters restart at 0.
  empty-IsLog : (db : Db) (s : Text) (r w : ℕ) → IsLog b db s r w → w ≤ r → IsLog b db s 0 0
  empty-IsLog db s r w v le = record {
    name = v.name;
    ordered = omega arith;
    bounded = omega arith;
    present = λ o lo hi. absurd (omega arith);
    only = λ k x held pre. let (o, lo, hi, same) = v.only k x held pre in absurd (omega arith);
  }

  resume-Recovered :
      (q : BadgerQueue Db) (cfg : Config) (keys : List Text)
      → IsValid b q
      → cfg.stream ≡ q.cfg.stream
      → scan q.db (q.cfg.stream ++ (b':' ∷ [])) ≡ some keys
      → Recovered q (resume (fresh_queue cfg q.db) (range_of keys no_keys))
  unfolding range_of fresh_queue
  resume-Recovered q cfg keys v name e = elim (Bool-cases (ltb r w)) [
    | inl more ↦
        rw
          (resume_some cfg q.db (range_of keys no_keys) r w v.bounded
            (range_of-log q.db q.cfg.stream r w keys v e (ground arith)))
          (rw name (v, refl))
    | inr empty ↦
        let none_left =
          no_keys_lem keys r w (scan-InBounds q.db q.cfg.stream r w keys v e) (ground arith) in
        rw (none_left, resume_none cfg q.db)
          (rw name (
            empty-IsLog q.db q.cfg.stream r w v (ground arith),
            stored_none b q.db _ 0 _ (omega arith) ∙ sym (stored_none b q.db _ r _ (ground arith)),
          ))
  ]
    where
      r : ℕ
      r = q.read_offset

      w : ℕ
      w = q.write_offset

  -- A queue that is opened on the database that a valid queue of the same stream left, where
  -- BadgerDB opens the directory and lists the stream's keys, is valid and has the same contents,
  -- whatever the counters were when the agent stopped.
  pub new_badger_queue-Recovered :
      (q : BadgerQueue Db) (cfg : Config) (keys : List Text)
      → IsValid b q
      → cfg.stream ≡ q.cfg.stream
      → eq_text cfg.wal_path [] ≡ false
      → b.open_at cfg.wal_path ≡ some q.db
      → scan q.db (q.cfg.stream ++ (b':' ∷ [])) ≡ some keys
      → (q' : BadgerQueue Db) × (new_badger_queue b cfg ≡ ok q')
        × (IsValid b q' × (contents b q' ≡ contents b q))
  unfolding new_badger_queue recover fresh_queue
  new_badger_queue-Recovered q cfg keys v name path opened listed =
      let cfg' = default_config cfg in
      let name' : cfg'.stream ≡ q.cfg.stream = stream-default_config cfg ∙ name in
      let listed' : scan q.db (cfg'.stream ++ (b':' ∷ [])) ≡ some keys = rw name' listed in
      (
        resume (fresh_queue cfg' q.db) (range_of keys no_keys),
        rw (path, opened, new_badger_queue, listed'),
        resume-Recovered q cfg' keys v name' listed,
      )
