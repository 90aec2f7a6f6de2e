-- ===== src/Queue/Durable/Writes.antt =====
-- What the transactions of the queue do to the log: one value more at the end, or fewer at the front.
use linker_agent.Prelude.{
  ℕ, zero, suc, ◌+◌, ◌-◌, ◌^◌, ◌≤◌, ◌<◌, ◌≡◌, ap, sym, ◌∙◌, List, [], ◌∷◌, ◌++◌, Option, none, some,
  arith, Text, eq_text, eq_text→eq, ◌==◌, u64, drop, drop-append, Bool-cases, inl, inr,
  if◌then◌else◌, ltb, leb, ◌&&◌, ap₂,
}
use linker_agent.Queue.Key.{format_key}
use linker_agent.Queue.Key.Laws.{IsName}
use linker_agent.Queue.Types.{Value, Write, put, after_writes, Badger}
use linker_agent.Queue.Durable.{BadgerQueue, deletes, update_db}
use linker_agent.Queue.Durable.Log.{
  eq_text-format_key, stored, stored_one, IsLog, stored-cong, stored-add, length-stored,
}

-- Deleting `n` keys from `r` on clears these offsets and no other.
after-deletes :
    (s : Text) (r n i : ℕ) (held : Option Value)
    → IsName s
    → i < u64
    → r + n ≤ u64
    → after_writes (deletes s r n) (format_key s i) held
      ≡ (if leb r i && ltb i (r + n) then none else held)
unfolding deletes
after-deletes s r zero i held h lt le = ground arith
after-deletes s r (suc n) i held h lt le = ground (
  arith,
  eq_text-format_key s r i h,
  after-deletes s (r + 1) n i (if eq_text (format_key s r) (format_key s i) then none else held),
)

-- Deletions leave no value that was not there.
deletes_only :
    (s : Text) (r n : ℕ) (k : Text) (held : Option Value) (v : Value)
    → after_writes (deletes s r n) k held ≡ some v
    → held ≡ some v
unfolding deletes
deletes_only s r zero k held v h = h
deletes_only s r (suc n) k held v h =
    ground (arith, deletes_only s (r + 1) n k (if eq_text (format_key s r) k then none else held) v)

module _ (b : Badger) where
  open b use {Db, view, update, update_writes}

  view-deletes :
      (db db' : Db) (s : Text) (r w n i : ℕ)
      → IsLog b db s r w
      → r + n ≤ w
      → update db (deletes s r n) ≡ some db'
      → i < u64
      → view db' (format_key s i)
        ≡ (if leb r i && ltb i (r + n) then none else view db (format_key s i))
  view-deletes db db' s r w n i v le e lt =
      update_writes db db' (deletes s r n) e (format_key s i)
      ∙ after-deletes s r n i (view db (format_key s i)) v.name lt (omega (arith, v.bounded))

  view-put :
      (db db' : Db) (s : Text) (r w i : ℕ) (x : Value)
      → IsLog b db s r w
      → update db (put (format_key s w) x ∷ []) ≡ some db'
      → i < u64
      → view db' (format_key s i) ≡ (if w == i then some x else view db (format_key s i))
  view-put db db' s r w i x v e lt =
      update_writes db db' (put (format_key s w) x ∷ []) e (format_key s i)
      ∙ ap (λ t. if t then some x else view db (format_key s i))
          (eq_text-format_key s w i v.name (omega (arith, v.bounded)) lt)

  -- A transaction that deletes the first `n` offsets of a log leaves the log of the others.
  pub deletes-IsLog :
      (db db' : Db) (s : Text) (r w n : ℕ)
      → IsLog b db s r w
      → r + n ≤ w
      → update db (deletes s r n) ≡ some db'
      → IsLog b db' s (r + n) w
  deletes-IsLog db db' s r w n v le e = record {
    name = v.name;
    ordered = le;
    bounded = v.bounded;
    present = λ o lo hi.
        let (x, held) = v.present o (omega arith) hi in
        let step = view-deletes db db' s r w n o v le e (omega (arith, v.bounded)) in
        (x, ground (arith, step, held));
    only = λ k x held pre.
        let old =
          deletes_only s r n k (view db k) x
            (sym (update_writes db db' (deletes s r n) e k) ∙ held) in
        let (o, lo, hi, same) = v.only k x old pre in
        let step = view-deletes db db' s r w n o v le e (omega (arith, v.bounded)) in
        (o, ground (arith, step, held, lo, ap (view db') same), hi, same);
  }

  -- It drops the first `n` values.
  pub deletes-stored :
      (db db' : Db) (s : Text) (r w n : ℕ)
      → IsLog b db s r w
      → r + n ≤ w
      → update db (deletes s r n) ≡ some db'
      → stored b db' s (r + n) (w - (r + n)) ≡ drop n (stored b db s r (w - r))
  deletes-stored db db' s r w n v le e =
      stored-cong b db db' s (r + n) (w - (r + n))
        (λ i lo hi. ground (arith, view-deletes db db' s r w n i v le e (omega (arith, v.bounded))))
      ∙ sym (
          ap (drop n) (ap (stored b db s r) split ∙ stored-add b db s r n (w - (r + n)))
          ∙ drop-append n (stored b db s r n) _
              (length-stored b db s r n (λ i lo hi. v.present i lo (omega arith))))
    where
      split : w - r ≡ n + (w - (r + n))
      split = omega arith

  -- A transaction that stores a value at the write offset leaves a log that is longer by one.
  pub put-IsLog :
      (db db' : Db) (s : Text) (r w : ℕ) (x : Value)
      → IsLog b db s r w
      → w + 1 < 2 ^ 63
      → update db (put (format_key s w) x ∷ []) ≡ some db'
      → IsLog b db' s r (w + 1)
  put-IsLog db db' s r w x v lt e = record {
    name = v.name;
    ordered = omega (arith, v.ordered);
    bounded = lt;
    present = λ o lo hi.
        let step = view-put db db' s r w o x v e (omega arith) in
        elim (Bool-cases (w == o)) [
          | inl last ↦ (x, rw last at step)
          | inr other ↦
              let (y, held) = v.present o lo (ground arith) in (y, (rw other at step) ∙ held)
        ];
    only = λ k y held pre.
        let step = update_writes db db' (put (format_key s w) x ∷ []) e k in
        elim (Bool-cases (eq_text (format_key s w) k)) [
          | inl last ↦ (w, v.ordered, omega arith, sym (eq_text→eq _ _ last))
          | inr other ↦
              let (o, lo, hi, same) = v.only k y (sym (rw other at step) ∙ held) pre in
              (o, lo, omega (arith, hi), same)
        ];
  }

  -- It appends the value.
  pub put-stored :
      (db db' : Db) (s : Text) (r w : ℕ) (x : Value)
      → IsLog b db s r w
      → update db (put (format_key s w) x ∷ []) ≡ some db'
      → stored b db' s r (w + 1 - r) ≡ stored b db s r (w - r) ++ ((w, x) ∷ [])
  put-stored db db' s r w x v e =
      ap (stored b db' s r) more
      ∙ stored-add b db' s r (w - r) 1
      ∙ ap₂ ◌++◌
          (stored-cong b db db' s r (w - r)
            (λ i lo hi. ground (arith, put_at i, v.bounded, v.ordered)))
          (ap (λ o. stored b db' s o 1) last
            ∙ stored_one b db' s w x (ground (arith, put_at w, v.bounded)))
    where
      put_at :
          (i : ℕ)
          → i < u64
          → view db' (format_key s i) ≡ (if w == i then some x else view db (format_key s i))
      put_at i lt = view-put db db' s r w i x v e lt

      more : w + 1 - r ≡ w - r + 1
      more = omega (arith, v.ordered)

      last : r + (w - r) ≡ w
      last = omega (arith, v.ordered)

  -- A transaction of the queue is one of its database.
  pub update-update_db :
      (q : BadgerQueue Db) (db' : Db) (ws : List Write)
      → update_db b q ws ≡ some db'
      → update q.db ws ≡ some db'
  unfolding update_db
  update-update_db q db' ws h = ground arith
