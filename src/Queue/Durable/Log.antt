-- ===== src/Queue/Durable/Log.antt =====
-- The log that a durable queue stands for: its stored values in the order of their offsets.
use linker_agent.Prelude.{
  ℕ, zero, suc, ◌+◌, ◌-◌, ◌^◌, ◌≤◌, ◌<◌, ◌≡◌, refl, ap, true, List, [], ◌∷◌, ◌++◌, none, some,
  Option-cases, arith, Text, has_prefix, eq_text, eq_text_refl, eq_text_ne, ◌==◌, u64, length,
  Bool-cases, inl, inr, ap₂,
}
use linker_agent.Queue.Key.{format_key}
use linker_agent.Queue.Key.Laws.{IsName, format_key_injective, has_prefix-format_key}
use linker_agent.Queue.Types.{Value, Badger}
use linker_agent.Queue.Durable.{BadgerQueue}

-- Two keys of a stream are the same text when their offsets are equal.
pub eq_text-format_key :
    (s : Text) (i j : ℕ)
    → IsName s
    → i < u64
    → j < u64
    → eq_text (format_key s i) (format_key s j) ≡ (i == j)
eq_text-format_key s i j h hi hj = elim (Bool-cases (i == j)) [
  | inl e ↦ ground (arith, ap (format_key s) (same e), eq_text_refl (format_key s i))
  | inr e ↦ rw e (eq_text_ne _ _ (λ k. ground (arith, format_key_injective s i j h hi hj k)))
]
  where
    same : (i == j) ≡ true → i ≡ j
    same e = ground arith

module _ (b : Badger) where
  open b use {Db, view}

  -- The values under `n` offsets from `o` on, each with its offset.
  unfoldable pub stored : Db → Text → (o n : ℕ) → List (ℕ × Value)
  stored db s o zero = []
  stored db s o (suc n) =
      let rest = stored db s (o + 1) n in
      elim (view db (format_key s o)) [ none ↦ rest | some v ↦ (o, v) ∷ rest ]

  abbrev pub contents : BadgerQueue Db → List (ℕ × Value)
  contents q = stored q.db q.cfg.stream q.read_offset (q.write_offset - q.read_offset)

  -- Every offset from `r` up to `w` holds a value, and the database holds nothing else of the
  -- stream. The offsets stay below 2^63.
  pub record IsLog (db : Db) (s : Text) (r w : ℕ) : Type 0 where
    pub name : IsName s
    pub ordered : r ≤ w
    pub bounded : w < 2 ^ 63
    pub present : (o : ℕ) → r ≤ o → o < w → (v : Value) × (view db (format_key s o) ≡ some v)
    pub only :
        (k : Text) (v : Value)
        → view db k ≡ some v
        → has_prefix (s ++ (b':' ∷ [])) k ≡ true
        → (o : ℕ) × (r ≤ o) × (o < w) × (k ≡ format_key s o)

  abbrev pub IsValid : BadgerQueue Db → Type 0
  IsValid q = IsLog q.db q.cfg.stream q.read_offset q.write_offset

  pub stored-cong :
      (db db' : Db) (s : Text) (o n : ℕ)
      → ((i : ℕ) → o ≤ i → i < o + n → view db' (format_key s i) ≡ view db (format_key s i))
      → stored db' s o n ≡ stored db s o n
  unfolding stored
  stored-cong db db' s o zero h = refl
  stored-cong db db' s o (suc n) h = ground (
    arith,
    h o (omega arith) (omega arith),
    stored-cong db db' s (o + 1) n (λ i p q. h i (omega arith) (omega arith)),
  )

  pub stored-add :
      (db : Db) (s : Text) (o n m : ℕ)
      → stored db s o (n + m) ≡ stored db s o n ++ stored db s (o + n) m
  unfolding stored
  stored-add db s o zero m = ap₂ (stored db s) (omega arith) (omega arith)
  stored-add db s o (suc n) m =
      let more : suc n + m ≡ suc (n + m) = omega arith in
      let shift : o + suc n ≡ o + 1 + n = omega arith in
      rw (more, shift) (ground (arith, stored-add db s (o + 1) n m))

  pub stored_none : (db : Db) (s : Text) (o n : ℕ) → n ≡ 0 → stored db s o n ≡ []
  unfolding stored
  stored_none db s o n h = ap (stored db s o) h

  pub stored_one :
      (db : Db) (s : Text) (o : ℕ) (v : Value)
      → view db (format_key s o) ≡ some v
      → stored db s o 1 ≡ (o, v) ∷ []
  unfolding stored
  stored_one db s o v h = ground (arith, h)

  pub length-stored :
      (db : Db) (s : Text) (o n : ℕ)
      → ((i : ℕ) → o ≤ i → i < o + n → (v : Value) × (view db (format_key s i) ≡ some v))
      → length (stored db s o n) ≡ n
  unfolding stored
  length-stored db s o zero h = refl
  length-stored db s o (suc n) h = ground (
    arith,
    h o (omega arith) (omega arith),
    length-stored db s (o + 1) n (λ i p q. h i (omega arith) (omega arith)),
  )

  -- Outside its offsets the log holds nothing.
  pub view_outside :
      (db : Db) (s : Text) (r w o : ℕ)
      → IsLog db s r w
      → o < u64
      → ((r ≤ o) × (o < w) → ⊥)
      → view db (format_key s o) ≡ none
  view_outside db s r w o v lt out = elim (Option-cases (view db (format_key s o))) [
    | inl e ↦ e
    | inr (x, e) ↦
        let (o', lo, hi, k) = v.only _ x e (has_prefix-format_key s o) in
        let bound : o' < u64 = omega (arith, v.bounded) in
        let same : o ≡ o' = format_key_injective s o o' v.name lt bound k in
        absurd (out (omega arith, omega arith))
  ]

  pub length-contents :
      (q : BadgerQueue Db) → IsValid q → length (contents q) ≡ q.write_offset - q.read_offset
  length-contents q v =
      length-stored q.db q.cfg.stream q.read_offset _
        (λ i p r. v.present i p (omega (arith, v.ordered)))
