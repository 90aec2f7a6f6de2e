-- ===== src/Queue/Types.antt =====
-- internal/queue/queue.go: items, configuration and errors; and BadgerDB as the queue uses it.
use linker_agent.Prelude.{
  ℕ, ◌≡◌, ◌≢◌, ◌⊎◌, inl, inr, refl, Bool, true, List, [], ◌∷◌, Option, none, some, Text, ℤ, eq_text,
  has_prefix, if◌then◌else◌,
}

-- A time is a number of nanoseconds.
pub record QueueItem : Type 0 where
  pub offset : ℕ
  pub bytes : Text
  pub enqueued_at : ℕ

-- `unspecified` is the empty string; `unknown` is any other text.
pub data DropPolicy : Type 0 where
  unspecified drop_oldest reject_new unknown : DropPolicy

abbrev pub is_reject_new : DropPolicy → Bool
is_reject_new DropPolicy.reject_new = true
is_reject_new _ = Bool.false

pub record Config : Type 0 where
  pub stream : Text
  pub wal_path : Text
  pub max_bytes : ℤ
  pub max_events : ℤ
  pub drop_policy : DropPolicy

pub data Error : Type 0 where
  queue_full queue_closed invalid_offset : Error
  wal_path_required open_failed recovery_failed : Error
  write_failed dequeue_failed commit_failed delete_failed : Error
  drop_failed : Error → Error
  dlq_not_configured dlq_item_to_dlq dlq_unsupported failed_after_drop : Error
  dlq_enqueue_failed : Error → Error

pub data Result {ℓ} (A : Type ℓ) : Type ℓ where
  ok : A → Result A
  err : Error → Result A

pub Result-cases {ℓ} :
    {A : Type ℓ} (r : Result A) → ((a : A) × (r ≡ ok a)) ⊎ ((e : Error) × (r ≡ err e))
Result-cases (ok a) = inl (a, refl)
Result-cases (err e) = inr (e, refl)

-- What a key holds: the JSON of `{data, enqueued_at}`, represented by its two fields, or bytes that
-- are no such JSON. `json.Marshal` of the former does not fail.
pub data Value : Type 0 where
  item : Text → ℕ → Value
  raw : Text → Value

pub data Write : Type 0 where
  put : Text → Value → Write
  delete : Text → Write

-- What a key holds after the writes, if it held the given value before.
abbrev pub after_writes : List Write → Text → Option Value → Option Value
after_writes [] k held = held
after_writes (put j v ∷ ws) k held = after_writes ws k (if eq_text j k then some v else held)
after_writes (delete j ∷ ws) k held = after_writes ws k (if eq_text j k then none else held)

-- One of the keys is this one.
abbrev pub Among : Text → List Text → Type 0
Among k [] = ⊥
Among k (j ∷ js) = (k ≡ j) ⊎ Among k js

-- BadgerDB. `update` runs one read-write transaction, `none` if it fails; a missing key is no
-- failure of a delete. `seek` gives the first key from the given one on, with its value (`none` if
-- the value cannot be read). `scan` lists the keys that an iterator visits for a prefix. `view` is
-- the content of the database, of which the laws speak; they take every value of it to be readable.
pub record Badger : Type 1 where
  pub Db : Type 0
  pub open_at : Text → Option Db
  pub update : Db → List Write → Option Db
  pub seek : Db → Text → Option (Text × Option Value)
  pub scan : Db → Text → Option (List Text)
  pub view : Db → Text → Option Value
  pub seek_present :
      (db : Db) (k : Text) (v : Value) → view db k ≡ some v → seek db k ≡ some (k, some v)
  pub seek_absent :
      (db : Db) (k j : Text) (r : Option Value) → view db k ≡ none → seek db k ≡ some (j, r) → j ≢ k
  pub update_writes :
      (db db' : Db) (ws : List Write)
      → update db ws ≡ some db'
      → (k : Text) → view db' k ≡ after_writes ws k (view db k)
  pub scan_present :
      (db : Db) (p : Text) (ks : List Text) (k : Text) (v : Value)
      → scan db p ≡ some ks
      → view db k ≡ some v
      → has_prefix p k ≡ true
      → Among k ks
  pub scan_only :
      (db : Db) (p : Text) (ks : List Text) (k : Text)
      → scan db p ≡ some ks
      → Among k ks
      → (has_prefix p k ≡ true) × ((v : Value) × (view db k ≡ some v))
