-- ===== src/Queue/Sample.antt =====
-- A database that meets what the durable queue asks of BadgerDB: an association list of keys.
use mathlib.Core.Option.{some-injective}
use linker_agent.Prelude.{
  ◌≡◌, refl, ap, sym, ◌∙◌, ◌≢◌, true, List, [], ◌∷◌, Option, none, some, arith, Text, eq_text,
  eq_text_refl, eq_text→eq, has_prefix, if◌then◌else◌, Bool-cases, inl, inr, subst,
}
use linker_agent.Queue.Types.{Value, Write, put, delete, after_writes, Among, Badger}

abbrev pub Store : Type 0
Store = List (Text × Value)

abbrev find : Store → Text → Option Value
find [] k = none
find ((j, v) ∷ m) k = if eq_text j k then some v else find m k

abbrev remove : Text → Store → Store
remove j [] = []
remove j ((i, v) ∷ m) = if eq_text i j then remove j m else (i, v) ∷ remove j m

abbrev write : Store → List Write → Store
write m [] = m
write m (put k v ∷ ws) = write ((k, v) ∷ remove k m) ws
write m (delete k ∷ ws) = write (remove k m) ws

abbrev keys_under : Text → Store → List Text
keys_under p [] = []
keys_under p ((j, v) ∷ m) = if has_prefix p j then j ∷ keys_under p m else keys_under p m

abbrev seek_store : Store → Text → Option (Text × Option Value)
seek_store m k = elim (find m k) [ none ↦ none | some v ↦ some (k, some v) ]

find-remove :
    (j k : Text) (m : Store) → find (remove j m) k ≡ (if eq_text j k then none else find m k)
find-remove j k [] = ground arith
find-remove j k ((i, v) ∷ m) = ground (
  arith,
  find-remove j k m,
  eq_text→eq i j,
  eq_text→eq i k,
  eq_text→eq j k,
  eq_text_refl k,
  eq_text_refl j,
)

find-write :
    (m : Store) (ws : List Write) (k : Text) → find (write m ws) k ≡ after_writes ws k (find m k)
find-write m [] k = refl
find-write m (put j v ∷ ws) k =
    find-write ((j, v) ∷ remove j m) ws k
    ∙ ap (after_writes ws k) (ground (arith, find-remove j k m))
find-write m (delete j ∷ ws) k =
    find-write (remove j m) ws k ∙ ap (after_writes ws k) (find-remove j k m)

keys_under-found :
    (p k : Text) (m : Store) (v : Value)
    → find m k ≡ some v
    → has_prefix p k ≡ true
    → Among k (keys_under p m)
keys_under-found p k [] v e h = absurd (cc)
keys_under-found p k ((j, w) ∷ m) v e h = elim (Bool-cases (eq_text j k)) [
  | inl same ↦ let j≡k = eq_text→eq j k same in rw (ap (has_prefix p) j≡k ∙ h) (inl (sym j≡k))
  | inr other ↦
      let rest = keys_under-found p k m v (rw other at e) h in
      elim (Bool-cases (has_prefix p j)) [ inl t ↦ rw t (inr rest) | inr f ↦ rw f rest ]
]

-- What `scan_only` promises of a key.
abbrev IsUnder : Text → Text → Store → Type 0
IsUnder p k m = (has_prefix p k ≡ true) × ((v : Value) × (find m k ≡ some v))

IsUnder-cons : (p k j : Text) (w : Value) (m : Store) → IsUnder p k m → IsUnder p k ((j, w) ∷ m)
IsUnder-cons p k j w m (h, (v, e)) = elim (Bool-cases (eq_text j k)) [
  | inl same ↦ (h, (w, rw same))
  | inr other ↦ (h, (v, rw other e))
]

found-keys_under : (p k : Text) (m : Store) → Among k (keys_under p m) → IsUnder p k m
found-keys_under p k [] a = elim a [ ]
found-keys_under p k ((j, w) ∷ m) a =
    let later = found-keys_under p k m in
    elim (Bool-cases (has_prefix p j)) [
      | inr f ↦ IsUnder-cons p k j w m (later (rw f at a))
      | inl t ↦
          let a' : Among k (j ∷ keys_under p m) = rw t at a in
          elim a' [
            | inl e ↦ rw e (t, (w, rw (eq_text_refl j)))
            | inr r ↦ IsUnder-cons p k j w m (later r)
          ]
    ]

pub seek_present_lem :
    (m : Store) (k : Text) (v : Value) → find m k ≡ some v → seek_store m k ≡ some (k, some v)
seek_present_lem m k v e = rw (e, seek_store)

pub seek_absent_lem :
    (m : Store) (k j : Text) (r : Option Value)
    → find m k ≡ none
    → seek_store m k ≡ some (j, r)
    → j ≢ k
seek_absent_lem m k j r gone e = absurd (ground (arith, gone))

pub write_lem :
    (m m' : Store) (ws : List Write)
    → some (write m ws) ≡ some m'
    → (k : Text) → find m' k ≡ after_writes ws k (find m k)
write_lem m m' ws e k = ap (λ s. find s k) (sym (some-injective _ _ e)) ∙ find-write m ws k

pub present_lem :
    (m : Store) (p : Text) (ks : List Text) (k : Text) (v : Value)
    → some (keys_under p m) ≡ some ks
    → find m k ≡ some v
    → has_prefix p k ≡ true
    → Among k ks
present_lem m p ks k v e f h = subst (Among k) (some-injective _ _ e) (keys_under-found p k m v f h)

pub only_lem :
    (m : Store) (p : Text) (ks : List Text) (k : Text)
    → some (keys_under p m) ≡ some ks
    → Among k ks
    → (has_prefix p k ≡ true) × ((v : Value) × (find m k ≡ some v))
only_lem m p ks k e a = found-keys_under p k m (subst (Among k) (sym (some-injective _ _ e)) a)

-- The database whose directory holds a given store.
abbrev pub sample : Store → Badger
sample disk = record {
  Db = Store;
  open_at = λ path. some disk;
  update = λ m ws. some (write m ws);
  seek = seek_store;
  scan = λ m p. some (keys_under p m);
  view = find;
  seek_present = seek_present_lem;
  seek_absent = seek_absent_lem;
  update_writes = write_lem;
  scan_present = present_lem;
  scan_only = only_lem;
}
