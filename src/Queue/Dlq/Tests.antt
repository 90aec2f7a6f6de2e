-- ===== src/Queue/Dlq/Tests.antt =====
-- The dead letter queue at concrete inputs, and the theorems about it applied there.
use linker_agent.Prelude.{
  ℕ, zero, suc, ◌≡◌, refl, ap, false, [], ◌∷◌, ◌++◌, Option, none, some, Text, codes, pos, arith,
  length, take, drop, eq_text, has_prefix,
}
use linker_agent.Queue.Key.{digits, format_key}
use linker_agent.Queue.Types.{DropPolicy, Config, raw, Badger, QueueItem}
use linker_agent.Queue.Sample.{Store, sample}
use linker_agent.Queue.Durable.{
  BadgerQueue, to_item, last_offset, deletes, take_value, update_db, depth, approximate_bytes_used,
  check_capacity, drop_oldest, write_item, write_after_drop, enqueue, collect, dequeue_batch,
  commit,
}
use linker_agent.Queue.Durable.Log.{IsValid, stored}
use linker_agent.Queue.Durable.Enqueue.{enqueue_lem}
use linker_agent.Queue.Dlq.{DlqEntry, Codec, stream_dlq, move_to_dlq, purge, purge_older_than}
use linker_agent.Queue.Dlq.Laws.{entry_of, Moved, move_to_dlq_lem, purge_older_than-none}

-- A code of entries: each text behind its length.
field : Text → Text → Text
field t rest = length t ∷ (t ++ rest)

read_field : Text → Text × Text
read_field [] = ([], [])
read_field (n ∷ t) = (take n t, drop n t)

abbrev encode : DlqEntry → Text
encode e =
    1
    ∷ e.first_attempt_at
    ∷ e.last_attempt_at
    ∷ e.attempt_count
    ∷ e.http_status_code
    ∷ field e.original_event (field e.stream (field e.reason (field e.error_message [])))

abbrev decode_fields : ℕ → ℕ → ℕ → ℕ → Text → DlqEntry
decode_fields f l a h t =
    let (event, t₁) = read_field t in
    let (stream, t₂) = read_field t₁ in
    let (reason, t₃) = read_field t₂ in
    let (message, _) = read_field t₃ in
    record {
      original_event = event;
      stream = stream;
      reason = reason;
      error_message = message;
      first_attempt_at = f;
      last_attempt_at = l;
      attempt_count = a;
      http_status_code = h;
    }

abbrev decode : Text → Option DlqEntry
decode (suc zero ∷ f ∷ l ∷ a ∷ h ∷ t) = some (decode_fields f l a h t)
decode _ = none

abbrev codec : Codec
codec = record { marshal = encode; unmarshal = decode }

abbrev config : Text → Config
config name = record {
  stream = name;
  wal_path = codes "/var/lib";
  max_bytes = pos 1000000;
  max_events = pos 10;
  drop_policy = DropPolicy.drop_oldest;
}

abbrev disk : Badger
disk = sample []

-- An empty queue of a stream.
abbrev fresh : Text → BadgerQueue Store
fresh name = record {
  cfg = config name;
  db = [];
  write_offset = 0;
  read_offset = 0;
  dropped_count = 0;
  enqueued_count = 0;
  dequeued_count = 0;
  committed_count = 0;
  closed = false;
}

billing-IsValid : IsValid disk (fresh (codes "billing"))
billing-IsValid = record {
  name = ground arith;
  ordered = omega arith;
  bounded = omega arith;
  present = λ o lo hi. absurd (omega arith);
  only = λ k v held pre. absurd (cc);
}

dlq-IsValid : IsValid disk (fresh stream_dlq)
dlq-IsValid = record {
  name = ground arith;
  ordered = omega arith;
  bounded = omega arith;
  present = λ o lo hi. absurd (omega arith);
  only = λ k v held pre. absurd (cc);
}

-- What a test has to compute with.
program : Unit {0}
unfolding digits format_key eq_text has_prefix to_item last_offset deletes take_value update_db
    depth approximate_bytes_used check_capacity drop_oldest write_item write_after_drop enqueue
    collect dequeue_batch commit stored move_to_dlq purge
program = tt

-- A queue with one item.
abbrev one : BadgerQueue Store
unfolding program
one = (enqueue disk (fresh (codes "billing")) (codes "a") 10).0

one-IsValid : IsValid disk one
unfolding program
one-IsValid =
    (enqueue_lem disk (fresh (codes "billing")) (codes "a") 10 billing-IsValid (omega arith)).0

abbrev first : QueueItem
first = record { offset = 0; bytes = codes "a"; enqueued_at = 10 }

move_to_dlq_lem_example :
    let bytes = encode (entry_of one.cfg.stream first (codes "bad") (codes "no org") 20) in
    Moved disk codec one
      (fresh stream_dlq)
      0
      bytes
      20
      (move_to_dlq disk codec one (some (fresh stream_dlq)) first (codes "bad") (codes "no org") 20)
unfolding program
move_to_dlq_lem_example =
    move_to_dlq_lem disk codec one (fresh stream_dlq) first (codes "bad") (codes "no org") 20
      one-IsValid dlq-IsValid refl (omega arith) (omega arith)

-- A database in which every key holds bytes that are no entry.
abbrev unreadable : Badger
unreadable = record {
  Db = Unit {0};
  open_at = λ path. none;
  update = λ db ws. none;
  seek = λ db k. some (k, some (raw []));
  scan = λ db p. none;
  view = λ db k. some (raw []);
  seek_present = λ db k v e. ap (λ o. some (k, o)) e;
  seek_absent = λ db k j r e. absurd (cc);
  update_writes = λ db db' ws e. absurd (cc);
  scan_present = λ db p ks k v e. absurd (cc);
  scan_only = λ db p ks k e. absurd (cc);
}

abbrev hundred : BadgerQueue (Unit {0})
hundred = record {
  cfg = config stream_dlq;
  db = tt;
  write_offset = 100;
  read_offset = 0;
  dropped_count = 0;
  enqueued_count = 0;
  dequeued_count = 0;
  committed_count = 0;
  closed = false;
}

purge_older_than-none_example : purge_older_than unreadable codec 50 hundred 1000 5000 0 ≡ none
unfolding stored to_item
purge_older_than-none_example =
    purge_older_than-none unreadable codec 50 hundred 1000 5000 0 refl (omega arith) (omega arith)
