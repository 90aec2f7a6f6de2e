-- ===== src/Queue/Tests.antt =====
-- The queues at concrete inputs, and the theorems about them applied there.
use linker_agent.Prelude.{
  ◌≡◌, refl, [], ◌∷◌, some, codes, pos, arith, length, take, drop, eq_text, has_prefix, ◌≤◌,
}
use linker_agent.Queue.Key.{digits, format_key, parse_offset_from_key}
use linker_agent.Queue.Key.Laws.{parse_offset_from_key-format_key}
use linker_agent.Queue.Types.{DropPolicy, Config, ok, item, Badger}
use linker_agent.Queue.Sample.{Store, sample}
use linker_agent.Queue.Durable.{
  BadgerQueue, to_item, last_offset, deletes, default_config, widen, range_of, take_value,
  fresh_queue, resume, update_db, depth, approximate_bytes_used, check_capacity, drop_oldest,
  write_item, write_after_drop, enqueue, collect, dequeue_batch, commit, recover, new_badger_queue,
}
use linker_agent.Queue.Durable.Log.{contents, IsValid, stored}
use linker_agent.Queue.Durable.Enqueue.{Enqueued, enqueue_lem, length-enqueue-le}
use linker_agent.Queue.Durable.Batch.{
  items_of, Committed, commit_lem, contents-commit-dequeue_batch,
}
use linker_agent.Queue.Durable.Recovery.{new_badger_queue-Recovered}

-- What a test has to compute with.
program : Unit {0}
unfolding digits format_key eq_text has_prefix to_item last_offset deletes default_config widen
    range_of take_value fresh_queue resume update_db depth approximate_bytes_used check_capacity
    drop_oldest write_item write_after_drop enqueue collect dequeue_batch commit recover
    new_badger_queue stored
program = tt

abbrev billing : Config
billing = record {
  stream = codes "billing";
  wal_path = codes "/var/lib";
  max_bytes = pos 1000000;
  max_events = pos 2;
  drop_policy = DropPolicy.drop_oldest;
}

abbrev disk : Badger
disk = sample []

-- An empty queue.
abbrev q0 : BadgerQueue Store
unfolding program
q0 = fresh_queue billing []

q0-IsValid : IsValid disk q0
unfolding program
q0-IsValid = record {
  name = ground arith;
  ordered = omega arith;
  bounded = omega arith;
  present = λ o lo hi. absurd (omega arith);
  only = λ k v held pre. absurd (cc);
}

-- One item, and two.
abbrev q1 : BadgerQueue Store
unfolding program
q1 = (enqueue disk q0 (codes "a") 10).0

abbrev q2 : BadgerQueue Store
unfolding program
q2 = (enqueue disk q1 (codes "b") 11).0

q1-IsValid : IsValid disk q1
unfolding program
q1-IsValid = (enqueue_lem disk q0 (codes "a") 10 q0-IsValid (omega arith)).0

q2-IsValid : IsValid disk q2
unfolding program
q2-IsValid = (enqueue_lem disk q1 (codes "b") 11 q1-IsValid (omega arith)).0

parse_offset_from_key-format_key_example :
    parse_offset_from_key (format_key (codes "billing") 123) ≡ some 123
parse_offset_from_key-format_key_example =
    parse_offset_from_key-format_key (codes "billing") 123 (ground arith) (omega arith)

enqueue_lem_example : Enqueued disk q2 (codes "c") 12 (enqueue disk q2 (codes "c") 12)
unfolding program
enqueue_lem_example = enqueue_lem disk q2 (codes "c") 12 q2-IsValid (omega arith)

-- The full queue gave up its oldest item.
third :
    contents disk (enqueue disk q2 (codes "c") 12).0
    ≡ (1, item (codes "b") 11) ∷ (2, item (codes "c") 12) ∷ []
unfolding program
third = refl

length-enqueue-le_example : length (contents disk (enqueue disk q2 (codes "c") 12).0) ≤ 2
unfolding program
length-enqueue-le_example =
    length-enqueue-le disk q2 (codes "c") 12 2 q2-IsValid (omega arith) refl (omega arith)
      (omega arith)

commit_lem_example : Committed disk q2 0 (commit disk q2 0)
unfolding program
commit_lem_example = commit_lem disk q2 0 q2-IsValid (omega arith)

contents-commit-dequeue_batch_example :
    let q₁ = (dequeue_batch disk q2 (pos 1) 20).0 in
    (items_of 20 ((0, item (codes "a") 10) ∷ []) ≡ take 1 (items_of 20 (contents disk q2)))
    × (IsValid disk (commit disk q₁ 0).0
        × (contents disk (commit disk q₁ 0).0 ≡ drop 1 (contents disk q2)))
unfolding program
contents-commit-dequeue_batch_example =
    contents-commit-dequeue_batch disk q2 (dequeue_batch disk q2 (pos 1) 20).0
      (commit disk (dequeue_batch disk q2 (pos 1) 20).0 0).0
      (items_of 20 ((0, item (codes "a") 10) ∷ [])) 1 20 0 q2-IsValid refl refl refl refl

-- The database as the two items left it.
abbrev left : Badger
left = sample q2.db

q2-left : IsValid left q2
unfolding program
q2-left = record {
  name = q2-IsValid.name;
  ordered = q2-IsValid.ordered;
  bounded = q2-IsValid.bounded;
  present = q2-IsValid.present;
  only = q2-IsValid.only;
}

new_badger_queue-Recovered_example :
    (q' : BadgerQueue Store) × (new_badger_queue left billing ≡ ok q')
    × (IsValid left q' × (contents left q' ≡ contents left q2))
unfolding program
new_badger_queue-Recovered_example =
    new_badger_queue-Recovered left q2 billing
      (format_key (codes "billing") 1 ∷ format_key (codes "billing") 0 ∷ []) q2-left refl refl refl
      refl
