-- ===== src/Exporter/Tests.antt =====
-- The export queue, the worker and a flush at concrete inputs, and the theorems about them applied there.
use linker_agent.Prelude.{
  ◌≡◌, refl, true, false, [], ◌∷◌, some, codes, eq_text, lookup, ◌==◌, if◌then◌else◌, pos, arith,
}
use linker_agent.Exporter.{new_queue, push, push_all, drop_first, send_or_drop}
use linker_agent.Exporter.Laws.{After, IsValid, push_all_lem}
use linker_agent.Exporter.Options.{Config, has_http, has_file}
use linker_agent.Exporter.Flush.{
  Outside, World, status, flush_stream, send_loop, send_stream, pause, error_of, is_success,
  backoff,
}
use linker_agent.Exporter.Flush.Laws.{Attempted, flush_stream_lem}
use linker_agent.Exporter.Worker.{Worker, receive, receives, Reach, here, next}
use linker_agent.Exporter.Worker.Laws.{concat, gathered}
use linker_agent.Exporter.Worker.Shutdown.{
  Keeps, IsFinished, Reach-Keeps, worker_finishes, shutdown_loses,
}
use linker_agent.Exporter.Worker.Batches.{IsBatched, Reach-IsBatched}

-- Three items through a queue of two: the oldest is gone.
newest_two :
    (push_all (new_queue 2) (codes "a" ∷ codes "b" ∷ codes "c" ∷ [])).ch
    ≡ codes "b" ∷ codes "c" ∷ []
unfolding push_all push new_queue drop_first send_or_drop
newest_two = refl

new_queue-IsValid : IsValid (new_queue 2)
unfolding new_queue
new_queue-IsValid = (omega arith, omega arith, refl, omega arith, omega arith)

push_all_lem_example :
    After
      (new_queue 2)
      (codes "a" ∷ codes "b" ∷ codes "c" ∷ [])
      (push_all (new_queue 2) (codes "a" ∷ codes "b" ∷ codes "c" ∷ []))
push_all_lem_example =
    push_all_lem (new_queue 2) (codes "a" ∷ codes "b" ∷ codes "c" ∷ []) new_queue-IsValid

-- A worker with an item in its batch and two that wait in the closed queue.
abbrev closing : Worker
closing = record {
  queue = record {
    ch = codes "a" ∷ codes "b" ∷ [];
    capacity = 4;
    closed = true;
    dropped_count = 0;
    enqueued_count = 3;
  };
  batch = codes "x" ∷ [];
  flushed = [];
  canceled = true;
  stopped = false;
}

abbrev one_received : Worker
one_received = receive 2 closing (codes "a") (codes "b" ∷ [])

Reach-one_received : Reach 2 closing one_received
Reach-one_received = next here (receives closing (codes "a") (codes "b" ∷ []) refl refl)

Reach-Keeps_example : Keeps closing one_received
Reach-Keeps_example = Reach-Keeps closing refl Reach-one_received

worker_finishes_example : (w : Worker) × Reach 2 closing w × IsFinished closing w
worker_finishes_example = worker_finishes 2 closing refl refl

shutdown_loses_example :
    (w : Worker) × Reach 2 closing w
    × (w.stopped ≡ true)
    × (w.queue.ch ≡ closing.queue.ch)
    × (concat w.flushed ≡ gathered closing)
    × ((v : Worker) → Reach 2 w v → v.flushed ≡ w.flushed)
shutdown_loses_example = shutdown_loses 2 closing refl refl

Reach-IsBatched_example : IsBatched 2 one_received
Reach-IsBatched_example = Reach-IsBatched 2 (omega arith) Reach-one_received (omega arith, tt)

-- The client is unavailable once and then accepts.
abbrev flaky : Outside
flaky = record {
  answer = λ n. if n == 0 then status 503 else status 200;
  uuid = λ n. n ∷ [];
  getenv = λ name. [];
  valid_url = λ url. true;
  marshal = λ items. some (codes "[]");
  can_append = λ path. true;
}

abbrev http_config : Config
http_config = record {
  mode = codes "http";
  batch_size = pos 2;
  flush_every = pos 1;
  max_retries = pos 3;
  base_url = codes "https://example.org";
  routes = (codes "edges", codes "/edges") ∷ [];
  authorization_env = [];
  paths = [];
}

abbrev untouched : World
untouched = record { requests = []; pauses = []; lines = [] }

retried :
    (flush_stream flaky http_config
      (codes "key")
      3
      untouched
      (codes "edges")
      (codes "{}" ∷ [])).pauses
    ≡ pos 2000000000 ∷ []
unfolding flush_stream send_loop send_stream pause error_of is_success backoff has_http has_file
    eq_text lookup
retried = refl

http_on : has_http (codes "http") ≡ true
unfolding has_http eq_text
http_on = refl

route_known : lookup (codes "edges") http_config.routes ≡ some (codes "/edges")
unfolding lookup eq_text
route_known = refl

flush_stream_lem_example :
    Attempted flaky http_config
      (codes "key")
      (codes "edges")
      (codes "/edges")
      (codes "[]")
      4
      []
      (flush_stream flaky http_config
        (codes "key")
        3
        untouched
        (codes "edges")
        (codes "{}" ∷ [])).requests
flush_stream_lem_example =
    flush_stream_lem flaky http_config (codes "key") (codes "edges") (codes "/edges") (codes "[]")
      route_known refl 3 untouched (codes "{}") [] http_on refl
