-- ===== src/Tests/Schedulers.antt =====
-- A run loop with two tasks, the first of which submits a third; and a pool with one worker.
use dummy_concurrency.Base.{
  ℕ, ◌≤◌, ◌==◌, if◌then◌else◌, ◌≡◌, refl, true, false, some, List, [], ◌∷◌, ◌++◌, length, arith,
}
use dummy_concurrency.Runtime.RunLoop.{RunLoop, run_at_most, run}
use dummy_concurrency.Runtime.RunLoop.Serving.{Served, submitted, run_at_most-Serves, run-Serves}
use dummy_concurrency.Runtime.BlockingQueue.{push, pop, close}
use dummy_concurrency.Runtime.ThreadPool.{
  ThreadPool, Reach, started, later, submit, pop_sleeps, pop_gives, pop_null, runs, stop, closes,
}
use dummy_concurrency.Runtime.ThreadPool.Service.{no_wake_up_lost, stop_joins}

abbrev submits : ℕ → List ℕ
submits task = if task == 1 then 3 ∷ [] else []

abbrev weight : ℕ → ℕ
weight task = if task == 1 then 2 else 1

abbrev two_tasks : RunLoop
two_tasks = record { queue = 1 ∷ 2 ∷ []; current_run_limit = 0; current_task_count = 0 }

run_at_most-Serves_example :
    (tasks : List ℕ) × (l' : RunLoop) × (run_at_most submits 3 2 two_tasks ≡ some (tasks, l'))
    × Served submits (record two_tasks { current_run_limit = 2; current_task_count = 0 }) tasks l'
    × (length tasks ≤ 2)
run_at_most-Serves_example = run_at_most-Serves submits two_tasks 2 3 (omega arith) (omega arith)

run-Serves_example :
    (tasks : List ℕ) × (l' : RunLoop) × (run submits 4 two_tasks ≡ some (tasks, l'))
    × (l'.queue ≡ [])
    × (tasks ≡ two_tasks.queue ++ submitted submits tasks)
    × (l'.current_task_count ≡ length tasks)
run-Serves_example = run-Serves submits weight 4 two_tasks (λ t. ground arith) (omega arith)

abbrev asleep : ThreadPool
asleep = record {
  queue = record { items = []; closed = false; sleeping = 1 };
  workers = 1;
  stopped = false;
  popping = 0;
  running = 0;
  gone = 0;
  submitted = [];
  taken = [];
}

asleep-Reach : Reach 1 asleep
unfolding pop
asleep-Reach = later started (pop_sleeps (omega arith) refl)

abbrev served : ThreadPool
served = record {
  queue = record { items = []; closed = true; sleeping = 0 };
  workers = 1;
  stopped = true;
  popping = 0;
  running = 0;
  gone = 1;
  submitted = 7 ∷ [];
  taken = 7 ∷ [];
}

served-Reach : Reach 1 served
unfolding push pop close
served-Reach =
    later
      (later
        (later
          (later (later (later asleep-Reach (submit 7 refl)) (pop_gives (omega arith) refl))
            (runs (omega arith)))
          stop)
        (closes refl))
      (pop_null (omega arith) refl)

no_wake_up_lost_example :
    (asleep.queue.closed ≡ false) × (length asleep.queue.items ≤ asleep.popping)
no_wake_up_lost_example = no_wake_up_lost asleep-Reach (omega arith)

stop_joins_example :
    (served.taken ≡ served.submitted)
    × (served.running ≡ 0)
    × (served.queue.items ≡ [])
    × (served.queue.sleeping ≡ 0)
stop_joins_example = stop_joins served-Reach (omega arith) refl
