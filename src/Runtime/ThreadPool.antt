-- ===== src/Runtime/ThreadPool.antt =====
-- DummyConcurrency/Runtime/Scheduler/ThreadPool and Invoker/Inline.cpp: workers that pop tasks and
-- run them until `Pop` returns null.
pub mod Service
use dummy_concurrency.Base.{
  ℕ, ◌+◌, ◌-◌, ◌<◌, ◌≡◌, Bool, true, false, Option, some, List, [], ◌∷◌, ◌++◌,
}
use dummy_concurrency.Runtime.BlockingQueue.{
  BlockingQueue, Popped, create, push, pop, close, sleeps, null, gives,
}

-- The workers are in `Pop` and awake, asleep in it (`queue.sleeping`), running a task, or gone.
pub record ThreadPool : Type 0 where
  pub queue : BlockingQueue
  pub workers : ℕ
  pub stopped : Bool
  pub popping : ℕ
  pub running : ℕ
  pub gone : ℕ
  pub submitted : List ℕ
  pub taken : List ℕ

-- After `Start`.
abbrev pub start : ℕ → ThreadPool
start workers = record {
  queue = create;
  workers = workers;
  stopped = false;
  popping = workers;
  running = 0;
  gone = 0;
  submitted = [];
  taken = [];
}

-- `Submit` reads `stopped_` before it pushes, so a push may come after `Stop` has set it; a push
-- after `Close` fails its assertion, and the program stops.
pub data Step (p : ThreadPool) : ThreadPool → Type 0 where
  submit :
      (task : ℕ) {q : BlockingQueue}
      → push p.queue task ≡ some q
      → Step p (record p {
        queue = q;
        popping = p.popping + (p.queue.sleeping - q.sleeping);
        submitted = p.submitted ++ task ∷ [];
      })
  pop_sleeps :
      {q : BlockingQueue}
      → 0 < p.popping
      → pop p.queue ≡ (sleeps, q)
      → Step p (record p { queue = q; popping = p.popping - 1 })
  pop_gives :
      {task : ℕ} {q : BlockingQueue}
      → 0 < p.popping
      → pop p.queue ≡ (gives task, q)
      → Step p (record p {
        queue = q;
        popping = p.popping - 1;
        running = p.running + 1;
        taken = p.taken ++ task ∷ [];
      })
  pop_null :
      {q : BlockingQueue}
      → 0 < p.popping
      → pop p.queue ≡ (null, q)
      → Step p (record p { queue = q; popping = p.popping - 1; gone = p.gone + 1 })
  -- A wait on a condition variable may return without a notification.
  wakes_up :
      0 < p.queue.sleeping
      → Step p (record p {
        queue = record p.queue { sleeping = p.queue.sleeping - 1 };
        popping = p.popping + 1;
      })
  -- `task->Run()` returns.
  runs : 0 < p.running → Step p (record p { running = p.running - 1; popping = p.popping + 1 })
  stop : Step p (record p { stopped = true })
  closes :
      p.stopped ≡ true
      → Step p (record p { queue = close p.queue; popping = p.popping + p.queue.sleeping })

pub data Reach (workers : ℕ) : ThreadPool → Type 0 where
  started : Reach workers (start workers)
  later : {p q : ThreadPool} → Reach workers p → Step p q → Reach workers q
