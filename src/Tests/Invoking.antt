-- ===== src/Tests/Invoking.antt =====
-- Three tasks, of which the second yields twice.
use dummy_concurrency.Base.{ℕ, ◌+◌, ◌≡◌, refl, none, some, [], ◌∷◌, length, count, arith}
use dummy_concurrency.Runtime.FiberInvoker.{
  Invoker, job, create_fiber, end_task, run_task, fiber_body, invoke,
}
use dummy_concurrency.Runtime.FiberInvoker.Serving.{named, invoke_ends}

abbrev waiting : Invoker
waiting = record {
  current = none;
  queue = job 10 0 ∷ job 11 2 ∷ job 12 0 ∷ [];
  fresh = 0;
  destroyed = [];
  finished = [];
}

invoke_ends_example :
    (s' : Invoker) × (invoke 6 waiting ≡ some s')
    × (s'.current ≡ none)
    × (s'.queue ≡ [])
    × (length s'.destroyed ≡ s'.fresh)
    × ((x : ℕ) → count x s'.finished ≡ count x waiting.finished + named x waiting.queue)
invoke_ends_example = invoke_ends waiting 6 (omega arith) refl refl

-- The task that yields is finished last, and its fiber is destroyed first.
invoke_order :
    invoke 6 waiting
    ≡ some (record {
      current = none;
      queue = [];
      fresh = 2;
      destroyed = 1 ∷ 0 ∷ [];
      finished = 11 ∷ 12 ∷ 10 ∷ [];
    })
unfolding invoke fiber_body run_task end_task create_fiber
invoke_order = refl
