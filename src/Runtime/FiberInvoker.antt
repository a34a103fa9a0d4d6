-- ===== src/Runtime/FiberInvoker.antt =====
-- DummyConcurrency/Runtime/Invoker/FiberInvoker.cpp: tasks that run in fibers. A task is how often it
-- yields: it is then submitted again, as the fiber that it runs in.
pub mod Serving
use dummy_concurrency.Base.{
  ℕ, zero, suc, ◌+◌, ◌==◌, if◌then◌else◌, Bool, true, false, Option, none, some, List, [], ◌∷◌,
  ◌++◌,
}

pub data Task : Type 0 where
  job : (name : ℕ) → (yields : ℕ) → Task
  resume : (fiber : ℕ) → (name : ℕ) → (yields : ℕ) → Task  -- the rest of the task `name`

pub record Invoker : Type 0 where
  pub current : Option ℕ  -- `gCurrentFiberInvoker`
  pub queue : List Task  -- what `GetNextTask` gives
  pub fresh : ℕ  -- as many fibers were made
  pub destroyed : List ℕ
  pub finished : List ℕ

abbrev pub is_current : Option ℕ → ℕ → Bool
is_current none f = false
is_current (some g) f = g == f

-- A new fiber, and `gCurrentFiberInvoker = fiber`.
unfoldable pub create_fiber : Invoker → Invoker
create_fiber s = record s { current = some s.fresh; fresh = s.fresh + 1 }

-- The task `name` ends in the fiber `f`, which goes on with the loop if it is the current one, and ends
-- otherwise. The fiber that goes on, and the state.
unfoldable pub end_task : ℕ → ℕ → ℕ → Invoker → ℕ × Invoker
end_task name f self s =
    if is_current s.current f
    then (f, record s { finished = name ∷ s.finished })
    else (self, record s { finished = name ∷ s.finished; destroyed = f ∷ s.destroyed })

-- One round of the loop of `FiberBody` in the fiber `self`, for the task that it has got: the fiber that
-- goes on, and the state. If the task has suspended `self`, the loop of `Invoke` makes another fiber.
unfoldable pub run_task : Task → ℕ → Invoker → ℕ × Invoker
unfolding create_fiber end_task
run_task (job name zero) self s = end_task name self self s
run_task (job name (suc k)) self s =
    (s.fresh, create_fiber (record s { queue = s.queue ++ resume self name k ∷ [] }))
run_task (resume f name zero) self s = end_task name f self s
run_task (resume f name (suc k)) self s =
    (self, record s { queue = s.queue ++ resume f name k ∷ [] })

-- `FiberBody` of the fiber `self`, and what the loop of `Invoke` does after it, on fuel.
unfoldable pub fiber_body : ℕ → ℕ × Invoker → Option Invoker
unfolding run_task
fiber_body zero (self, s) = none
fiber_body (suc n) (self, s) = elim s.queue [
  | [] ↦ some (record s { current = none; destroyed = self ∷ s.destroyed })
  | t ∷ rest ↦ fiber_body n (run_task t self (record s { queue = rest }))
]

unfoldable pub invoke : ℕ → Invoker → Option Invoker
unfolding fiber_body create_fiber
invoke n s = fiber_body n (s.fresh, create_fiber s)
