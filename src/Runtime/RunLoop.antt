-- ===== src/Runtime/RunLoop.antt =====
-- DummyConcurrency/Runtime/Scheduler/RunLoop and Invoker/Inline.cpp: tasks that run one after another
-- on one thread. The queue is the sequence of its tasks, which Utils/IntrusiveForwardList keeps.
pub mod Serving
use dummy_concurrency.Base.{
  ℕ, zero, suc, ◌+◌, ◌==◌, ltb, if◌then◌else◌, Bool, true, false, not, ◌&&◌, ◌||◌, Option, none,
  some, List, [], ◌∷◌, ◌++◌,
}

pub record RunLoop : Type 0 where
  pub queue : List ℕ
  pub current_run_limit : ℕ
  pub current_task_count : ℕ

abbrev pub create : RunLoop
create = record { queue = []; current_run_limit = 0; current_task_count = 0 }

abbrev pub is_nil : List ℕ → Bool
is_nil [] = true
is_nil (x ∷ xs) = false

abbrev pub pop_front : List ℕ → Option ℕ × List ℕ
pop_front [] = (none, [])
pop_front (x ∷ xs) = (some x, xs)

unfoldable pub submit : RunLoop → ℕ → RunLoop
submit l task = record l { queue = l.queue ++ task ∷ [] }

unfoldable pub get_next_task : RunLoop → Option ℕ × RunLoop
get_next_task l =
    if not (is_nil l.queue)
      && (l.current_run_limit == 0 || ltb l.current_task_count l.current_run_limit)
    then (
      (pop_front l.queue).0,
      record l { queue = (pop_front l.queue).1; current_task_count = l.current_task_count + 1 },
    )
    else (none, l)

-- A task may submit more tasks to the loop while it runs.
unfoldable pub submit_all : RunLoop → List ℕ → RunLoop
unfolding submit
submit_all l [] = l
submit_all l (x ∷ xs) = submit_all (submit l x) xs

abbrev pub prepend : ℕ → Option (List ℕ × RunLoop) → Option (List ℕ × RunLoop)
prepend task none = none
prepend task (some (tasks, l)) = some (task ∷ tasks, l)

-- One round of the loop of `InlineInvoker::Invoke`, given the rounds after it.
unfoldable pub go_on :
    (ℕ → List ℕ)
    → (RunLoop → Option (List ℕ × RunLoop))
    → Option ℕ × RunLoop
    → Option (List ℕ × RunLoop)
unfolding submit_all
go_on submits rounds (none, l) = some ([], l)
go_on submits rounds (some task, l) = prepend task (rounds (submit_all l (submits task)))

-- `InlineInvoker::Invoke` with fuel: the tasks that ran, and the loop afterwards. `submits` gives
-- the tasks that each task submits.
unfoldable pub invoke : (ℕ → List ℕ) → ℕ → RunLoop → Option (List ℕ × RunLoop)
unfolding get_next_task go_on
invoke submits zero l = none
invoke submits (suc fuel) l = go_on submits (invoke submits fuel) (get_next_task l)

unfoldable pub run_at_most : (ℕ → List ℕ) → ℕ → ℕ → RunLoop → Option (List ℕ × RunLoop)
unfolding invoke
run_at_most submits fuel limit l =
    invoke submits fuel (record l { current_run_limit = limit; current_task_count = 0 })

unfoldable pub run : (ℕ → List ℕ) → ℕ → RunLoop → Option (List ℕ × RunLoop)
unfolding invoke
run submits fuel l =
    invoke submits fuel (record l { current_run_limit = 0; current_task_count = 0 })

-- Whether one task ran.
unfoldable pub run_next : (ℕ → List ℕ) → ℕ → RunLoop → Option (Bool × RunLoop)
unfolding run_at_most
run_next submits fuel l = elim (run_at_most submits fuel 1 l) [
  | none ↦ none
  | some (tasks, l') ↦ some (l'.current_task_count == 1, l')
]
