-- ===== src/Tests/Treiber.antt =====
-- A thread that pushes a value, and another that pops it.
use dummy_concurrency.Base.{ℕ, refl, none, some, List, [], update}
use dummy_concurrency.Structures.LockFreeStack.{
  idle, push_load, push_cas, pop_load, pop_cas, push_begins, push_loads, push_wins, pop_begins,
  pop_loads, System, Step, step, init, Reach, start, later,
}
use dummy_concurrency.Structures.LockFreeStack.Refinement.{Turn, Shows, init-Shows, Step-Turn}

abbrev begun : System
begun = record {
  mem = record {
    top = none;
    value = update (λ _. 0) 0 5;
    next = update (λ _. none) 0 none;
    fresh = 1;
  };
  pc = update (λ _. idle) 0 (push_load 0);
}

first_step : Step init begun
first_step = step 0 (push_begins 5)

Step-Turn_example : (us : List ℕ) × Shows begun us × Turn [] us
Step-Turn_example = Step-Turn init-Shows first_step

-- The value is on the stack, and the thread 1 is about to take it.
abbrev popping : System
popping = record {
  mem = record {
    top = some 0;
    value = update (λ _. 0) 0 5;
    next = update (update (λ _. none) 0 none) 0 none;
    fresh = 1;
  };
  pc =
      update
        (update (update (update (update (λ _. idle) 0 (push_load 0)) 0 (push_cas 0)) 0 idle) 1
          pop_load)
        1 (pop_cas 0 none);
}

popping-Reach : Reach popping
popping-Reach =
    later
      (later (later (later (later start first_step) (step 0 push_loads)) (step 0 (push_wins refl)))
        (step 1 pop_begins))
      (step 1 (pop_loads 0 refl))
