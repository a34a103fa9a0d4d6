-- ===== src/Tests/Fibers.antt =====
-- Two fibers on one thread: the first is suspended, the second wakes it.
use dummy_concurrency.Base.{
  ℕ, ◌≤◌, ◌≡◌, ◌≢◌, refl, ◌⊎◌, if◌then◌else◌, Bool, true, false, Option, none, some, List, [], ◌∷◌,
  ◌++◌, count, arith,
}
use dummy_concurrency.Fiber.Core.{
  System, start, create, go, schedule_fiber, run, suspend, suspend_fiber, leave, come_back,
  hand_over, finish, wake, yield, do_await, Reach, begins, later, goes, runs, suspends,
}
use dummy_concurrency.Fiber.Core.Places.{stands}
use dummy_concurrency.Fiber.Core.Safety.{one_thread, none_lost, comes_back, wakes_fiber, yields}

abbrev or_start : Option System → System
or_start none = start
or_start (some s) = s

-- The fiber 0 runs on the thread 0, and the fiber 1 has been submitted.
abbrev first_runs : System
first_runs = run 0 0 (record (go (go start)) { queue = 1 ∷ [] })

-- The fiber 0 is with the awaiter 5, and the fiber 1 runs.
abbrev parted : System
parted = or_start (suspend 5 0 first_runs)

abbrev second_runs : System
second_runs = run 1 0 (record parted { queue = [] })

first_runs-Reach : Reach first_runs
unfolding go create schedule_fiber
first_runs-Reach = later (later (later begins goes) goes) (runs 0 0 [] (1 ∷ []) refl)

second_runs-Reach : Reach second_runs
unfolding suspend suspend_fiber leave come_back hand_over run go create schedule_fiber
second_runs-Reach = later (later first_runs-Reach (suspends 0 5 refl refl)) (runs 0 1 [] [] refl)

one_thread_example :
    (stands 0 (first_runs.current 0 ∷ first_runs.frames 0) ≡ 1)
    × ((u : ℕ) → 1 ≤ stands 0 (first_runs.current u ∷ first_runs.frames u) → 0 ≡ u)
    × (count 0 first_runs.queue ≡ 0)
    × ((a : ℕ) → first_runs.handle a ≢ some 0)
    × (first_runs.destroyed 0 ≡ 0)
unfolding run
one_thread_example = one_thread first_runs-Reach 0 0 (omega arith)

none_lost_example :
    ((count 0 second_runs.queue ≡ 1)
      ⊎ (((t : ℕ) × (stands 0 (second_runs.current t ∷ second_runs.frames t) ≡ 1))
          ⊎ (((a : ℕ) × (second_runs.handle a ≡ some 0)) ⊎ (second_runs.destroyed 0 ≡ 1))))
    × (second_runs.destroyed 0 ≡ (if second_runs.completed 0 then 1 else 0))
unfolding suspend suspend_fiber leave come_back hand_over run go create schedule_fiber
none_lost_example = none_lost second_runs-Reach 0 (omega arith)

comes_back_example :
    (initial : Option ℕ) × (frames : List (Option ℕ)) × (first_runs.frames 0 ≡ initial ∷ frames)
    × ((s' : System) × (suspend 5 0 first_runs ≡ some s')
        × (s'.current 0 ≡ initial)
        × (s'.frames 0 ≡ frames)
        × (s'.handle 5 ≡ some 0))
    × ((s' : System) × (finish 0 first_runs ≡ some s')
        × (s'.current 0 ≡ initial)
        × (s'.frames 0 ≡ frames)
        × (s'.destroyed 0 ≡ 1))
unfolding run
comes_back_example = comes_back first_runs-Reach 0 5 0 refl

wakes_fiber_example :
    ((f : ℕ)
      → second_runs.current 0 ≡ some f
      → (s' : System) × (wake true 5 0 second_runs ≡ some s')
        × (s'.current 0 ≡ some 0)
        × (s'.queue ≡ second_runs.queue ++ f ∷ [])
        × (s'.handle 5 ≡ none))
    × ((symmetric : Bool)
        → (symmetric ≡ false) ⊎ (second_runs.current 0 ≡ none)
        → (s' : System) × (wake symmetric 5 0 second_runs ≡ some s')
          × (s'.current 0 ≡ second_runs.current 0)
          × (s'.queue ≡ second_runs.queue ++ 0 ∷ [])
          × (s'.handle 5 ≡ none))
unfolding suspend suspend_fiber leave come_back hand_over run go create schedule_fiber
wakes_fiber_example = wakes_fiber second_runs-Reach 5 0 0 refl

yields_example :
    ((s' : System) × (yield true 7 0 first_runs ≡ some s')
      × (do_await false 7 0 first_runs ≡ some s')
      × Reach s'
      × (s'.queue ≡ first_runs.queue ++ 0 ∷ []))
    × ((s' : System) × (do_await true 7 0 first_runs ≡ some s')
        × Reach s'
        × (s'.queue ≡ first_runs.queue)
        × (s'.handle 7 ≡ some 0))
unfolding run go create schedule_fiber
yields_example = yields first_runs-Reach 7 0 0 refl refl
