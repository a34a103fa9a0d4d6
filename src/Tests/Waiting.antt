-- ===== src/Tests/Waiting.antt =====
-- An event that one thread waits for, and wait groups of a few.
use dummy_concurrency.Sync.WaitGroup.Turns as Turns
use dummy_concurrency.Sync.WaitGroup.Waiting.{wait_ends}
use dummy_concurrency.Base.{ℕ, ◌≡◌, ◌≢◌, refl, inl, true, some, [], ◌∷◌, update, arith}
use dummy_concurrency.Sync.Awaiter.{awaiter}
use dummy_concurrency.Sync.Event.{
  System, Reach, init, start, later, see_not_fired, load, join, fire, wake, end_walk, wait_load,
  wait_cas, waiting, passed, walking, over, fired, not_fired,
}
use dummy_concurrency.Sync.Event.Waking.{fire_wakes_all}
use dummy_concurrency.Sync.WaitGroup.{
  SpinlockWaitGroup, BadPointerWaitGroup, spin_done, spin_wait, pointer_done,
}
use dummy_concurrency.Sync.WaitGroup.Counting.{Holds, pointer_done_wakes, spin_keeps}
use dummy_concurrency.Utils.StampedPtr.{pack}

abbrev arriving : System
arriving = record init { pc = update (update init.pc 4 wait_load) 4 (wait_cas not_fired) }

abbrev waited : System
waited = record arriving {
  queue_head = awaiter 4;
  next = update init.next 4 not_fired;
  pc = update arriving.pc 4 waiting;
}

abbrev firing : System
firing = record waited { queue_head = fired; firer = walking (awaiter 4) }

firing-Reach : Reach firing
firing-Reach =
    later
      (later (later (later start (see_not_fired 4 refl (ground arith))) (load 4 refl))
        (join 4 not_fired refl (ground arith) refl))
      (fire refl)

abbrev woken : System
woken = record firing { pc = update firing.pc 4 passed; firer = over }

woken-Reach : Reach woken
woken-Reach = later (later firing-Reach (wake 4 refl)) (end_walk refl)

fire_wakes_all_example : woken.pc 4 ≢ waiting
fire_wakes_all_example = fire_wakes_all woken-Reach refl 4

-- Two awaiters, the last at the address 4096, and the counter 1.
abbrev stacked : BadPointerWaitGroup
stacked = record {
  state = pack (record { raw_ptr = 4096; stamp = 1 });
  next = update (λ _. 0) 4096 64;
}

stacked-Holds : Holds stacked 1 (4096 ∷ 64 ∷ [])
stacked-Holds = record {
  top = 4096;
  word = refl;
  stacked = (refl, omega arith, inl (omega arith), (refl, omega arith, inl (omega arith), refl));
  fits = omega arith;
}

abbrev counted : BadPointerWaitGroup
counted = record { state = pack (record { raw_ptr = 0; stamp = 2 }); next = λ _. 0 }

counted-Holds : Holds counted 2 []
counted-Holds = record { top = 0; word = refl; stacked = refl; fits = omega arith }

abbrev unused : BadPointerWaitGroup
unused = record { state = pack (record { raw_ptr = 0; stamp = 0 }); next = λ _. 0 }

unused-Holds : Holds unused 0 []
unused-Holds = record { top = 0; word = refl; stacked = refl; fits = omega arith }

pointer_done_wakes_example :
    (g' : BadPointerWaitGroup) × (pointer_done 2 stacked ≡ some (some (4096 ∷ 64 ∷ []), g'))
    × Holds g' 0 []
pointer_done_wakes_example =
    pointer_done_wakes stacked 2 (4096 ∷ 64 ∷ []) stacked-Holds (omega arith)

abbrev two_wait : SpinlockWaitGroup
two_wait = record { counter = 1; wait_queue = 5 ∷ 6 ∷ [] }

abbrev two_left : SpinlockWaitGroup
two_left = record { counter = 2; wait_queue = 5 ∷ [] }

spin_keeps_example :
    (spin_done two_left ≡ ([], record two_left { counter = 1 }))
    × (spin_wait 6 two_left ≡ (true, record two_left { wait_queue = 5 ∷ 6 ∷ [] }))
spin_keeps_example = spin_keeps two_left 6 (omega arith) (omega arith)

-- The thread 0 waits for one piece of work, and the thread 1 has done it.
abbrev work_added : Turns.System
work_added = record Turns.init { stamp = 1 }

abbrev work_done : Turns.System
work_done = record {
  raw_ptr = Turns.null;
  stamp = 0;
  next = update (λ _. Turns.null) 0 Turns.null;
  pc =
      update
        (update
          (update (update (λ _. Turns.idle) 0 Turns.wait_load) 0 (Turns.wait_cas Turns.null 1)) 0
          Turns.waiting)
        1 (Turns.walking (awaiter 0));
  zero_seen = λ j. true;
}

work_done-Reach : Turns.Reach work_done
work_done-Reach =
    Turns.later
      (Turns.later
        (Turns.later
          (Turns.later (Turns.later Turns.start (Turns.adds 0 1 refl (omega arith)))
            (Turns.sees_more 0 refl (ground arith)))
          (Turns.loads 0 refl))
        (Turns.joins 0 Turns.null 1 refl (ground arith) refl refl))
      (Turns.empties 1 refl refl)

wait_ends_example :
    (work_done.pc 0 ≡ Turns.passed → work_done.zero_seen 0 ≡ true)
    × (work_done.pc 0 ≡ Turns.waiting
        → work_done.stamp ≡ 0
        → (d c : ℕ) × (work_done.pc d ≡ Turns.walking (awaiter c)))
wait_ends_example = wait_ends work_done-Reach 0
