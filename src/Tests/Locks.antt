-- ===== src/Tests/Locks.antt =====
-- Thread 0 holds the mutex while thread 1 comes to wait, then unlocks.
use dummy_concurrency.Base.{ℕ, ◌≡◌, refl, update, arith}
use dummy_concurrency.Sync.Awaiter.{awaiter}
use dummy_concurrency.Sync.Mutex.{
  System, Reach, Memory, Pc, init, start, later, move, waiting, unlocked, locked, unlock_move,
  unlock_pop, try_win, lock_lose, lock_loads, lock_queue, unlock_empty, unlock_loads, unlock_take,
  unlock_moves, unlock_moved, owner, lock_load, lock_cas, unlock_load, unlock_cas,
}
use dummy_concurrency.Sync.Mutex.View.{free, Goes}
use dummy_concurrency.Sync.Mutex.Refinement.{Step-Shows, init-Shows}
use dummy_concurrency.Sync.Mutex.Safety.{mutual_exclusion}

abbrev after : System → ℕ → Memory → Pc → System
after s i m p = record { mem = m; pc = update s.pc i p }

abbrev taken : System
taken = after init 0 (record { head = locked; tail = unlocked; next = λ _. unlocked }) owner

taken-Reach : Reach taken
taken-Reach = later start (move 0 (try_win refl))

abbrev contended : System
contended = after (after taken 1 taken.mem lock_load) 1 taken.mem (lock_cas locked)

contended-Reach : Reach contended
contended-Reach = later (later taken-Reach (move 1 (lock_lose (ground arith)))) (move 1 lock_loads)

abbrev queued : System
queued =
    after contended 1
      (record { head = awaiter 1; tail = unlocked; next = update (λ _. unlocked) 1 locked }) waiting

queued-Reach : Reach queued
queued-Reach = later contended-Reach (move 1 (lock_queue refl (ground arith)))

abbrev unlocking : System
unlocking =
    after (after (after queued 0 queued.mem unlock_load) 0 queued.mem (unlock_cas (awaiter 1))) 0
      (record { head = locked; tail = unlocked; next = update (λ _. unlocked) 1 locked })
      (unlock_move (awaiter 1))

unlocking-Reach : Reach unlocking
unlocking-Reach =
    later (later (later queued-Reach (move 0 (unlock_empty refl))) (move 0 unlock_loads))
      (move 0 (unlock_take refl (ground arith)))

abbrev reversed : Memory
reversed = record {
  head = locked;
  tail = awaiter 1;
  next = update (update (λ _. unlocked) 1 locked) 1 unlocked;
}

abbrev waking : System
waking = after (after unlocking 0 reversed (unlock_move locked)) 0 reversed unlock_pop

waking-Reach : Reach waking
waking-Reach =
    later (later unlocking-Reach (move 0 (unlock_moves 1 refl))) (move 0 (unlock_moved refl))

abbrev holder : ℕ
holder = 0

mutual_exclusion_example : holder ≡ holder
mutual_exclusion_example = mutual_exclusion taken-Reach holder holder refl refl

Step-Shows_example : Goes taken.mem taken.pc free
Step-Shows_example = Step-Shows init-Shows (move 0 (try_win refl))
