-- ===== src/Tests/Threads.antt =====
-- Two threads at the primitives that block threads.
use dummy_concurrency.Base.{ℕ, ◌≡◌, refl, ◌⊎◌, inr, true, update, arith}
use dummy_concurrency.Sync.ThreadAwaiter as ThreadAwaiter
use dummy_concurrency.Sync.Thread.SpinLock as SpinLock
use dummy_concurrency.Sync.Thread.Event as Event
use dummy_concurrency.Sync.Thread.WaitGroup as WaitGroup
use dummy_concurrency.Sync.Thread.WaitGroup.{
  without_flag, with_flag, has_wait_flag, add, subtract, after_subtract, after_load,
}
use dummy_concurrency.Sync.Thread.WaitGroup.Waking.{no_sleeper_left}

-- The thread 0 has taken the lock, and the thread 1 spins.
abbrev contended : SpinLock.System
contended = record {
  state = 1;
  pc =
      update (update (update (λ _. SpinLock.idle) 0 SpinLock.holding) 1 SpinLock.lock_exchange) 1
        SpinLock.lock_load;
}

contended-Reach : SpinLock.Reach contended
contended-Reach =
    SpinLock.later
      (SpinLock.later (SpinLock.later SpinLock.start (SpinLock.step 0 (SpinLock.try_wins refl)))
        (SpinLock.step 1 SpinLock.lock_begins))
      (SpinLock.step 1 (SpinLock.lock_loses refl))

-- The thread 0 sleeps, and the thread 1 has fired the event.
abbrev stored : Event.System
stored = record {
  state = 1;
  pc =
      update
        (update
          (update (update (update (λ _. Event.idle) 0 Event.wait_load) 0 Event.wait_futex) 0
            Event.asleep)
          1 Event.fire_store)
        1 Event.fire_wake;
}

stored-Reach : Event.Reach stored
stored-Reach =
    Event.later
      (Event.later
        (Event.later
          (Event.later (Event.later Event.start (Event.waits 0 refl)) (Event.blocks 0 refl refl))
          (Event.sleeps 0 refl refl))
        (Event.fires 1 refl))
      (Event.stores 1 refl)

-- One piece of work, for which the thread 0 waits, and which the thread 1 has done.
abbrev added : WaitGroup.System
added = record WaitGroup.init { job_cnt = add 1 0 }

abbrev loaded : WaitGroup.System
loaded = record {
  job_cnt = add 1 0;
  pc = update (update (λ _. WaitGroup.idle) 0 WaitGroup.wait_load) 0 (after_load (add 1 0));
}

abbrev slept : WaitGroup.System
slept = record {
  job_cnt = with_flag 1;
  pc = update (update loaded.pc 0 (WaitGroup.wait_futex (with_flag 1))) 0 WaitGroup.asleep;
}

abbrev over : WaitGroup.System
over = record {
  job_cnt = subtract slept.job_cnt;
  pc = update slept.pc 1 (after_subtract (subtract slept.job_cnt));
}

over-Reach : WaitGroup.Reach over
unfolding add subtract after_subtract after_load with_flag without_flag has_wait_flag
over-Reach =
    WaitGroup.later
      (WaitGroup.later
        (WaitGroup.later
          (WaitGroup.later
            (WaitGroup.later
              (WaitGroup.later WaitGroup.start (WaitGroup.adds 1 1 refl (omega arith)))
              (WaitGroup.waits 0 refl))
            (WaitGroup.loads 0 refl))
          (WaitGroup.exchanges 0 1 refl refl))
        (WaitGroup.sleeps 0 (with_flag 1) refl refl))
      (WaitGroup.dones 1 refl (omega arith))

no_sleeper_left_example :
    (j : ℕ) × ((over.pc j ≡ WaitGroup.done_and) ⊎ (over.pc j ≡ WaitGroup.done_wake))
unfolding add subtract after_subtract after_load with_flag without_flag has_wait_flag
no_sleeper_left_example = no_sleeper_left over-Reach 0 refl refl

-- The thread 0 sleeps in `DoAwait`, and the thread 1 is in `Wake`, where it has fired the event.
abbrev woken : ThreadAwaiter.System
woken = record { event = stored; phase = ThreadAwaiter.waiting; woken = true }

woken-Reach : ThreadAwaiter.Reach woken
woken-Reach =
    ThreadAwaiter.later
      (ThreadAwaiter.later
        (ThreadAwaiter.later
          (ThreadAwaiter.later
            (ThreadAwaiter.later
              (ThreadAwaiter.later ThreadAwaiter.begins (ThreadAwaiter.queues refl))
              (ThreadAwaiter.waits refl refl))
            (ThreadAwaiter.acts (Event.blocks 0 refl refl) tt))
          (ThreadAwaiter.acts (Event.sleeps 0 refl refl) tt))
        (ThreadAwaiter.wakes 1 (ground arith) (inr refl) refl refl))
      (ThreadAwaiter.acts (Event.stores 1 refl) tt)

thread_awaits_example :
    (woken.phase ≡ ThreadAwaiter.resumed → woken.woken ≡ true)
    × (woken.event.pc 0 ≡ Event.asleep
        → woken.woken ≡ true
        → (i : ℕ) × ((woken.event.pc i ≡ Event.fire_store) ⊎ (woken.event.pc i ≡ Event.fire_wake)))
thread_awaits_example = ThreadAwaiter.thread_awaits woken-Reach
