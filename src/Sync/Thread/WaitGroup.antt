-- ===== src/Sync/Thread/WaitGroup.antt =====
-- DummyConcurrency/Synchronization/Thread/WaitGroup.cpp: a word of 32 bits, of which the highest says
-- that a thread waits, and the others count the work.
pub mod Waking
use dummy_concurrency.Base.{
  ℕ, ◌+◌, ◌-◌, ◌%◌, ◌^◌, ◌≤◌, ◌<◌, ◌==◌, if◌then◌else◌, ◌≡◌, ◌≢◌, Bool, true, false, ◌&&◌, leb,
  update,
}

-- `(word & kWaitFlag) != 0`: the highest of 32 bits is set from 2^31 on.
unfoldable pub has_wait_flag : ℕ → Bool
has_wait_flag word = leb (2 ^ 31) word

-- `word & kWaitFlagReversed`
unfoldable pub without_flag : ℕ → ℕ
without_flag word = word % 2 ^ 31

-- `word | kWaitFlag`
unfoldable pub with_flag : ℕ → ℕ
with_flag word = word % 2 ^ 31 + 2 ^ 31

pub data Pc : Type 0 where
  idle : Pc
  done_and : Pc  -- before `fetch_and` of `Done`
  done_wake : Pc  -- before `WakeAll`
  wait_load : Pc  -- before `job_cnt_.load()` of `Wait`
  wait_cas : (latest : ℕ) → Pc  -- before the exchange
  wait_futex : (expected : ℕ) → Pc  -- before `Futex::Wait`
  asleep : Pc

pub record System : Type 0 where
  pub job_cnt : ℕ
  pub pc : ℕ → Pc

-- `Add`, of which the count stays below 2^31.
unfoldable pub add : ℕ → ℕ → ℕ
add cnt job_cnt = (job_cnt + cnt) % 2 ^ 32

-- `Done`: the word after `fetch_sub`, and what is left to do.
unfoldable pub subtract : ℕ → ℕ
subtract job_cnt = (job_cnt + 2 ^ 32 - 1) % 2 ^ 32

unfoldable pub after_subtract : ℕ → Pc
unfolding has_wait_flag without_flag
after_subtract old = if has_wait_flag old && without_flag old == 0 then done_and else idle

-- `Wait` after it has loaded the word.
unfoldable pub after_load : ℕ → Pc
unfolding has_wait_flag with_flag
after_load latest =
    if latest == 0
    then idle
    else if has_wait_flag latest
    then wait_futex (with_flag latest)
    else wait_cas latest

-- `WakeAll` lets all that sleep return from `Futex::Wait`.
abbrev pub awake : Pc → Pc
awake asleep = wait_load
awake p = p

-- One access of a thread to `job_cnt_`, or to the futex. `Done` is called for work that was added.
pub data Step (s : System) : System → Type 0 where
  adds :
      (i cnt : ℕ)
      → s.pc i ≡ idle
      → without_flag s.job_cnt + cnt < 2 ^ 31
      → Step s (record s { job_cnt = add cnt s.job_cnt })
  dones :
      (i : ℕ)
      → s.pc i ≡ idle
      → 1 ≤ without_flag s.job_cnt
      → Step s (record {
        job_cnt = subtract s.job_cnt;
        pc = update s.pc i (after_subtract (subtract s.job_cnt));
      })
  clears :
      (i : ℕ)
      → s.pc i ≡ done_and
      → Step s (record { job_cnt = without_flag s.job_cnt; pc = update s.pc i done_wake })
  wakes :
      (i : ℕ)
      → s.pc i ≡ done_wake
      → Step s (record s { pc = λ j. if i == j then idle else awake (s.pc j) })
  waits : (i : ℕ) → s.pc i ≡ idle → Step s (record s { pc = update s.pc i wait_load })
  loads :
      (i : ℕ) → s.pc i ≡ wait_load → Step s (record s { pc = update s.pc i (after_load s.job_cnt) })
  exchanges :
      (i latest : ℕ)
      → s.pc i ≡ wait_cas latest
      → s.job_cnt ≡ latest
      → Step s (record {
        job_cnt = with_flag latest;
        pc = update s.pc i (wait_futex (with_flag latest));
      })
  misses :
      (i latest : ℕ)
      → s.pc i ≡ wait_cas latest
      → s.job_cnt ≢ latest
      → Step s (record s { pc = update s.pc i wait_load })
  sleeps :
      (i expected : ℕ)
      → s.pc i ≡ wait_futex expected
      → s.job_cnt ≡ expected
      → Step s (record s { pc = update s.pc i asleep })
  goes_on :
      (i expected : ℕ)
      → s.pc i ≡ wait_futex expected
      → s.job_cnt ≢ expected
      → Step s (record s { pc = update s.pc i wait_load })
  stirs : (i : ℕ) → s.pc i ≡ asleep → Step s (record s { pc = update s.pc i wait_load })

abbrev pub init : System
init = record { job_cnt = 0; pc = λ i. idle }

pub data Reach : System → Type 0 where
  start : Reach init
  later : {s t : System} → Reach s → Step s t → Reach t
