-- ===== src/Sync/WaitGroup/Turns.antt =====
-- `BadPointerWaitGroup` under any number of threads and fibers: the steps between their accesses to the
-- word, which is given unpacked, and the loop of `Done`, which wakes awaiters after it has emptied
-- the stack. A retry loop of `Add` and `Done` is its last round.
use dummy_concurrency.Base.{ℕ, ◌+◌, ◌-◌, ◌<◌, ◌≤◌, ◌≡◌, ◌≢◌, Bool, true, false, update}
use dummy_concurrency.Utils.StampedPtr.{max_stamp}
use dummy_concurrency.Sync.Awaiter.{Ptr, address_0, awaiter}

-- `nullptr`, which ends the stack.
pattern abbrev pub null : Ptr
null = address_0

-- A thread or fiber, with the local that is live there.
pub data Pc : Type 0 where
  idle : Pc
  walking : (head : Ptr) → Pc  -- in the loop of `Done`
  wait_load : Pc  -- in `DoAwait`, before the load
  wait_cas : (raw_ptr : Ptr) → (stamp : ℕ) → Pc  -- before the test and the exchange
  waiting : Pc  -- suspended by `DoAwait`
  passed : Pc  -- returned from `Wait`

-- `zero_seen` says of a thread whether the counter has been 0 since it called `Wait`.
pub record System : Type 0 where
  pub raw_ptr : Ptr
  pub stamp : ℕ
  pub next : ℕ → Ptr
  pub pc : ℕ → Pc
  pub zero_seen : ℕ → Bool

abbrev pub init : System
init = record { raw_ptr = null; stamp = 0; next = λ i. null; pc = λ i. idle; zero_seen = λ i. true }

pub data Step (s : System) : System → Type 0 where
  adds :
      (i count : ℕ)
      → s.pc i ≡ idle
      → s.stamp + count ≤ max_stamp
      → Step s (record s { stamp = s.stamp + count })
  dones : (i : ℕ) → s.pc i ≡ idle → 1 < s.stamp → Step s (record s { stamp = s.stamp - 1 })
  empties :
      (i : ℕ)
      → s.pc i ≡ idle
      → s.stamp ≡ 1
      → Step s (record s {
        raw_ptr = null;
        stamp = 0;
        pc = update s.pc i (walking s.raw_ptr);
        zero_seen = λ j. true;
      })
  -- `Next` is read before `Wake`, after which the awaiter may be gone.
  wakes :
      (i c : ℕ)
      → s.pc i ≡ walking (awaiter c)
      → Step s (record s { pc = update (update s.pc c passed) i (walking (s.next c)) })
  ends : (i : ℕ) → s.pc i ≡ walking null → Step s (record s { pc = update s.pc i idle })
  sees_zero :
      (i : ℕ)
      → s.pc i ≡ idle
      → s.stamp ≡ 0
      → Step s (record s { pc = update s.pc i passed; zero_seen = update s.zero_seen i true })
  sees_more :
      (i : ℕ)
      → s.pc i ≡ idle
      → s.stamp ≢ 0
      → Step s (record s { pc = update s.pc i wait_load; zero_seen = update s.zero_seen i false })
  loads :
      (i : ℕ)
      → s.pc i ≡ wait_load
      → Step s (record s { pc = update s.pc i (wait_cas s.raw_ptr s.stamp) })
  gives_up :
      (i : ℕ) (raw_ptr : Ptr)
      → s.pc i ≡ wait_cas raw_ptr 0
      → Step s (record s { pc = update s.pc i passed })
  joins :
      (i : ℕ) (raw_ptr : Ptr) (stamp : ℕ)
      → s.pc i ≡ wait_cas raw_ptr stamp
      → stamp ≢ 0
      → s.raw_ptr ≡ raw_ptr
      → s.stamp ≡ stamp
      → Step s (record s {
        raw_ptr = awaiter i;
        next = update s.next i raw_ptr;
        pc = update s.pc i waiting;
      })
  -- The exchange fails, which a weak one may do at any time.
  retries :
      (i : ℕ) (raw_ptr : Ptr) (stamp : ℕ)
      → s.pc i ≡ wait_cas raw_ptr stamp
      → stamp ≢ 0
      → Step s (record s {
        next = update s.next i raw_ptr;
        pc = update s.pc i (wait_cas s.raw_ptr s.stamp);
      })
  goes_on : (i : ℕ) → s.pc i ≡ passed → Step s (record s { pc = update s.pc i idle })

pub data Reach : System → Type 0 where
  start : Reach init
  later : {s t : System} → Reach s → Step s t → Reach t
