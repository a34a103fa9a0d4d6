-- ===== src/Sync/Mutex.antt =====
-- DummyConcurrency/Synchronization/FiberAware/Mutex: a lock whose word `head_` is free, taken, or
-- the stack of those who wait, and whose holder keeps in `tail_` the queue of those it took off.
pub mod View
mod Outside
mod Unlock
mod Holder
pub mod Refinement
pub mod Safety
use dummy_concurrency.Base.{ℕ, zero, suc, ◌≡◌, ◌≢◌, refl, Bool, true, false, update}
use dummy_concurrency.Sync.Awaiter.{Ptr, address_0, address_1, awaiter}

-- `kUnlocked`, which is also the null pointer that ends the queue.
pattern abbrev pub unlocked : Ptr
unlocked = address_0

-- `kLocked`
pattern abbrev pub locked : Ptr
locked = address_1

-- The fields of the mutex, and the `Next` of each awaiter.
pub record Memory : Type 0 where
  pub head : Ptr
  pub tail : Ptr
  pub next : ℕ → Ptr

-- Where a thread or fiber stands in `Lock` or `Unlock`, with the locals that are live there.
pub data Pc : Type 0 where
  idle : Pc  -- outside, without the lock
  lock_load : Pc  -- in `DoAwait`, before the load of `head_`
  lock_cas : (expected : Ptr) → Pc  -- before the compare-exchange of `Lock`
  waiting : Pc  -- suspended by `DoAwait`
  owner : Pc  -- between `Lock` and `Unlock`
  unlock_load : Pc  -- `tail_` was empty: before the load of `head_`
  unlock_cas : (expected : Ptr) → Pc  -- before the compare-exchange of `Unlock`
  unlock_move : (expected : Ptr) → Pc  -- the loop that reverses the stack into `tail_`
  unlock_pop : Pc  -- before `tail_ != kUnlocked`
  unlock_wake : (curr : ℕ) → Pc  -- before `curr->Wake()`

-- One access to the shared words by the thread or fiber `i`. A weak exchange may fail at any time.
pub data Move (i : ℕ) (m : Memory) : Pc → Memory → Pc → Type 0 where
  try_win : m.head ≡ unlocked → Move i m idle (record m { head = locked }) owner
  try_lose : m.head ≢ unlocked → Move i m idle m idle
  lock_lose : m.head ≢ unlocked → Move i m idle m lock_load
  lock_loads : Move i m lock_load m (lock_cas m.head)
  lock_free :
      {e : Ptr}
      → m.head ≡ e
      → e ≡ unlocked
      → Move i m (lock_cas e) (record m { head = locked; next = update m.next i unlocked }) owner
  lock_queue :
      {e : Ptr}
      → m.head ≡ e
      → e ≢ unlocked
      → Move i m (lock_cas e) (record m { head = awaiter i; next = update m.next i e }) waiting
  lock_retry :
      {e : Ptr} → Move i m (lock_cas e) (record m { next = update m.next i e }) (lock_cas m.head)
  unlock_empty : m.tail ≡ unlocked → Move i m owner m unlock_load
  unlock_queued : m.tail ≢ unlocked → Move i m owner m unlock_pop
  unlock_loads : Move i m unlock_load m (unlock_cas m.head)
  unlock_free :
      {e : Ptr}
      → m.head ≡ e
      → e ≡ locked
      → Move i m (unlock_cas e) (record m { head = unlocked }) idle
  unlock_take :
      {e : Ptr}
      → m.head ≡ e
      → e ≢ locked
      → Move i m (unlock_cas e) (record m { head = locked }) (unlock_move e)
  unlock_retry : {e : Ptr} → Move i m (unlock_cas e) m (unlock_cas m.head)
  unlock_moves :
      {e : Ptr} (x : ℕ)
      → e ≡ awaiter x
      → Move i m
          (unlock_move e)
          (record m { next = update m.next x m.tail; tail = awaiter x })
          (unlock_move (m.next x))
  unlock_moved : {e : Ptr} → e ≡ locked → Move i m (unlock_move e) m unlock_pop
  unlock_pops :
      (c : ℕ)
      → m.tail ≡ awaiter c
      → Move i m unlock_pop (record m { tail = m.next c }) (unlock_wake c)
  unlock_none : m.tail ≡ unlocked → Move i m unlock_pop m idle

pub record System : Type 0 where
  pub mem : Memory
  pub pc : ℕ → Pc

pub data Step (s : System) : System → Type 0 where
  move :
      (i : ℕ) {m : Memory} {p : Pc}
      → Move i s.mem (s.pc i) m p
      → Step s (record { mem = m; pc = update s.pc i p })
  -- `Wake` lets the awaiter `c` return from its `Lock`.
  wake :
      (i c : ℕ)
      → s.pc i ≡ unlock_wake c
      → Step s (record s { pc = update (update s.pc i idle) c owner })

abbrev pub init : System
init = record {
  mem = record { head = unlocked; tail = unlocked; next = λ _. unlocked };
  pc = λ _. idle;
}

pub data Reach : System → Type 0 where
  start : Reach init
  later : {s t : System} → Reach s → Step s t → Reach t

-- Holding the lock, from the return of `Lock` to the end of `Unlock`.
abbrev pub critical : Pc → Bool
critical owner = true
critical unlock_load = true
critical (unlock_cas _) = true
critical (unlock_move _) = true
critical unlock_pop = true
critical (unlock_wake _) = true
critical _ = false

abbrev pub waits : Pc → ℕ
waits waiting = 1
waits _ = 0
