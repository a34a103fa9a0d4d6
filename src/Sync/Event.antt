-- ===== src/Sync/Event.antt =====
-- DummyConcurrency/Synchronization/FiberAware/Event: a word that says whether the event has fired,
-- or holds the stack of those who wait for it.
pub mod Waking
use dummy_concurrency.Base.{ℕ, ◌≡◌, ◌≢◌, update}
use dummy_concurrency.Sync.Awaiter.{Ptr, address_0, address_1, awaiter}

-- `kFired`
pattern abbrev pub fired : Ptr
fired = address_0

-- `kNotFired`, which also ends the stack.
pattern abbrev pub not_fired : Ptr
not_fired = address_1

-- A thread or fiber that calls `Wait`, with the local that is live there.
pub data Pc : Type 0 where
  idle : Pc  -- before the first load of `queue_head_`
  wait_load : Pc  -- in `DoAwait`, before the load
  wait_cas : (expected_head : Ptr) → Pc  -- before the test and the exchange
  waiting : Pc  -- suspended by `DoAwait`
  passed : Pc  -- returned

-- The caller of `Fire`; the event is one-shot, so there is one.
pub data Firer : Type 0 where
  ready : Firer
  walking : (head : Ptr) → Firer
  over : Firer

pub record System : Type 0 where
  pub queue_head : Ptr
  pub next : ℕ → Ptr
  pub pc : ℕ → Pc
  pub firer : Firer

abbrev pub init : System
init = record { queue_head = not_fired; next = λ _. fired; pc = λ _. idle; firer = ready }

pub data Step (s : System) : System → Type 0 where
  see_fired :
      (i : ℕ)
      → s.pc i ≡ idle
      → s.queue_head ≡ fired
      → Step s (record s { pc = update s.pc i passed })
  see_not_fired :
      (i : ℕ)
      → s.pc i ≡ idle
      → s.queue_head ≢ fired
      → Step s (record s { pc = update s.pc i wait_load })
  load :
      (i : ℕ)
      → s.pc i ≡ wait_load
      → Step s (record s { pc = update s.pc i (wait_cas s.queue_head) })
  find_fired : (i : ℕ) → s.pc i ≡ wait_cas fired → Step s (record s { pc = update s.pc i passed })
  join :
      (i : ℕ) (e : Ptr)
      → s.pc i ≡ wait_cas e
      → e ≢ fired
      → s.queue_head ≡ e
      → Step s (record s {
        queue_head = awaiter i;
        next = update s.next i e;
        pc = update s.pc i waiting;
      })
  -- The exchange fails, which a weak one may do at any time.
  retry :
      (i : ℕ) (e : Ptr)
      → s.pc i ≡ wait_cas e
      → e ≢ fired
      → Step s (record s { next = update s.next i e; pc = update s.pc i (wait_cas s.queue_head) })
  fire : s.firer ≡ ready → Step s (record s { queue_head = fired; firer = walking s.queue_head })
  -- `next` is read before `Wake`, after which the awaiter may be gone.
  wake :
      (c : ℕ)
      → s.firer ≡ walking (awaiter c)
      → Step s (record s { pc = update s.pc c passed; firer = walking (s.next c) })
  end_walk : s.firer ≡ walking not_fired → Step s (record s { firer = over })

pub data Reach : System → Type 0 where
  start : Reach init
  later : {s t : System} → Reach s → Step s t → Reach t

pub data Steps : System → System → Type 0 where
  none_more : {s : System} → Steps s s
  one_more : {s t u : System} → Step s t → Steps t u → Steps s u
