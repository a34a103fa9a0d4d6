-- ===== src/Sync/Thread.antt =====
-- DummyConcurrency/Synchronization/Thread: the primitives that block threads. The system's futex is
-- used as it is documented: `Wait` puts the thread to sleep in one step if the word is the one that is
-- expected, and goes on otherwise; `WakeAll` wakes all that sleep; and a thread may wake by itself.
pub mod SpinLock
pub mod Event
pub mod WaitGroup
