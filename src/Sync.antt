-- ===== src/Sync.antt =====
-- DummyConcurrency/Synchronization.
pub mod Awaiter
pub mod Mutex
pub mod Event
pub mod WaitGroup
pub mod Thread
pub mod ThreadAwaiter
