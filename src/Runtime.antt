-- ===== src/Runtime.antt =====
-- DummyConcurrency/Runtime: the schedulers.
pub mod RunLoop
pub mod BlockingQueue
pub mod ThreadPool
pub mod FiberInvoker
