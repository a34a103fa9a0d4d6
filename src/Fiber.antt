-- ===== src/Fiber.antt =====
-- DummyConcurrency/Fiber.
pub mod StackPool
pub mod Core
