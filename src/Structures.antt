-- ===== src/Structures.antt =====
-- DummyConcurrency/DataStructures.
pub mod SharedPtr
pub mod LockFreeStack
