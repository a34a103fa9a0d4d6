-- ===== src/Future.antt =====
-- DummyConcurrency/Future.
pub mod Expected
pub mod OneAll
pub mod Rendezvous
pub mod Contract
pub mod Meeting
pub mod Contracts
pub mod Many
pub mod Network
