-- ===== src/Future/Contracts.antt =====
-- The four contracts behind `Both`, `BothOk`, `First` and `FirstOk`.
pub mod Both
pub mod First
pub mod TryBoth
pub mod TryFirst
