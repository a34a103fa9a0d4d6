-- ===== src/Future/Network.antt =====
-- The handles and combinators of DummyConcurrency/Future, as operations on all the contracts of a
-- program: a callback names the contract that it sets, and the tasks that contracts submit wait in
-- one list. A contract takes a value, or a callback, in one step here; Meeting and Contract show
-- what the contracts make of the steps in between.
pub mod Cells
pub mod Handles
pub mod Make
pub mod Sequential
pub mod Concurrent
pub mod Pipes
pub mod Soundness
pub mod Live
pub mod LiveTasks
pub mod Progress
pub mod Chained
pub mod Delivery
pub mod Composing
