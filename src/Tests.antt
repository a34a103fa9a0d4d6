-- ===== src/Tests.antt =====
-- Runs of the models at concrete inputs.
mod Protocol
mod Contracts
mod Locks
mod Lists
mod Schedulers
mod Waiting
mod Stacks
mod Counters
mod Network
mod Treiber
mod Fibers
mod Threads
mod Invoking
mod Many
mod Contexts
