-- ===== src/Lib.antt =====
-- DummyConcurrency, a C++ library of futures, fibers and synchronization primitives. The model
-- covers the parts where threads meet.
--
-- Future models DummyConcurrency/Future/State. Future/OneAll is the word of OneAllStateMachine, and
-- Future/OneAll/Protocol the orders in which a contract may call it. Future/Meeting is what the
-- contracts of two producers share (SetValueA and SetValueB or SetResult, SetCallback, Run), with
-- one turn of an actor for each access to shared memory; Future/Contracts/Both, TryBoth, First and
-- TryFirst say what each of them writes and reads. Future/Many is a contract of any number of
-- producers as a step relation over any stores, with the destructor: Many/Turns is the same as a
-- function, and Many/TryFirst and Many/PlainFirst are TryFirstContract.hpp and FirstContract.hpp with
-- the nodes and values that they make and delete. Future/Contract and Future/Rendezvous are the
-- contract of one promise and one future. Future/Expected is Result<T>, and
-- Results what DummyConcurrency/Result makes of it.
--
-- Future/Network is a program of futures: the contracts that Future/Make.hpp and Future/Combinators
-- make, with their values (Cells), callbacks and submitted tasks (Handles), the functions that begin
-- and end a chain of futures (Make), the combinators of one future (Sequential) and of two
-- (Concurrent), and the pipes of DummyConcurrency/Syntax (Pipes). A contract is submitted by the call
-- of its state machine that is answered Rendezvous. The programs do not contain the machines:
-- `submitted` says that the one of the contract has given this answer. That it gives it once, when a
-- result and the consumer are there, is the subject of Future/OneAll/Protocol, Future/Contract and
-- Future/Meeting, and is taken over here, where the subject is what the callbacks and the schedulers
-- do. The task runs at any later time: a scheduler chooses when, and the inline scheduler is the one
-- that chooses to run it at once. `none` is where an assertion of the code fails.
--
-- Sync/Mutex models the lock of DummyConcurrency/Synchronization/FiberAware: a thread or fiber is a
-- program counter, and a Move is one access of it to the shared words. DoAwait and Wake are what
-- suspends and resumes it. Sync/Mutex/View is the abstract lock, a holder and the queue of those
-- who wait.
--
-- Sync/Event is the one-shot event and Sync/WaitGroup the two wait groups of the same directory,
-- the second of which packs its counter by Utils/StampedPtr and is a step relation of any number of
-- threads in Sync/WaitGroup/Turns. Sync/Thread models the spin lock, the
-- event and the wait group of DummyConcurrency/Synchronization/Thread, which block threads; the futex
-- of the system, which they use, is taken to do what its documentation says. Sync/ThreadAwaiter is
-- DoAwait on a thread that runs no fiber.
--
-- Runtime/RunLoop models DummyConcurrency/Runtime/Scheduler/RunLoop with the inline invoker,
-- Runtime/BlockingQueue the queue of DummyConcurrency/DataStructures, Runtime/ThreadPool the pool whose
-- workers pop from it, and Runtime/FiberInvoker the invoker that runs tasks in fibers. Fiber/StackPool
-- models DummyConcurrency/Fiber/Stack, of which Fiber/StackPool/Lease is the handle of a stack that a
-- provider has given.
--
-- Fiber/Core models DummyConcurrency/Fiber/Core and Fiber/Scheduling with the awaiters of fibers. A
-- thread has the fiber that runs and the calls of Fiber::Run under way; a coroutine knows the call
-- that it returns to; an awaiter holds the handle of the fiber that is suspended with it. A fiber that
-- is woken by a symmetric switch calls AfterSuspend at once, as DoAwait does after Suspend.
--
-- Context models DummyConcurrency/Context: ExecutionContext on any number of threads, with the
-- exception globals (Exceptions/Unix) and the fibers of the thread sanitizer (Sanitizer/Thread). What a
-- switch of the machine does is that the target goes on from where it was saved.
--
-- Structures/SharedPtr models DummyConcurrency/DataStructures/AtomicSharedPtr.hpp by the counters of
-- one object and the references that the threads have to it; the stamp has its 16 bits, and a Load
-- adds to it only while fewer than 2^15 others have yet to fold what they counted. Structures/LockFreeStack is the stack of
-- DummyConcurrency/DataStructures/LockFreeStack.hpp on top of such pointers.
--
-- Utils/StampedPtr packs a pointer and a stamp into one word; Utils/IntrusiveForwardList is the
-- list that links its nodes through a field of theirs. Base holds the shared helpers, and Tests
-- the runs at concrete inputs.
--
-- The memory is sequentially consistent, as the default of the atomics is; a weak exchange may fail
-- at any time where the step relation has a retry, and a retry loop is otherwise the round that
-- succeeds. ForEach and the loop of Done have fuel, and as many units as there are nodes are
-- enough; the run loop has fuel, of which a limited run needs more than its limit, and an unlimited
-- run more than the work that the queued tasks stand for, and so does the fiber invoker. The state
-- machine counts the producers in 29 bits, so fewer than 2^29 - 1 of them are assumed where that matters.
-- Not modelled: the machine contexts and the address sanitizer, and the wrappers of the system's threads.
-- In the programs of futures a user's function is a function of its argument: it has no effects, and
-- one that returns a future returns that of a contract which exists when it is called. A function that
-- makes futures itself, or that sets a promise, is therefore not covered there.
pub mod Base
pub mod Context
pub mod Fiber
pub mod Future
pub mod Results
pub mod Runtime
pub mod Structures
pub mod Sync
pub mod Tests
pub mod Utils
