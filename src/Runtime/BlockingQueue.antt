-- ===== src/Runtime/BlockingQueue.antt =====
-- DummyConcurrency/DataStructures/IntrusiveUnboundedBlockingQueue.hpp: a queue with a mutex and a
-- condition variable. Each function is a stretch of code under the mutex; the condition variable is
-- the number of threads that sleep on it. The queue is the sequence of its nodes.
use dummy_concurrency.Base.{
  ℕ, ◌+◌, ◌-◌, if◌then◌else◌, Bool, true, false, Option, none, some, List, [], ◌∷◌, ◌++◌,
}

pub record BlockingQueue : Type 0 where
  pub items : List ℕ
  pub closed : Bool
  pub sleeping : ℕ

abbrev pub create : BlockingQueue
create = record { items = []; closed = false; sleeping = 0 }

-- `Push` with `notify_one`, which wakes a thread if one sleeps; `none` where the assertion fails.
unfoldable pub push : BlockingQueue → ℕ → Option BlockingQueue
push q value =
    if q.closed
    then none
    else some (record q { items = q.items ++ value ∷ []; sleeping = q.sleeping - 1 })

-- What `Pop` comes to while it has the mutex: it sleeps, or returns.
pub data Popped : Type 0 where
  sleeps null : Popped
  gives : ℕ → Popped

unfoldable pub pop_from : List ℕ → BlockingQueue → Popped × BlockingQueue
pop_from [] q = if q.closed then (null, q) else (sleeps, record q { sleeping = q.sleeping + 1 })
pop_from (x ∷ xs) q = (gives x, record q { items = xs })

-- A turn of the loop of `Pop`, and what follows the loop.
unfoldable pub pop : BlockingQueue → Popped × BlockingQueue
unfolding pop_from
pop q = pop_from q.items q

-- `Close` with `notify_all`
unfoldable pub close : BlockingQueue → BlockingQueue
close q = record q { closed = true; sleeping = 0 }
