-- ===== src/Sync/WaitGroup.antt =====
-- DummyConcurrency/Synchronization/FiberAware/WaitGroup: a counter, and those who wait for it to come
-- to 0. `SpinlockWaitGroup` keeps a list under a lock; `BadPointerWaitGroup` packs the counter and
-- the top of a stack into one word. Each operation is given as its effect at the access that
-- succeeds.
pub mod Counting
pub mod Turns
pub mod Owners
pub mod Moves
pub mod Waiting
use dummy_concurrency.Base.{
  ℕ, zero, suc, ◌+◌, ◌-◌, ◌%◌, ◌^◌, ◌==◌, leb, if◌then◌else◌, Bool, true, false, Option, none, some,
  List, [], ◌∷◌, ◌++◌, update,
}
use dummy_concurrency.Utils.StampedPtr.{StampedPtr, pack, unpack, max_stamp}

pub record SpinlockWaitGroup : Type 0 where
  pub counter : ℕ
  pub wait_queue : List ℕ

pub record BadPointerWaitGroup : Type 0 where
  pub state : ℕ
  pub next : ℕ → ℕ

-- `SpinlockWaitGroup`, whose counter is a `uint32_t`.
unfoldable pub spin_add : ℕ → SpinlockWaitGroup → SpinlockWaitGroup
spin_add count g = record g { counter = (g.counter + count) % 2 ^ 32 }

-- The loop that moves the queue into `buffer`.
unfoldable pub move_all : List ℕ → List ℕ → List ℕ
move_all [] buffer = buffer
move_all (x ∷ queue) buffer = move_all queue (buffer ++ x ∷ [])

-- The awaiters woken, in order, and the group.
unfoldable pub spin_done : SpinlockWaitGroup → List ℕ × SpinlockWaitGroup
unfolding move_all
spin_done g =
    let counter = (g.counter + 2 ^ 32 - 1) % 2 ^ 32 in
    if counter == 0
    then (move_all g.wait_queue [], record { counter = counter; wait_queue = [] })
    else ([], record g { counter = counter })

-- Whether `awaiter` is suspended, and the group.
unfoldable pub spin_wait : ℕ → SpinlockWaitGroup → Bool × SpinlockWaitGroup
spin_wait awaiter g =
    if g.counter == 0
    then (false, g)
    else (true, record g { wait_queue = g.wait_queue ++ awaiter ∷ [] })

-- `BadPointerWaitGroup`, with the state as it was loaded; `none` where an assertion fails.
unfoldable pub add_to : ℕ → StampedPtr → BadPointerWaitGroup → Option BadPointerWaitGroup
add_to count ptr g =
    if leb (ptr.stamp + count) max_stamp
    then some (record g { state = pack (record ptr { stamp = ptr.stamp + count }) })
    else none

unfoldable pub pointer_add : ℕ → BadPointerWaitGroup → Option BadPointerWaitGroup
unfolding add_to
pointer_add count g = add_to count (unpack g.state) g

-- The loop of `Done` with fuel: the awaiters woken, in order. `Next` is read before `Wake`.
unfoldable pub wake_all : (ℕ → ℕ) → ℕ → ℕ → Option (List ℕ)
wake_all next zero head = if head == 0 then some [] else none
wake_all next (suc fuel) head =
    let rest = wake_all next fuel (next head) in
    if head == 0 then some [] else elim rest [ none ↦ none | some xs ↦ some (head ∷ xs) ]

unfoldable pub done_from :
    ℕ → StampedPtr → BadPointerWaitGroup → Option (Option (List ℕ) × BadPointerWaitGroup)
unfolding wake_all
done_from fuel ptr g =
    if ptr.stamp == 0
    then none
    else if ptr.stamp == 1
    then some (
      wake_all g.next fuel ptr.raw_ptr,
      record g { state = pack (record { raw_ptr = 0; stamp = 0 }) },
    )
    else some (some [], record g { state = pack (record ptr { stamp = ptr.stamp - 1 }) })

unfoldable pub pointer_done :
    ℕ → BadPointerWaitGroup → Option (Option (List ℕ) × BadPointerWaitGroup)
unfolding done_from
pointer_done fuel g = done_from fuel (unpack g.state) g

unfoldable pub wait_at : ℕ → StampedPtr → BadPointerWaitGroup → Bool × BadPointerWaitGroup
wait_at awaiter ptr g = if ptr.stamp == 0 then (false, g) else (
  true,
  record {
    state = pack (record { raw_ptr = awaiter; stamp = ptr.stamp });
    next = update g.next awaiter ptr.raw_ptr;
  },
)

unfoldable pub pointer_wait : ℕ → BadPointerWaitGroup → Bool × BadPointerWaitGroup
unfolding wait_at
pointer_wait awaiter g = wait_at awaiter (unpack g.state) g
