-- ===== src/Fiber/StackPool/Lease.antt =====
-- DummyConcurrency/Fiber/Stack/StackProvider and InlineStackPool: a stack that is leased from a provider,
-- and is given back when its handle is destroyed.
use dummy_concurrency.Base.{
  ℕ, zero, suc, ◌+◌, Bool, true, false, if◌then◌else◌, List, [], ◌∷◌, ◌++◌,
}
use dummy_concurrency.Fiber.StackPool.{NewStack, allocate}

-- `IStackProvider`
pub record StackProvider (S : Type 0) : Type 0 where
  pub allocate_stack : S → NewStack × S
  pub free_stack : NewStack → S → S

-- `LeasedStack`, with whether `pool_` is not null.
pub record LeasedStack : Type 0 where
  pub stack : NewStack
  pub has_pool : Bool

-- The move of a `NewStack` leaves a null pointer.
unfoldable pub move_stack : NewStack → NewStack × NewStack
move_stack stack = (stack, record stack { start = 0 })

-- The move constructor: the new object, and the old one.
unfoldable pub move_lease : LeasedStack → LeasedStack × LeasedStack
unfolding move_stack
move_lease other =
    let (stack, left) = move_stack other.stack in
    (record { stack = stack; has_pool = other.has_pool }, record { stack = left; has_pool = false })

module _ {S : Type 0} (provider : StackProvider S) where
  -- `GetStack`
  unfoldable pub get_stack : S → LeasedStack × S
  get_stack s =
      let (stack, s') = provider.allocate_stack s in (record { stack = stack; has_pool = true }, s')

  -- The destructor.
  unfoldable pub destroy_lease : LeasedStack → S → S
  destroy_lease l s = if l.has_pool then provider.free_stack l.stack s else s

  -- A lease that is moved as often as `n` says: all the objects, the last one first.
  unfoldable pub move_on : ℕ → LeasedStack → List LeasedStack
  unfolding move_lease
  move_on zero l = l ∷ []
  move_on (suc n) l = let (next, left) = move_lease l in move_on n next ++ left ∷ []

  unfoldable pub destroy_all : List LeasedStack → S → S
  unfolding destroy_lease
  destroy_all [] s = s
  destroy_all (l ∷ ls) s = destroy_all ls (destroy_lease l s)

-- `InlineStackPool`, of stacks of the size `size`; the heap gives the addresses from `next` on, and
-- `deleted` are those that were given back to it, the last one first.
pub record Heap : Type 0 where
  pub next : ℕ
  pub deleted : List ℕ

unfoldable pub inline_allocate : ℕ → Heap → NewStack × Heap
unfolding allocate
inline_allocate size h = (allocate h.next size, record h { next = h.next + size })

unfoldable pub inline_free : NewStack → Heap → Heap
inline_free stack h = record h { deleted = stack.start ∷ h.deleted }

abbrev pub inline_stack_pool : ℕ → StackProvider Heap
inline_stack_pool size = record { allocate_stack = inline_allocate size; free_stack = inline_free }
