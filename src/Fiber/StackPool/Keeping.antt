-- ===== src/Fiber/StackPool/Keeping.antt =====
-- What the pool keeps of the stacks that it is given.
use Prim.Native.Nat.{bit_and}
use dummy_concurrency.Base.{
  ℕ, ◌+◌, ◌-◌, ◌*◌, ◌/◌, ◌%◌, ◌^◌, ◌≤◌, ◌<◌, ◌≡◌, refl, ◌∙◌, List, [], ◌∷◌, arith,
}
use dummy_concurrency.Base.Bits.{and_shifted, and-ones, ones}
use dummy_concurrency.Fiber.StackPool.{
  NewStack, StackPool, u64, allocate, reset, pre_allocate, take_from, allocate_stack, free_stack,
  node_size, node_align,
}

-- Rounding down to a multiple of 8.
mask_lem : (n : ℕ) → n < 2 ^ 64 → bit_and n (2 ^ 64 - 1 - (8 - 1)) ≡ 8 * (n / 8)
mask_lem n h = and_shifted 3 n (ones 61) ∙ omega (arith, and-ones 61 (n / 2 ^ 3))

-- A stack that is given back, with at least 32 and less than 2^64 bytes, comes out of the next
-- `AllocateStack` with its memory and size, and with its top below the node that lay in it, at a
-- multiple of 8 above its start.
pub reuses :
    (s : NewStack) (p : StackPool) (address : ℕ)
    → node_size ≤ s.size
    → s.size < 2 ^ 64
    → let (s', p') = allocate_stack address (free_stack s p) in
      (s'.start ≡ s.start)
      × (s'.size ≡ s.size)
      × (s'.current_size + node_size ≤ s.size)
      × (s.size < s'.current_size + node_size + node_align)
      × (s'.current_size % 8 ≡ 0)
      × (p'.stack_of_stack ≡ p.stack_of_stack)
unfolding allocate_stack take_from free_stack pre_allocate reset
reuses s p address h h' =
    let e = mask_lem (u64 (s.size + 2 ^ 64 - 32)) (omega arith) in
    (refl, refl, omega (arith, e), omega (arith, e), omega (arith, e), refl)

-- A stack that is given back and taken again is not counted as leased: `AllocateStack` does not add
-- to `leased_amount_` when it takes a stack from the pool, and `FreeStack` subtracts always. With
-- one stack leased and none in the pool, giving it back, taking it and giving it back again makes
-- the amount wrap around.
pub lease_wraps :
    (s : NewStack) (p : StackPool) (address : ℕ)
    → p.leased_amount ≡ 1
    → let (s', p') = allocate_stack address (free_stack s p) in
      (p'.leased_amount ≡ 0) × ((free_stack s' p').leased_amount ≡ 2 ^ 64 - 1)
unfolding allocate_stack take_from free_stack
lease_wraps s p address h = (omega (arith, h), omega (arith, h))

-- Every stack of the pool has the pool's size.
unfoldable pub OfSize : ℕ → List NewStack → Type 0
OfSize n [] = Unit
OfSize n (s ∷ rest) = (s.size ≡ n) × OfSize n rest

-- What `AllocateStack` gives and what `FreeStack` keeps has the pool's size, if all stacks of the
-- pool and the stack that is given back have it.
pub sizes_kept :
    (p : StackPool) (address : ℕ) (s : NewStack)
    → OfSize p.stack_size p.stack_of_stack
    → s.size ≡ p.stack_size
    → ((allocate_stack address p).0.size ≡ p.stack_size)
      × OfSize p.stack_size (allocate_stack address p).1.stack_of_stack
      × OfSize p.stack_size (free_stack s p).stack_of_stack
unfolding allocate_stack take_from allocate free_stack pre_allocate reset OfSize
sizes_kept p address s h e = let (a, b) = taken p.stack_of_stack h in (a, b, (e, h))
  where
    taken :
        (stacks : List NewStack)
        → OfSize p.stack_size stacks
        → ((take_from stacks address p).0.size ≡ p.stack_size)
          × OfSize p.stack_size (take_from stacks address p).1.stack_of_stack
    taken [] k = (refl, h)
    taken (x ∷ xs) k = k
