-- ===== src/Fiber/StackPool.antt =====
-- DummyConcurrency/Fiber/Stack: stacks on the heap, and the pool that keeps those given back in a
-- list whose nodes lie in the stacks themselves.
pub mod Keeping
pub mod Lease
pub mod LeaseOnce
pub mod Preallocating
use Prim.Native.Nat.{bit_and}
use dummy_concurrency.Base.{
  ℕ, zero, suc, ◌+◌, ◌-◌, ◌*◌, ◌%◌, ◌^◌, ◌==◌, if◌then◌else◌, Bool, List, [], ◌∷◌,
}

-- Arithmetic of `uint64_t`.
abbrev pub u64 : ℕ → ℕ
u64 n = n % 2 ^ 64

pub data StackSize : Type 0 where
  tiny small medium large : StackSize

unfoldable pub gb : ℕ → ℕ
gb x = u64 (1024 * 1024 * 1024 * x)

unfoldable pub mb : ℕ → ℕ
mb x = u64 (1024 * 1024 * x)

unfoldable pub kb : ℕ → ℕ
kb x = u64 (1024 * x)

unfoldable pub size_in_bytes : StackSize → ℕ
unfolding kb mb
size_in_bytes tiny = kb 64
size_in_bytes small = kb 256
size_in_bytes medium = mb 1
size_in_bytes large = mb 8

pub record NewStack : Type 0 where
  pub start : ℕ
  pub size : ℕ
  pub current_size : ℕ

-- `new std::byte[size]` gives the address.
unfoldable pub allocate : ℕ → ℕ → NewStack
allocate address at_least = record { start = address; size = at_least; current_size = at_least }

unfoldable pub top : NewStack → ℕ
top s = s.start + s.current_size

unfoldable pub reset : NewStack → NewStack
reset s = record s { current_size = s.size }

-- `PreAllocate` of a type of `size_of` bytes, aligned to `align_of`.
unfoldable pub pre_allocate : ℕ → ℕ → NewStack → NewStack
pre_allocate size_of align_of s = record s {
  current_size = bit_and (u64 (s.current_size + 2 ^ 64 - size_of)) (2 ^ 64 - 1 - (align_of - 1));
}

-- `NewNode`: three words of the stack and the link.
abbrev pub node_size : ℕ
node_size = 32

abbrev pub node_align : ℕ
node_align = 8

pub record StackPool : Type 0 where
  pub stack_size : ℕ
  pub stack_of_stack : List NewStack
  pub size : ℕ
  pub leased_amount : ℕ

-- The constructor with nothing to preallocate.
unfoldable pub create : StackSize → StackPool
unfolding size_in_bytes
create size = record {
  stack_size = size_in_bytes size;
  stack_of_stack = [];
  size = 0;
  leased_amount = 0;
}

unfoldable pub take_from : List NewStack → ℕ → StackPool → NewStack × StackPool
unfolding allocate
take_from [] address p = (
  allocate address p.stack_size,
  record p { size = u64 (p.size + 1); leased_amount = u64 (p.leased_amount + 1) },
)
take_from (s ∷ rest) address p = (s, record p { stack_of_stack = rest })

-- `address` is what the heap gives if the pool is empty.
unfoldable pub allocate_stack : ℕ → StackPool → NewStack × StackPool
unfolding take_from
allocate_stack address p = take_from p.stack_of_stack address p

unfoldable pub free_stack : NewStack → StackPool → StackPool
unfolding reset pre_allocate
free_stack stack p = record p {
  stack_of_stack = pre_allocate node_size node_align (reset stack) ∷ p.stack_of_stack;
  leased_amount = u64 (p.leased_amount + 2 ^ 64 - 1);
}

unfoldable pub clear : StackPool → StackPool
clear p = record p { stack_of_stack = []; size = 0; leased_amount = 0 }

-- The loops of the constructor: `addresses` are what the heap gives.
unfoldable pub allocate_all : List ℕ → StackPool → List NewStack × StackPool
unfolding allocate_stack
allocate_all [] p = ([], p)
allocate_all (address ∷ addresses) p =
    let (stack, p1) = allocate_stack address p in
    let (stacks, p2) = allocate_all addresses p1 in (stack ∷ stacks, p2)

unfoldable pub free_all : List NewStack → StackPool → StackPool
unfolding free_stack
free_all [] p = p
free_all (stack ∷ stacks) p = free_all stacks (free_stack stack p)

-- The constructor, which preallocates as many stacks as there are addresses.
unfoldable pub preallocate : StackSize → List ℕ → StackPool
unfolding create allocate_all free_all
preallocate size addresses =
    let (stacks, p) = allocate_all addresses (create size) in free_all stacks p
