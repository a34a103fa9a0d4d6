-- ===== src/Tests/Stacks.antt =====
-- A pool that gets one stack of 64 KB back.
use dummy_concurrency.Base.{◌-◌, ◌^◌, ◌≡◌, refl, []}
use dummy_concurrency.Fiber.StackPool.{NewStack, StackPool, allocate_stack, free_stack}
use dummy_concurrency.Fiber.StackPool.Keeping.{OfSize, lease_wraps, sizes_kept}

abbrev stack : NewStack
stack = record { start = 4096; size = 65536; current_size = 65536 }

abbrev pool : StackPool
pool = record { stack_size = 65536; stack_of_stack = []; size = 1; leased_amount = 1 }

lease_wraps_example :
    let (s', p') = allocate_stack 8192 (free_stack stack pool) in
    (p'.leased_amount ≡ 0) × ((free_stack s' p').leased_amount ≡ 2 ^ 64 - 1)
lease_wraps_example = lease_wraps stack pool 8192 refl

pool-OfSize : OfSize pool.stack_size pool.stack_of_stack
unfolding OfSize
pool-OfSize = tt

sizes_kept_example :
    ((allocate_stack 8192 pool).0.size ≡ 65536)
    × OfSize 65536 (allocate_stack 8192 pool).1.stack_of_stack
    × OfSize 65536 (free_stack stack pool).stack_of_stack
sizes_kept_example = sizes_kept pool 8192 stack pool-OfSize refl
