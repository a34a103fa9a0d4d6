-- ===== src/Fiber/StackPool/Preallocating.antt =====
-- What the constructor of the pool preallocates.
use dummy_concurrency.Base.{
  ℕ, suc, ◌+◌, ◌^◌, ◌≤◌, ◌<◌, ◌≡◌, refl, sym, ap, subst, ◌∙◌, List, [], ◌∷◌, length, arith,
}
use dummy_concurrency.Fiber.StackPool.{
  NewStack, StackPool, StackSize, u64, size_in_bytes, allocate, reset, pre_allocate, create,
  take_from, allocate_stack, free_stack, allocate_all, free_all, preallocate,
}
use dummy_concurrency.Fiber.StackPool.Keeping.{OfSize}

-- What `count` allocations from the empty pool `p` make of it.
record Allocated (count : ℕ) (p : StackPool) (stacks : List NewStack) (p' : StackPool)
    : Type 0 where
  stack_size : p'.stack_size ≡ p.stack_size
  none_kept : p'.stack_of_stack ≡ []
  size : p'.size ≡ p.size + count
  leased : p'.leased_amount ≡ p.leased_amount + count
  many : length stacks ≡ count
  sizes : OfSize p.stack_size stacks

allocates :
    (addresses : List ℕ) (p : StackPool)
    → p.stack_of_stack ≡ []
    → p.size + length addresses < 2 ^ 64
    → p.leased_amount + length addresses < 2 ^ 64
    → Allocated (length addresses) p (allocate_all addresses p).0 (allocate_all addresses p).1
unfolding allocate_all OfSize
allocates [] p e h k = record {
  stack_size = refl;
  none_kept = e;
  size = omega arith;
  leased = omega arith;
  many = refl;
  sizes = tt;
}
allocates (address ∷ addresses) p e h k =
    let p1 : StackPool = record p {
      size = u64 (p.size + 1);
      leased_amount = u64 (p.leased_amount + 1);
    } in
    let taken : allocate_stack address p ≡ (allocate address p.stack_size, p1) =
      ap (λ stacks. take_from stacks address p) e in
    let rest = allocates addresses p1 e (omega (arith, h)) (omega (arith, k)) in
    subst
      (λ q.
        Allocated (length (address ∷ addresses)) p (q.0 ∷ (allocate_all addresses q.1).0)
          (allocate_all addresses q.1).1)
      (sym taken)
      (record {
        stack_size = rest.stack_size;
        none_kept = rest.none_kept;
        size = omega (arith, rest.size, h);
        leased = omega (arith, rest.leased, k);
        many = ap suc rest.many;
        sizes = (refl, rest.sizes);
      })

-- What giving back the stacks makes of the pool `p`.
record Freed (stacks : List NewStack) (p p' : StackPool) : Type 0 where
  stack_size : p'.stack_size ≡ p.stack_size
  size : p'.size ≡ p.size
  many : length p'.stack_of_stack ≡ length stacks + length p.stack_of_stack
  leased : p'.leased_amount + length stacks ≡ p.leased_amount
  sizes : OfSize p.stack_size p'.stack_of_stack

frees :
    (stacks : List NewStack) (p : StackPool)
    → OfSize p.stack_size stacks
    → OfSize p.stack_size p.stack_of_stack
    → length stacks ≤ p.leased_amount
    → p.leased_amount < 2 ^ 64
    → Freed stacks p (free_all stacks p)
unfolding free_all free_stack OfSize pre_allocate reset
frees [] p g h k l = record {
  stack_size = refl;
  size = refl;
  many = omega arith;
  leased = omega arith;
  sizes = h;
}
frees (stack ∷ stacks) p g h k l =
    let rest = frees stacks (free_stack stack p) g.1 (g.0, h) (omega (arith, k)) (omega arith) in
    record {
      stack_size = rest.stack_size;
      size = rest.size;
      many = omega (arith, rest.many);
      leased = omega (arith, rest.leased, k, l);
      sizes = rest.sizes;
    }

-- A pool that preallocates less than 2^64 stacks has that many, all of its size, and none of them is
-- leased.
pub preallocates :
    (size : StackSize) (addresses : List ℕ)
    → length addresses < 2 ^ 64
    → let p = preallocate size addresses in
      (p.stack_size ≡ size_in_bytes size)
      × (length p.stack_of_stack ≡ length addresses)
      × (p.size ≡ length addresses)
      × (p.leased_amount ≡ 0)
      × OfSize (size_in_bytes size) p.stack_of_stack
unfolding preallocate create OfSize
preallocates size addresses h =
    let a = allocates addresses (create size) refl (omega arith) (omega arith) in
    let p = (allocate_all addresses (create size)).1 in
    let stacks = (allocate_all addresses (create size)).0 in
    let f =
      frees stacks p (subst (λ n. OfSize n stacks) (sym a.stack_size) a.sizes)
        (subst (OfSize p.stack_size) (sym a.none_kept) tt) (omega (arith, a.many, a.leased))
        (omega (arith, a.leased, h)) in
    (
      f.stack_size ∙ a.stack_size,
      omega (arith, f.many, a.many, ap length a.none_kept),
      omega (arith, f.size, a.size),
      omega (arith, f.leased, a.leased, a.many),
      subst (λ n. OfSize n (free_all stacks p).stack_of_stack) a.stack_size f.sizes,
    )
