-- ===== src/Fiber/StackPool/LeaseOnce.antt =====
-- A leased stack goes back to its provider.
use dummy_concurrency.Base.{
  ℕ, zero, suc, ◌≡◌, refl, true, false, List, [], ◌∷◌, ◌++◌, append-nil, append_assoc, ◌∙◌, ap, sym,
}
use dummy_concurrency.Fiber.StackPool.{NewStack}
use dummy_concurrency.Fiber.StackPool.Lease.{
  StackProvider, LeasedStack, move_stack, move_lease, get_stack, destroy_lease, move_on,
  destroy_all,
}

module _ {S : Type 0} (provider : StackProvider S) where
  -- An object that has been moved from gives nothing back.
  destroys :
      (n : ℕ) (stack : NewStack) (ls : List LeasedStack) (s : S)
      → ((u : S) → destroy_all provider ls u ≡ u)
      → destroy_all provider
          (move_on provider n (record { stack = stack; has_pool = true }) ++ ls)
          s
        ≡ provider.free_stack stack s
  unfolding destroy_all destroy_lease move_on move_lease move_stack
  destroys zero stack ls s h = h (provider.free_stack stack s)
  destroys (suc n) stack ls s h =
      let left : LeasedStack = record { stack = record stack { start = 0 }; has_pool = false } in
      ap (λ l. destroy_all provider l s)
        (append_assoc (move_on provider n (record { stack = stack; has_pool = true })) (left ∷ [])
          ls)
      ∙ destroys n stack (left ∷ ls) s h

  -- However often the lease of a stack is moved, the destructors of all its objects give the stack back
  -- to its provider once.
  pub given_back_once :
      (n : ℕ) (s : S)
      → let (l, s') = get_stack provider s in
        destroy_all provider (move_on provider n l) s'
        ≡ provider.free_stack (provider.allocate_stack s).0 (provider.allocate_stack s).1
  unfolding get_stack destroy_all
  given_back_once n s =
      let (stack, s') = provider.allocate_stack s in
      let leased : LeasedStack = record { stack = stack; has_pool = true } in
      ap (λ l. destroy_all provider l s') (sym (append-nil (move_on provider n leased)))
      ∙ destroys n stack [] s' (λ u. refl)
