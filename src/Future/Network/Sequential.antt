-- ===== src/Future/Network/Sequential.antt =====
-- DummyConcurrency/Future/Combinators/Sequential: a future made from one future. `none` where the
-- future was consumed before, so that an assertion fails.
use dummy_concurrency.Base.{ℕ, Option, none, some, ◌>>=◌}
use dummy_concurrency.Future.Network.Cells.{Value, ok, single}
use dummy_concurrency.Future.Network.Handles.{
  World, Future, Callback, set_mapped, set_mapped_ok, and_then, or_else, flatten, try_flatten,
  inline_scheduler, create, consume, set_scheduler,
}

-- What the combinators share: a new contract, a callback that sets it, and its future.
unfoldable pub chain : (ℕ → Callback) → Future → ℕ → World → Option (Future × World)
unfolding create consume
chain callback f scheduler w = do
  let (c, w1) = create (single none) w
  (f', w2) ← consume f (callback c) scheduler w1
  some (record { state = some c; scheduler = f'.scheduler }, w2)

unfoldable pub map : (Value → Value) → Future → World → Option (Future × World)
unfolding chain
map user f w = chain (set_mapped user) f f.scheduler w

unfoldable pub map_ok : (Value → Value) → Future → World → Option (Future × World)
unfolding chain
map_ok user f w = chain (set_mapped_ok user) f f.scheduler w

unfoldable pub and_then_future : (Value → ℕ) → Future → World → Option (Future × World)
unfolding chain
and_then_future user f w = chain (and_then user) f f.scheduler w

unfoldable pub or_else_future : (ℕ → ℕ) → Future → World → Option (Future × World)
unfolding chain
or_else_future user f w = chain (or_else user) f f.scheduler w

-- `Flatten` of a future, and of a future of a `Result`.
unfoldable pub flatten_future : Future → World → Option (Future × World)
unfolding chain
flatten_future f w = chain flatten f inline_scheduler w

unfoldable pub try_flatten_future : Future → World → Option (Future × World)
unfolding chain
try_flatten_future f w = chain try_flatten f inline_scheduler w

-- The user's function returns futures, as values.
unfoldable pub flat_map : (Value → Value) → Future → World → Option (Future × World)
unfolding map flatten_future
flat_map user f w = do (f', w') ← map user f w; flatten_future f' w'

unfoldable pub via : ℕ → Future → Option Future
unfolding set_scheduler
via scheduler f = set_scheduler f scheduler

-- `AsTryFuture` of a future of a `Result`, and of another future.
unfoldable pub as_try_future : Future → Future
as_try_future f = f

unfoldable pub as_ok_future : Future → World → Option (Future × World)
unfolding map
as_ok_future f w = map ok f w
