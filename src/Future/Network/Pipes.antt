-- ===== src/Future/Network/Pipes.antt =====
-- DummyConcurrency/Syntax/Future.hpp and Operators.hpp: combinators as values that a future is piped
-- into. A user function that was moved out of a pipe is not called again, since a pipe is used once.
use dummy_concurrency.Base.{ℕ, Option, some, ◌>>=◌}
use dummy_concurrency.Future.Network.Cells.{Value}
use dummy_concurrency.Future.Network.Handles.{World, Future}
use dummy_concurrency.Future.Network.Sequential.{
  map, map_ok, and_then_future, or_else_future, flatten_future, flat_map, via, as_try_future,
  as_ok_future,
}
use dummy_concurrency.Future.Network.Concurrent.{first_future, both_futures}

-- The classes of `NPipes` whose `Pipe` gives a future. `AsTryFuture` chooses by the type of the future,
-- which is written out here. The `Pipe` of `Flatten` for a `TryFuture` does not compile.
pub data Pipe : Type 0 where
  map_pipe : (user : Value → Value) → Pipe
  flat_map_pipe : (user : Value → Value) → Pipe
  map_ok_pipe : (user : Value → Value) → Pipe
  and_then_pipe : (user : Value → ℕ) → Pipe
  or_else_pipe : (user : ℕ → ℕ) → Pipe
  via_pipe : (scheduler : ℕ) → Pipe
  as_try_future_pipe as_ok_future_pipe flatten_pipe : Pipe

-- `operator|`, which calls `Pipe`.
unfoldable pub pipe : Pipe → Future → World → Option (Future × World)
unfolding map map_ok and_then_future or_else_future flatten_future flat_map via as_try_future
    as_ok_future
pipe (map_pipe user) f w = map user f w
pipe (flat_map_pipe user) f w = flat_map user f w
pipe (map_ok_pipe user) f w = map_ok user f w
pipe (and_then_pipe user) f w = and_then_future user f w
pipe (or_else_pipe user) f w = or_else_future user f w
pipe (via_pipe scheduler) f w = do f' ← via scheduler f; some (f', w)
pipe as_try_future_pipe f w = some (as_try_future f, w)
pipe as_ok_future_pipe f w = as_ok_future f w
pipe flatten_pipe f w = flatten_future f w

-- `operator||` and `operator+`
unfoldable pub first_of : Future → Future → World → Option (Future × World)
unfolding first_future
first_of lhs rhs w = first_future lhs rhs w

unfoldable pub both_of : Future → Future → World → Option (Future × World)
unfolding both_futures
both_of lhs rhs w = both_futures lhs rhs w
