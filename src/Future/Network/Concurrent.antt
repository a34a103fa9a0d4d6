-- ===== src/Future/Network/Concurrent.antt =====
-- DummyConcurrency/Future/Combinators/Concurrent: a future made from two futures.
use dummy_concurrency.Base.{Option, none, some, [], ◌>>=◌}
use dummy_concurrency.Future.Meeting.{first, second}
use dummy_concurrency.Future.Network.Cells.{Slots, both, try_both, plain_first, try_first}
use dummy_concurrency.Future.Network.Handles.{
  World, Future, set_value, inline_scheduler, create, consume,
}

-- A new contract, of which each future sets a side.
unfoldable pub join : Slots → Future → Future → World → Option (Future × World)
unfolding create consume
join slots a b w = do
  let (c, w1) = create slots w
  (a', w2) ← consume a (set_value first c) inline_scheduler w1
  (b', w3) ← consume b (set_value second c) inline_scheduler w2
  some (record { state = some c; scheduler = inline_scheduler }, w3)

-- `Both`
unfoldable pub both_futures : Future → Future → World → Option (Future × World)
unfolding join
both_futures a b w = join (both none none) a b w

-- `BothOk`
unfoldable pub both_ok : Future → Future → World → Option (Future × World)
unfolding join
both_ok a b w = join (try_both none none 0) a b w

-- `First`
unfoldable pub first_future : Future → Future → World → Option (Future × World)
unfolding join
first_future a b w = join (plain_first none) a b w

-- `FirstOk`
unfoldable pub first_ok : Future → Future → World → Option (Future × World)
unfolding join
first_ok a b w = join (try_first [] none) a b w
