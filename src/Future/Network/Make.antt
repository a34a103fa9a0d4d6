-- ===== src/Future/Network/Make.antt =====
-- DummyConcurrency/Future/Make.hpp and Future/Terminators.hpp: where futures begin and end.
use dummy_concurrency.Base.{ℕ, Option, none, some, [], ◌∷◌, ◌++◌, ◌>>=◌}
use dummy_concurrency.Future.Meeting.{first}
use dummy_concurrency.Future.Network.Cells.{Value, unit, ok, failure, single}
use dummy_concurrency.Future.Network.Handles.{
  World, Future, compute, deliver, discard, inline_scheduler, create, put_value, consume,
}

unfoldable pub ready : Value → World → Future × World
unfolding create put_value
ready value w =
    let (c, w') = create (single none) w in
    (record { state = some c; scheduler = inline_scheduler }, put_value first c value w')

-- `Return`
unfoldable pub return_ready : Value → World → Future × World
unfolding ready
return_ready value w = ready value w

-- `Value`
unfoldable pub value_ready : Value → World → Future × World
unfolding ready
value_ready value w = ready value w

unfoldable pub just : World → Future × World
unfolding value_ready
just w = value_ready unit w

-- `Ok` and `Failure`
unfoldable pub ok_ready : Value → World → Future × World
unfolding ready
ok_ready value w = ready (ok value) w

unfoldable pub failure_ready : ℕ → World → Future × World
unfolding ready
failure_ready error w = ready (failure error) w

-- `Promise<T>`, whose `state_` is null after `Set`.
pub record Promise : Type 0 where
  pub state : Option ℕ

-- `Promise::Set`; `none` where the assertion fails.
unfoldable pub set_state : Option ℕ → Value → World → Option (Promise × World)
unfolding put_value
set_state none value w = none
set_state (some c) value w = some (record { state = none }, put_value first c value w)

unfoldable pub set : Promise → Value → World → Option (Promise × World)
unfolding set_state
set p value w = set_state p.state value w

-- `Contract`
unfoldable pub make_contract : World → (Future × Promise) × World
unfolding create
make_contract w =
    let (c, w') = create (single none) w in
    ((record { state = some c; scheduler = inline_scheduler }, record { state = some c }), w')

-- `Submit` of a function to a scheduler.
unfoldable pub submit : ℕ → Value → World → Future × World
unfolding create
submit scheduler function w =
    let (c, w') = create (single none) w in
    (
      record { state = some c; scheduler = inline_scheduler },
      record w' { tasks = w'.tasks ++ (scheduler, compute function c) ∷ [] },
    )

-- `Get` up to its wait for the value, which is noted under `k`.
unfoldable pub get : ℕ → Future → World → Option World
unfolding consume
get k f w = do (_, w') ← consume f (deliver k) inline_scheduler w; some w'

unfoldable pub detach : Future → World → Option World
unfolding consume
detach f w = do (_, w') ← consume f discard inline_scheduler w; some w'
