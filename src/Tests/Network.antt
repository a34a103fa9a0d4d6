-- ===== src/Tests/Network.antt =====
-- A few futures: a value that is mapped, two of which the first is taken, and errors on the way.
use dummy_concurrency.Base.{ℕ, ◌+◌, ◌≡◌, refl, none, some, [], ◌∷◌, arith}
use dummy_concurrency.Future.Expected as Expected
use dummy_concurrency.Future.Meeting.{Side, first}
use dummy_concurrency.Future.Network.Cells.{
  Value, number, ok, failure, single, plain_first, put, result,
}
use dummy_concurrency.Future.Network.Handles.{
  World, start, Future, create, put_value, set_callback, submit_if_met, set_mapped, deliver, run_at,
  run_all, run_taken, take_at, run_task, run_contract, invoke, inline_scheduler,
}
use dummy_concurrency.Future.Network.Make.{Promise, set, get}
use dummy_concurrency.Future.Network.Concurrent.{join}
use dummy_concurrency.Future.Network.Pipes.{pipe, map_pipe}
use dummy_concurrency.Future.Network.Soundness.{
  Sound, run_all-Sound, put_value-Sound, set_callback-Sound,
}
use dummy_concurrency.Future.Network.Soundness.Combinators.{
  start-Sound, create-Sound, Gives, pipe-Sound, join-Sound, set-Sound, get-Sound,
}
use dummy_concurrency.Future.Network.Make as Make
use dummy_concurrency.Future.Network.Delivery.{consumed_stops}
use dummy_concurrency.Results as Results

-- The contract `c` carries the number `c + 3`, and the user wants a 4.
abbrev In : ℕ → Side → Value → Type 0
In c side v = v ≡ number (c + 3)

abbrev Out : ℕ → Value → Type 0
Out c v = v ≡ number (c + 3)

abbrev Want : ℕ → Value → Type 0
Want k v = v ≡ number 4

abbrev increment : Value → Value
increment (number n) = number (n + 1)
increment v = v

abbrev one : World
one = (create (single none) start).1

one-Sound : Sound In Out Want one
one-Sound =
    create-Sound In Out Want (single none) start (tt, (λ s x e. e), (λ x e. e))
      (start-Sound In Out Want)

abbrev handle : Future
handle = record { state = some 0; scheduler = inline_scheduler }

pipe-Sound_example : Gives In Out Want 1 (pipe (map_pipe increment) handle one)
unfolding create
pipe-Sound_example =
    pipe-Sound In Out Want (map_pipe increment) handle 0 one refl (tt, (λ s x e. e), (λ x e. e))
      (λ v e. rw e refl) one-Sound

set-Sound_example :
    (q : Promise) × (w : World) × (set (record { state = some 0 }) (number 3) one ≡ some (q, w))
    × (q.state ≡ none)
    × Sound In Out Want w
set-Sound_example =
    set-Sound In Out Want (record { state = some 0 }) 0 (number 3) one refl refl one-Sound

get-Sound_example :
    (w : World) × (get 7 handle one ≡ some w)
    × Sound (λ c side v. v ≡ number 4) (λ c v. v ≡ number 4) Want w
get-Sound_example =
    get-Sound (λ c side v. v ≡ number 4) (λ c v. v ≡ number 4) Want 7 handle 0 one refl (λ v e. e)
      (create-Sound (λ c side v. v ≡ number 4) (λ c v. v ≡ number 4) Want (single none) start
        (tt, (λ s x e. e), (λ x e. e))
        (start-Sound (λ c side v. v ≡ number 4) (λ c v. v ≡ number 4) Want))

-- Numbers on every side.
abbrev IsNumber : Value → Type 0
IsNumber (number n) = Unit
IsNumber v = ⊥

abbrev Ins : ℕ → Side → Value → Type 0
Ins c side = IsNumber

abbrev Outs : ℕ → Value → Type 0
Outs c = IsNumber

abbrev two : World
two = (create (single none) one).1

two-Sound : Sound Ins Outs Outs two
two-Sound =
    create-Sound Ins Outs Outs (single none) one (tt, (λ s x e. e), (λ x e. e))
      (create-Sound Ins Outs Outs (single none) start (tt, (λ s x e. e), (λ x e. e))
        (start-Sound Ins Outs Outs))

join-Sound_example :
    Gives Ins Outs Outs 2
      (join (plain_first none) handle (record { state = some 1; scheduler = 0 }) two)
unfolding create
join-Sound_example =
    join-Sound Ins Outs Outs (plain_first none) handle (record { state = some 1; scheduler = 0 }) 0
      1 two refl refl (tt, (λ s x e. e)) (λ v e. e) (λ v e. e) two-Sound

-- The first contract has a value, which is mapped to the second, which is delivered.
abbrev busy : World
busy = set_callback 1 (deliver 7) 0 (
    set_callback 0 (set_mapped increment 1) 0
      (put_value first 0 (number 3) (create (single none) one).1))

busy-Sound : Sound In Out Want busy
busy-Sound =
    set_callback-Sound In Out Want 1 (deliver 7) 0
      (set_callback 0 (set_mapped increment 1) 0
        (put_value first 0 (number 3) (create (single none) one).1))
      (λ v e. e)
      (set_callback-Sound In Out Want 0 (set_mapped increment 1) 0
        (put_value first 0 (number 3) (create (single none) one).1) (λ v e. rw e refl)
        (put_value-Sound In Out Want first 0 (number 3) (create (single none) one).1 refl
          (create-Sound In Out Want (single none) one (tt, (λ s x e. e), (λ x e. e)) one-Sound)))

run_all-Sound_example : Sound In Out Want (run_all (0 ∷ 0 ∷ []) busy)
run_all-Sound_example = run_all-Sound In Out Want (0 ∷ 0 ∷ []) busy busy-Sound

-- The run of those tasks delivers one value.
busy_delivers : (run_all (0 ∷ 0 ∷ []) busy).delivered ≡ (7, number 4) ∷ []
unfolding run_all run_at run_taken take_at run_task run_contract invoke create put_value
    set_callback submit_if_met put result
busy_delivers = refl

-- A contract that is made, set, awaited and run.
abbrev done : World
done = run_at 0 (set_callback 0 (deliver 7) 0 (put_value first 0 (number 3) one))

-- The futures of the contracts 0, 1 and 2, of which none was consumed.
abbrev three_ready : World
three_ready =
    (Make.ready (ok (number 7)) (Make.ready (failure 5) (Make.ready (ok (number 3)) start).1).1).1

consumed_stops_example :
    pipe (map_pipe increment) (record { state = none; scheduler = 0 }) one ≡ none
consumed_stops_example =
    consumed_stops (map_pipe increment) (record { state = none; scheduler = 0 }) one refl
      (ground arith)
