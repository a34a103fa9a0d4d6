-- ===== src/Tests/Contracts.antt =====
-- Contracts of two producers, and of one, run to the end.
use dummy_concurrency.Base.{ℕ, ◌≤◌, ◌≡◌, ◌≢◌, refl, Bool, true, some, Option, List, [], ◌∷◌, length}
use dummy_concurrency.Future.Expected.{Expected, ok, failure}
use dummy_concurrency.Future.Meeting.{
  first, second, Actor, producer, consumer, task, Phase, Task, Behaviour, create, run,
}
use dummy_concurrency.Future.Meeting.Delivery.{called_once}
use dummy_concurrency.Future.Meeting.Values.{All}
use dummy_concurrency.Future.Contracts.Both.{Slots, empty, both}
use dummy_concurrency.Future.Contracts.TryBoth as TryBoth
use dummy_concurrency.Future.Contract as Single
use dummy_concurrency.Future.Contract.Delivery as Delivery

abbrev pair : Behaviour (Slots ℕ Bool) (Option (ℕ × Bool))
pair = both 3 true

-- The first producer, the consumer, the second producer, then the task.
abbrev turns : List Actor
turns =
    producer first
    ∷ producer first
    ∷ producer first
    ∷ consumer
    ∷ consumer
    ∷ consumer
    ∷ producer second
    ∷ producer second
    ∷ producer second
    ∷ task
    ∷ task
    ∷ task
    ∷ []

abbrev fails_first : Expected ℕ ℕ
fails_first = failure 7

abbrev succeeds_second : Expected ℕ ℕ
succeeds_second = ok 5

called_once_example :
    (length (run pair turns (create empty)).calls ≤ 1)
    × ((run pair turns (create empty)).deletions ≤ 1)
called_once_example = called_once pair empty turns

try_both_delivers_example :
    let c = run (TryBoth.try_both fails_first succeeds_second) turns (create TryBoth.empty) in
    All (TryBoth.Outcome fails_first succeeds_second) c.calls
    × (c.first_phase ≡ Phase.over
        → c.second_phase ≡ Phase.over
        → c.consumer ≡ Phase.over
        → (c.task ≢ Task.absent) × (c.task ≡ Task.over → length c.calls ≡ 1))
try_both_delivers_example = TryBoth.try_both_delivers fails_first succeeds_second turns

-- The promise is set, then the future consumed, then the task runs.
abbrev single_turns : List Single.Actor
single_turns =
    Single.producer ∷ Single.producer ∷ Single.producer ∷ Single.consumer ∷ Single.consumer
    ∷ Single.consumer ∷ Single.task ∷ Single.task ∷ []

abbrev three : ℕ
three = 3

delivered_at_last_example :
    ((Single.run three single_turns Single.create).calls ≡ some three ∷ [])
    × ((Single.run three single_turns Single.create).deletions ≡ 1)
unfolding Single.run Single.create
delivered_at_last_example = Delivery.delivered_at_last three single_turns refl
