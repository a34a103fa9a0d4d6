-- ===== src/Future/Network/Cells.antt =====
-- The slots of the contracts under DummyConcurrency/Future/State, and what `Run` reads from them.
use dummy_concurrency.Base.{ℕ, ◌==◌, if◌then◌else◌, Option, none, some, List, ◌∷◌}
use dummy_concurrency.Future.Meeting.{Side, first, second}

-- What futures carry. A `Result` is `ok` or `failure`, and a future is named by its contract.
pub data Value : Type 0 where
  unit : Value
  number : ℕ → Value
  pair : Value → Value → Value
  ok : Value → Value
  failure : ℕ → Value
  future : ℕ → Value

-- `ContractState`, `BothContract`, `TryBothContract` with `error_result_`, `PlainFirstContract`, and
-- `TryFirstContract` with the stack of results, newest first, and `one_result_`.
pub data Slots : Type 0 where
  unmade : Slots  -- no contract has this name yet
  single : Option Value → Slots
  both : Option Value → Option Value → Slots
  try_both : Option Value → Option Value → ℕ → Slots
  plain_first : Option Value → Slots
  try_first : List Value → Option Value → Slots

-- `SetResultA` and `SetResultB` of `TryBothContract`.
unfoldable pub put_try_both : Side → Value → Option Value → Option Value → ℕ → Slots
put_try_both first (failure e) a b error_result = try_both (some (failure e)) b 1
put_try_both first v a b error_result = try_both (some v) b error_result
put_try_both second (failure e) a b error_result = try_both a (some (failure e)) 2
put_try_both second v a b error_result = try_both a (some v) error_result

-- `SetResult` of `TryFirstContract`.
unfoldable pub put_try_first : Value → List Value → Option Value → Slots
put_try_first (ok v) results one_result = try_first (ok v ∷ results) (some (ok v))
put_try_first v results one_result = try_first (v ∷ results) one_result

-- `SetValue`, and `SetValueA` and `SetValueB`.
unfoldable pub put : Side → Value → Slots → Slots
unfolding put_try_both put_try_first
put side v unmade = unmade
put side v (single old) = single (some v)
put first v (both a b) = both (some v) b
put second v (both a b) = both a (some v)
put side v (try_both a b error_result) = put_try_both side v a b error_result
put side v (plain_first none) = plain_first (some v)
put side v (plain_first (some old)) = plain_first (some old)
put side v (try_first results one_result) = put_try_first v results one_result

-- The values of both sides, where both have succeeded.
unfoldable pub values_of : Option Value → Option Value → Option Value
values_of (some (ok a)) (some (ok b)) = some (ok (pair a b))
values_of _ _ = none

-- The error of a side, where it has failed.
unfoldable pub failure_of : Option Value → Option Value
failure_of (some (failure e)) = some (failure e)
failure_of _ = none

-- What the callback gets, once the producers have settled the contract.
unfoldable pub result : Slots → Option Value
unfolding values_of failure_of
result unmade = none
result (single v) = v
result (both (some a) (some b)) = some (pair a b)
result (both _ _) = none
result (try_both a b error_result) =
    if error_result == 0
    then values_of a b
    else if error_result == 1
    then failure_of a
    else failure_of b
result (plain_first v) = v
result (try_first results (some v)) = some v
result (try_first (v ∷ w ∷ results) none) = some v
result (try_first _ none) = none
