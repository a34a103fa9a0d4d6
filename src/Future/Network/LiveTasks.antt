-- ===== src/Future/Network/LiveTasks.antt =====
-- The tasks that run keep it so.
use dummy_concurrency.Base.{
  ℕ, zero, suc, ◌+◌, ◌≡◌, refl, List, [], ◌∷◌, Option, none, some, update, arith,
}
use dummy_concurrency.Future.Meeting.{first}
use dummy_concurrency.Future.Network.Cells.{Value, ok, failure, future, Slots, result}
use dummy_concurrency.Future.Network.Handles.{
  World, Task, Callback, set_value, set_mapped, set_mapped_ok, and_then, or_else, flatten,
  try_flatten, set_ok, discard, deliver, contract, compute, create, invoke, run_contract, run_task,
  take_at, run_taken, run_at, inline_scheduler,
}
use dummy_concurrency.Future.Network.Live.{
  is_contract, waits, Live, put_value-Live, set_callback-Live,
}

pub create-Live : (s : Slots) (w : World) → Live w → Live (create s w).1
unfolding create
create-Live s w l = record {
  once = λ d. ground (arith, l.once d, (l.fresh d));
  due = λ d h. ground (arith, l.due d);
  fresh = λ d k. ground (arith, l.fresh d);
}

invoke-Live : (cb : Callback) (v : Value) (w : World) → Live w → Live (invoke cb v w)
unfolding invoke
invoke-Live (set_value side c) v w l = put_value-Live side c v w l
invoke-Live (set_mapped user c) v w l = put_value-Live first c (user v) w l
invoke-Live (set_mapped_ok user c) (ok v) w l = put_value-Live first c (ok (user v)) w l
invoke-Live (set_mapped_ok user c) (failure e) w l = put_value-Live first c (failure e) w l
invoke-Live (set_mapped_ok user c) v w l = l
invoke-Live (and_then user c) (ok v) w l =
    set_callback-Live (user v) (set_value first c) inline_scheduler w l
invoke-Live (and_then user c) (failure e) w l = put_value-Live first c (failure e) w l
invoke-Live (and_then user c) v w l = l
invoke-Live (or_else user c) (ok v) w l = put_value-Live first c (ok v) w l
invoke-Live (or_else user c) (failure e) w l =
    set_callback-Live (user e) (set_value first c) inline_scheduler w l
invoke-Live (or_else user c) v w l = l
invoke-Live (flatten c) (future d) w l =
    set_callback-Live d (set_value first c) inline_scheduler w l
invoke-Live (flatten c) v w l = l
invoke-Live (try_flatten c) (ok (future d)) w l =
    set_callback-Live d (set_ok c) inline_scheduler w l
invoke-Live (try_flatten c) (failure e) w l = put_value-Live first c (failure e) w l
invoke-Live (try_flatten c) v w l = l
invoke-Live (set_ok c) v w l = put_value-Live first c (ok v) w l
invoke-Live discard v w l = l
invoke-Live (deliver k) v w l = record { once = l.once; due = l.due; fresh = l.fresh }

run_contract-Live :
    (v : Option Value) (cb : Option Callback) (w : World) → Live w → Live (run_contract v cb w)
unfolding run_contract
run_contract-Live (some v) (some cb) w l = invoke-Live cb v w l
run_contract-Live (some v) none w l = l
run_contract-Live none cb w l = l

Off : List (ℕ × Task) → Option ((ℕ × Task) × List (ℕ × Task)) → Type 0
Off ts none = Unit
Off ts (some (t, rest)) = (c : ℕ) → waits c ts ≡ is_contract c t.1 + waits c rest

take_at-Off : (i : ℕ) (ts : List (ℕ × Task)) → Off ts (take_at i ts)
unfolding take_at Off
take_at-Off i [] = tt
take_at-Off zero (x ∷ ts) = λ c. refl
take_at-Off (suc i) (x ∷ ts) = put_back (take_at i ts) (take_at-Off i ts)
  where
    put_back :
        (r : Option ((ℕ × Task) × List (ℕ × Task)))
        → Off ts r
        → Off (x ∷ ts) (elim r [ none ↦ none | some (y, ys) ↦ some (y, x ∷ ys) ])
    put_back none h = tt
    put_back (some (y, ys)) h = λ c. omega (arith, h c)

-- The task `t` has been taken off the list `ts`.
run_task-Live :
    (t : ℕ × Task) (rest : List (ℕ × Task)) (w : World)
    → ((c : ℕ) → waits c w.tasks ≡ is_contract c t.1 + waits c rest)
    → Live w
    → Live (run_task t.1 (record w { tasks = rest }))
unfolding run_task
run_task-Live (s, contract c) rest w h l =
    run_contract-Live (result (w.slots c)) (w.callbacks c)
      (record w { tasks = rest; ran = update w.ran c (w.ran c + 1) })
      (record { once = λ d. ground (arith, l.once d, h d); due = l.due; fresh = l.fresh })
run_task-Live (s, compute function c) rest w h l =
    put_value-Live first c function (record w { tasks = rest })
      (record { once = λ d. omega (arith, l.once d, h d); due = l.due; fresh = l.fresh })

run_taken-Live :
    (r : Option ((ℕ × Task) × List (ℕ × Task))) (w : World)
    → Off w.tasks r
    → Live w
    → Live (run_taken r w)
unfolding run_taken Off
run_taken-Live none w h l = l
run_taken-Live (some (t, rest)) w h l = run_task-Live t rest w h l

pub run_at-Live : (i : ℕ) (w : World) → Live w → Live (run_at i w)
unfolding run_at
run_at-Live i w l = run_taken-Live (take_at i w.tasks) w (take_at-Off i w.tasks) l
