-- ===== src/Future/Network/Handles.antt =====
-- DummyConcurrency/Future/Future.hpp and Future/State: futures as handles of contracts, and the
-- contracts of a program with the tasks that they submit.
use dummy_concurrency.Base.{
  ℕ, zero, suc, ◌+◌, if◌then◌else◌, Bool, true, false, not, ◌&&◌, Option, none, some, List, [], ◌∷◌,
  ◌++◌, update,
}
use dummy_concurrency.Future.Meeting.{Side, first}
use dummy_concurrency.Future.Network.Cells.{
  Value, ok, failure, future, Slots, unmade, single, put, result,
}

-- The callbacks that the library passes to `Consume`. `c` is the contract that they set, on a side
-- of it. A user function is a function of its argument, without effects; one that returns a future is
-- given as the contract, an existing one, of what it returns.
pub data Callback : Type 0 where
  set_value : (side : Side) → (c : ℕ) → Callback
  set_mapped : (user : Value → Value) → (c : ℕ) → Callback
  set_mapped_ok : (user : Value → Value) → (c : ℕ) → Callback
  and_then : (user : Value → ℕ) → (c : ℕ) → Callback
  or_else : (user : ℕ → ℕ) → (c : ℕ) → Callback
  flatten : (c : ℕ) → Callback
  try_flatten : (c : ℕ) → Callback
  set_ok : (c : ℕ) → Callback
  discard : Callback
  deliver : (k : ℕ) → Callback  -- the user's: what it gets is noted under `k`

-- A submitted task: a contract with a value and a callback, or a function whose result is set.
pub data Task : Type 0 where
  contract : (c : ℕ) → Task
  compute : (function : Value) → (c : ℕ) → Task

pub record World : Type 0 where
  pub slots : ℕ → Slots
  pub callbacks : ℕ → Option Callback
  pub schedulers : ℕ → ℕ
  pub submitted : ℕ → Bool
  pub ran : ℕ → ℕ
  pub next : ℕ
  pub tasks : List (ℕ × Task)
  pub delivered : List (ℕ × Value)

-- Before anything is made.
abbrev pub start : World
start = record {
  slots = λ c. unmade;
  callbacks = λ c. none;
  schedulers = λ c. 0;
  submitted = λ c. false;
  ran = λ c. 0;
  next = 0;
  tasks = [];
  delivered = [];
}

-- `Future<T>`, whose `state_` is null after a move or `Consume`.
pub record Future : Type 0 where
  pub state : Option ℕ
  pub scheduler : ℕ

abbrev pub inline_scheduler : ℕ
inline_scheduler = 0

abbrev pub is_some : {A : Type 0} → Option A → Bool
is_some none = false
is_some (some a) = true

unfoldable pub create : Slots → World → ℕ × World
create s w = (
  w.next,
  record w {
    slots = update w.slots w.next s;
    callbacks = update w.callbacks w.next none;
    submitted = update w.submitted w.next false;
    ran = update w.ran w.next 0;
    next = w.next + 1;
  },
)

-- `SubmitContract`
abbrev pub submit_contract : ℕ → World → World
submit_contract c w = record w {
  submitted = update w.submitted c true;
  tasks = w.tasks ++ (w.schedulers c, contract c) ∷ [];
}

-- `if (state_.Produce()) SubmitContract();` and the same of `Consume` and of the other machines.
-- `submitted` stands for the state of the machine: it has answered `Rendezvous`, which
-- Future/OneAll/Protocol and Future/Contract show to happen once, when both sides have arrived.
unfoldable pub submit_if_met : ℕ → World → World
submit_if_met c w =
    if is_some (result (w.slots c)) && is_some (w.callbacks c) && not (w.submitted c)
    then submit_contract c w
    else w

unfoldable pub put_value : Side → ℕ → Value → World → World
unfolding submit_if_met
put_value side c v w =
    submit_if_met c (record w { slots = update w.slots c (put side v (w.slots c)) })

unfoldable pub set_callback : ℕ → Callback → ℕ → World → World
unfolding submit_if_met
set_callback c cb scheduler w = submit_if_met c (record w {
  callbacks = update w.callbacks c (some cb);
  schedulers = update w.schedulers c scheduler;
})

-- `Consume`: the handle and the world afterwards; `none` where the assertion fails.
unfoldable pub consume_state : Option ℕ → Future → Callback → ℕ → World → Option (Future × World)
unfolding set_callback
consume_state none f cb scheduler w = none
consume_state (some c) f cb scheduler w =
    some (record f { state = none }, set_callback c cb scheduler w)

unfoldable pub consume : Future → Callback → ℕ → World → Option (Future × World)
unfolding consume_state
consume f cb scheduler w = consume_state f.state f cb scheduler w

-- `IsReady` of the contracts: that of `ContractState` tests `state | Produced`, which is never 0, and
-- the others whether a result has arrived.
unfoldable pub has_result : Slots → Bool
unfolding result
has_result (single v) = true
has_result s = is_some (result s)

unfoldable pub is_ready : Future → World → Option Bool
unfolding has_result
is_ready f w = elim f.state [ none ↦ none | some c ↦ some (has_result (w.slots c)) ]

unfoldable pub set_scheduler : Future → ℕ → Option Future
set_scheduler f scheduler = elim f.state [
  | none ↦ none
  | some c ↦ some (record f { scheduler = scheduler })
]

-- A call of a callback. A value of another type than the callback's does not occur.
unfoldable pub invoke : Callback → Value → World → World
unfolding put_value set_callback
invoke (set_value side c) v w = put_value side c v w
invoke (set_mapped user c) v w = put_value first c (user v) w
invoke (set_mapped_ok user c) (ok v) w = put_value first c (ok (user v)) w
invoke (set_mapped_ok user c) (failure e) w = put_value first c (failure e) w
invoke (set_mapped_ok user c) _ w = w
invoke (and_then user c) (ok v) w = set_callback (user v) (set_value first c) inline_scheduler w
invoke (and_then user c) (failure e) w = put_value first c (failure e) w
invoke (and_then user c) _ w = w
invoke (or_else user c) (ok v) w = put_value first c (ok v) w
invoke (or_else user c) (failure e) w = set_callback (user e) (set_value first c) inline_scheduler w
invoke (or_else user c) _ w = w
invoke (flatten c) (future d) w = set_callback d (set_value first c) inline_scheduler w
invoke (flatten c) _ w = w
invoke (try_flatten c) (ok (future d)) w = set_callback d (set_ok c) inline_scheduler w
invoke (try_flatten c) (failure e) w = put_value first c (failure e) w
invoke (try_flatten c) _ w = w
invoke (set_ok c) v w = put_value first c (ok v) w
invoke discard v w = w
invoke (deliver k) v w = record w { delivered = (k, v) ∷ w.delivered }

-- `Run` of a contract, and of a `SubmitTask`.
unfoldable pub run_contract : Option Value → Option Callback → World → World
unfolding invoke
run_contract (some v) (some cb) w = invoke cb v w
run_contract _ _ w = w

unfoldable pub run_task : Task → World → World
unfolding run_contract put_value
run_task (contract c) w =
    run_contract (result (w.slots c)) (w.callbacks c)
      (record w { ran = update w.ran c (w.ran c + 1) })
run_task (compute function c) w = put_value first c function w

-- The schedulers run the submitted tasks: here the task at a place of the list.
unfoldable pub take_at : {A : Type 0} → ℕ → List A → Option (A × List A)
take_at i [] = none
take_at zero (x ∷ xs) = some (x, xs)
take_at (suc i) (x ∷ xs) = elim (take_at i xs) [ none ↦ none | some (y, ys) ↦ some (y, x ∷ ys) ]

unfoldable pub run_taken : Option ((ℕ × Task) × List (ℕ × Task)) → World → World
unfolding run_task
run_taken none w = w
run_taken (some ((s, t), rest)) w = run_task t (record w { tasks = rest })

unfoldable pub run_at : ℕ → World → World
unfolding run_taken take_at
run_at i w = run_taken (take_at i w.tasks) w

-- The places of the tasks that run, in order.
unfoldable pub run_all : List ℕ → World → World
unfolding run_at
run_all [] w = w
run_all (i ∷ is) w = run_all is (run_at i w)
