-- ===== src/Future/Contract/Delivery.antt =====
-- What the contract of one promise and one future promises, whatever the order of the turns.
use dummy_concurrency.Base.{
  ℕ, ◌+◌, ◌*◌, ◌≤◌, if◌then◌else◌, ◌≡◌, ◌≢◌, ◌⊎◌, refl, Bool, true, false, none, some, List, [],
  ◌∷◌, length, arith,
}
use dummy_concurrency.Future.Rendezvous.{produce, consume, or_produced, or_consumed}
use dummy_concurrency.Future.Contract.{
  Phase, storing, arriving, answered, over, Task, absent, submitted, called, Actor, producer,
  consumer, task, ContractState, create, set_value, set_callback, run_task, turn, run,
}

abbrev arrived : Phase → ℕ
arrived storing = 0
arrived arriving = 0
arrived _ = 1

abbrev stored : Phase → Bool
stored storing = false
stored _ = true

abbrev meets : Phase → ℕ
meets (answered true) = 1
meets _ = 0

abbrev present : Task → ℕ
present absent = 0
present _ = 1

abbrev ran : Task → Bool
ran called = true
ran Task.over = true
ran _ = false

abbrev deleted : Task → ℕ
deleted Task.over = 1
deleted _ = 0

module _ {T : Type 0} (v : T) where
  record Inv (c : ContractState T) : Type 0 where
    word : c.state ≡ arrived c.producer_phase + 2 * arrived c.consumer_phase
    met :
        meets c.producer_phase + meets c.consumer_phase + present c.task_phase
        ≡ arrived c.producer_phase * arrived c.consumer_phase
    has_value :
        c.value
        ≡ (if ran c.task_phase then none else if stored c.producer_phase then some v else none)
    has_callback : c.callback ≡ stored c.consumer_phase
    called_with : c.calls ≡ (if ran c.task_phase then some v ∷ [] else [])
    ended : c.deletions ≡ deleted c.task_phase

  create-Inv : Inv create
  unfolding create
  create-Inv = ground arith

  set_value-Inv :
      (p : Phase) (c : ContractState T) → c.producer_phase ≡ p → Inv c → Inv (set_value v p c)
  unfolding set_value produce
  set_value-Inv storing c e i = ground arith
  set_value-Inv arriving c e i = ground (arith, or_produced c.state)
  set_value-Inv (answered true) c e i = ground arith
  set_value-Inv (answered false) c e i = ground arith
  set_value-Inv over c e i = i

  set_callback-Inv :
      (p : Phase) (c : ContractState T) → c.consumer_phase ≡ p → Inv c → Inv (set_callback p c)
  unfolding set_callback consume
  set_callback-Inv storing c e i = ground arith
  set_callback-Inv arriving c e i = ground (arith, or_consumed c.state)
  set_callback-Inv (answered true) c e i = ground arith
  set_callback-Inv (answered false) c e i = ground arith
  set_callback-Inv over c e i = i

  run_task-Inv : (t : Task) (c : ContractState T) → c.task_phase ≡ t → Inv c → Inv (run_task t c)
  unfolding run_task
  run_task-Inv absent c e i = i
  run_task-Inv submitted c e i = ground arith
  run_task-Inv called c e i = ground arith
  run_task-Inv over c e i = i

  turn-Inv : (a : Actor) (c : ContractState T) → Inv c → Inv (turn v a c)
  unfolding turn
  turn-Inv producer c i = set_value-Inv c.producer_phase c refl i
  turn-Inv consumer c i = set_callback-Inv c.consumer_phase c refl i
  turn-Inv task c i = run_task-Inv c.task_phase c refl i

  run-Inv : (xs : List Actor) (c : ContractState T) → Inv c → Inv (run v xs c)
  unfolding run
  run-Inv [] c i = i
  run-Inv (x ∷ xs) c i = run-Inv xs (turn v x c) (turn-Inv x c i)

  -- In every order of the turns the callback is called at most once, only when it has been set, and
  -- with the value of the promise; and the contract is deleted at most once, after the call.
  pub delivered_once :
      (xs : List Actor)
      → let c = run v xs create in
        ((c.calls ≡ []) ⊎ ((c.calls ≡ some v ∷ []) × (c.callback ≡ true)))
        × (c.deletions ≤ length c.calls)
  delivered_once xs = facts (run-Inv xs create create-Inv)
    where
      facts :
          {c : ContractState T}
          → Inv c
          → ((c.calls ≡ []) ⊎ ((c.calls ≡ some v ∷ []) × (c.callback ≡ true)))
            × (c.deletions ≤ length c.calls)
      facts i = ground arith

  -- When the promise has been set and the future consumed, the task has been submitted.
  pub task_submitted :
      (xs : List Actor)
      → let c = run v xs create in
        c.producer_phase ≡ over → c.consumer_phase ≡ over → c.task_phase ≢ absent
  task_submitted xs p q = facts (run-Inv xs create create-Inv) p q
    where
      facts :
          {c : ContractState T}
          → Inv c
          → c.producer_phase ≡ over
          → c.consumer_phase ≡ over
          → c.task_phase ≢ absent
      facts i p q = ground arith

  -- When the task has run, the callback has been called once, with the value of the promise, and
  -- the contract deleted once.
  pub delivered_at_last :
      (xs : List Actor)
      → let c = run v xs create in c.task_phase ≡ over → (c.calls ≡ some v ∷ []) × (c.deletions ≡ 1)
  delivered_at_last xs e = facts (run-Inv xs create create-Inv) e
    where
      facts :
          {c : ContractState T}
          → Inv c
          → c.task_phase ≡ over
          → (c.calls ≡ some v ∷ []) × (c.deletions ≡ 1)
      facts i e = ground arith
