-- ===== src/Future/Contract.antt =====
-- DummyConcurrency/Future/State/Contract.hpp: the contract of one promise and one future. A turn is
-- one access to the shared memory, so a list of turns is one interleaving.
pub mod Delivery
use dummy_concurrency.Base.{
  ℕ, ◌+◌, if◌then◌else◌, Bool, true, false, Option, none, some, List, [], ◌∷◌,
}
use dummy_concurrency.Future.Rendezvous.{produce, consume}

pub data Phase : Type 0 where
  storing arriving : Phase
  answered : Bool → Phase
  over : Phase

pub data Task : Type 0 where
  absent submitted called over : Task

pub data Actor : Type 0 where
  producer consumer task : Actor

pub record ContractState (T : Type 0) : Type 0 where
  pub state : ℕ
  pub value : Option T
  pub callback : Bool
  pub producer_phase : Phase
  pub consumer_phase : Phase
  pub task_phase : Task
  pub calls : List (Option T)
  pub deletions : ℕ

unfoldable pub create : {T : Type 0} → ContractState T
create = record {
  state = 0;
  value = none;
  callback = false;
  producer_phase = storing;
  consumer_phase = storing;
  task_phase = absent;
  calls = [];
  deletions = 0;
}

-- `SubmitContract` where the state machine has answered true.
abbrev pub submit_if : {T : Type 0} → Bool → ContractState T → ContractState T
submit_if true c = record c { task_phase = submitted }
submit_if false c = c

-- `SetValue`
unfoldable pub set_value : {T : Type 0} → T → Phase → ContractState T → ContractState T
set_value v storing c = record c { value = some v; producer_phase = arriving }
set_value v arriving c =
    let (s, met) = produce c.state in record c { state = s; producer_phase = answered met }
set_value v (answered met) c = submit_if met (record c { producer_phase = over })
set_value v over c = c

-- `SetCallback`
unfoldable pub set_callback : {T : Type 0} → Phase → ContractState T → ContractState T
set_callback storing c = record c { callback = true; consumer_phase = arriving }
set_callback arriving c =
    let (s, met) = consume c.state in record c { state = s; consumer_phase = answered met }
set_callback (answered met) c = submit_if met (record c { consumer_phase = over })
set_callback over c = c

-- `Run`: the callback takes the value out of its slot, then the contract deletes itself.
unfoldable pub run_task : {T : Type 0} → Task → ContractState T → ContractState T
run_task absent c = c
run_task submitted c = record c { calls = c.value ∷ c.calls; value = none; task_phase = called }
run_task called c = record c { deletions = c.deletions + 1; task_phase = over }
run_task over c = c

unfoldable pub turn : {T : Type 0} → T → Actor → ContractState T → ContractState T
unfolding set_value set_callback run_task produce consume
turn v producer c = set_value v c.producer_phase c
turn v consumer c = set_callback c.consumer_phase c
turn v task c = run_task c.task_phase c

unfoldable pub run : {T : Type 0} → T → List Actor → ContractState T → ContractState T
unfolding turn
run v [] c = c
run v (x ∷ xs) c = run v xs (turn v x c)
