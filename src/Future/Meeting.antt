-- ===== src/Future/Meeting.antt =====
-- What the contracts of two producers share (BothContract.hpp, TryBothContract.hpp,
-- FirstContract.hpp and TryFirstContract.hpp under DummyConcurrency/Future/State): each producer
-- writes its result and calls the state machine, the consumer sets the callback and calls it, and
-- the task that a `Rendezvous` submits runs the callback and calls `Finish`. An actor's turn is one
-- access to shared memory, so a list of turns is one interleaving.
pub mod Invariant
pub mod Producers
pub mod Turns
pub mod Delivery
pub mod Values
use dummy_concurrency.Base.{ℕ, ◌+◌, ltb, if◌then◌else◌, Bool, true, false, List, [], ◌∷◌, length}
use dummy_concurrency.Future.OneAll.{
  OneAll, Result, rendezvous, completed, init, consume, finish, produce_all, produce_one,
}

pub data Side : Type 0 where
  first second : Side

pub data Kind : Type 0 where
  one all : Kind

-- How far a producer or the consumer is: `k` of its writes made, the answer of the state machine in
-- hand, or returned.
pub data Phase : Type 0 where
  storing : ℕ → Phase
  answered : Result → Phase
  over : Phase

-- The contract as a task: `Run` before the callback, and before `Finish`.
pub data Task : Type 0 where
  absent submitted called : Task
  answered : Result → Task
  over : Task

-- A contract over the slots `S`, which hands the callback a `V`.
pub record Contract (S V : Type 0) : Type 0 where
  pub machine : OneAll
  pub slots : S
  pub callback : Bool
  pub first_phase : Phase
  pub second_phase : Phase
  pub consumer : Phase
  pub task : Task
  pub calls : List V
  pub deletions : ℕ

pub data Actor : Type 0 where
  producer : Side → Actor
  consumer task : Actor

-- What one kind of contract does: its writes in order, which call of the state machine follows
-- them, and what `Run` reads for the callback.
pub record Behaviour (S V : Type 0) : Type 0 where
  pub writes : Side → ℕ
  pub write : Side → ℕ → S → S
  pub kind : Side → Kind
  pub read : S → V

unfoldable pub create : {S V : Type 0} → S → Contract S V
create slots = record {
  machine = init 2;
  slots = slots;
  callback = false;
  first_phase = storing 0;
  second_phase = storing 0;
  consumer = storing 0;
  task = absent;
  calls = [];
  deletions = 0;
}

unfoldable pub produce : Kind → OneAll → OneAll × Result
produce one m = produce_one m
produce all m = produce_all m

-- `if (res == Rendezvous) SubmitContract();`
unfoldable pub submit_on : {S V : Type 0} → Result → Contract S V → Contract S V
submit_on rendezvous c = record c { task = submitted }
submit_on _ c = c

-- `if (res == Completed) delete this;`
unfoldable pub delete_on : {S V : Type 0} → Result → Contract S V → Contract S V
delete_on completed c = record c { deletions = c.deletions + 1 }
delete_on _ c = c

module _ {S V : Type 0} (b : Behaviour S V) where
  unfoldable pub first_turn : Phase → Contract S V → Contract S V
  first_turn (storing k) c =
      if ltb k (b.writes first)
      then record c { slots = b.write first k c.slots; first_phase = storing (k + 1) }
      else let (m, r) = produce (b.kind first) c.machine in
        record c { machine = m; first_phase = answered r }
  first_turn (answered r) c = delete_on r (submit_on r (record c { first_phase = over }))
  first_turn over c = c

  unfoldable pub second_turn : Phase → Contract S V → Contract S V
  second_turn (storing k) c =
      if ltb k (b.writes second)
      then record c { slots = b.write second k c.slots; second_phase = storing (k + 1) }
      else let (m, r) = produce (b.kind second) c.machine in
        record c { machine = m; second_phase = answered r }
  second_turn (answered r) c = delete_on r (submit_on r (record c { second_phase = over }))
  second_turn over c = c

  -- `SetCallback`
  unfoldable pub consumer_turn : Phase → Contract S V → Contract S V
  consumer_turn (storing k) c =
      if ltb k 1
      then record c { callback = true; consumer = storing (k + 1) }
      else let (m, r) = consume c.machine in record c { machine = m; consumer = answered r }
  consumer_turn (answered r) c = submit_on r (record c { consumer = over })
  consumer_turn over c = c

  -- `Run`
  unfoldable pub task_turn : Task → Contract S V → Contract S V
  task_turn absent c = c
  task_turn submitted c = record c { calls = b.read c.slots ∷ c.calls; task = called }
  task_turn called c = let (m, r) = finish c.machine in record c { machine = m; task = answered r }
  task_turn (answered r) c = delete_on r (record c { task = over })
  task_turn over c = c

  unfoldable pub turn : Actor → Contract S V → Contract S V
  unfolding first_turn second_turn consumer_turn task_turn submit_on delete_on produce
  turn (producer first) c = first_turn c.first_phase c
  turn (producer second) c = second_turn c.second_phase c
  turn consumer c = consumer_turn c.consumer c
  turn task c = task_turn c.task c

  unfoldable pub run : List Actor → Contract S V → Contract S V
  unfolding turn
  run [] c = c
  run (x ∷ xs) c = run xs (turn x c)
