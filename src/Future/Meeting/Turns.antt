-- ===== src/Future/Meeting/Turns.antt =====
-- Every turn keeps the invariant.
use dummy_concurrency.Base.{ℕ, ltb, ◌≡◌, refl, inl, inr, Bool-cases, false, List, [], ◌∷◌, arith}
use dummy_concurrency.Future.OneAll.{Result, rendezvous, completed, consume, finish}
use dummy_concurrency.Future.OneAll.View.{consume-ne-completed, finish-ne-rendezvous}
use dummy_concurrency.Future.OneAll.Protocol.{World, Call, consumed, call, next}
use dummy_concurrency.Future.Meeting.{
  first, second, Phase, storing, over, Task, absent, submitted, called, Contract, Actor, producer,
  consumer, task, Behaviour, turn, run, submit_on, delete_on, consumer_turn, task_turn,
}
use dummy_concurrency.Future.Meeting.Invariant.{Inv, Holds}
use dummy_concurrency.Future.Meeting.Producers.{one_meeting, first_turn-Holds, second_turn-Holds}

consumer_calls :
    {S V : Type 0} (b : Behaviour S V) {c : Contract S V} {w : World}
    → Inv b c w
    → (k : ℕ) → c.consumer ≡ storing k
    → ltb k 1 ≡ false
    → Inv b
        (record c {
          machine = (consume c.machine).0;
          consumer = Phase.answered (consume c.machine).1;
        })
        (call w consumed)
unfolding call
consumer_calls b {c} v k e q = record {
  reached = next consumed v.reached (ground arith);
  machine = ground arith;
  consumes = ground arith;
  finishes = ground arith;
  produces = ground arith;
  ones_made = ground arith;
  meets = ground arith;
  ends = ground (arith, consume-ne-completed c.machine);
  run_once = v.run_once;
  callback_set = ground arith;
}

consumer_answered :
    {S V : Type 0} (b : Behaviour S V) {c : Contract S V} {w : World}
    → Inv b c w
    → (r : Result) → c.consumer ≡ Phase.answered r
    → Inv b (consumer_turn b (Phase.answered r) c) w
unfolding consumer_turn submit_on
consumer_answered b v rendezvous e = ground (arith, one_meeting v.reached)
consumer_answered b v r e = ground arith

consumer_turn-Holds :
    {S V : Type 0} (b : Behaviour S V) {c : Contract S V} {w : World}
    → Inv b c w
    → (p : Phase) → c.consumer ≡ p
    → Holds b (consumer_turn b p c)
unfolding consumer_turn
consumer_turn-Holds b {w = w} v (storing k) e = elim (Bool-cases (ltb k 1)) [
  | inl q ↦ rw q (w, ground arith)
  | inr q ↦ rw q (_, consumer_calls b v k e q)
]
consumer_turn-Holds b {w = w} v (Phase.answered r) e = (w, consumer_answered b v r e)
consumer_turn-Holds b v over e = (_, v)

task_calls :
    {S V : Type 0} (b : Behaviour S V) {c : Contract S V} {w : World}
    → Inv b c w
    → c.task ≡ called
    → Inv b
        (record c { machine = (finish c.machine).0; task = Task.answered (finish c.machine).1 })
        (call w Call.finished)
unfolding call
task_calls b {c} v e = record {
  reached = next Call.finished v.reached (ground arith);
  machine = ground arith;
  consumes = ground arith;
  finishes = ground arith;
  produces = ground arith;
  ones_made = ground arith;
  meets = ground (arith, finish-ne-rendezvous c.machine);
  ends = ground arith;
  run_once = ground arith;
  callback_set = v.callback_set;
}

task_answered :
    {S V : Type 0} (b : Behaviour S V) {c : Contract S V} {w : World}
    → Inv b c w
    → (r : Result) → c.task ≡ Task.answered r
    → Inv b (task_turn b (Task.answered r) c) w
unfolding task_turn delete_on
task_answered b v completed e = ground arith
task_answered b v r e = ground arith

task_turn-Holds :
    {S V : Type 0} (b : Behaviour S V) {c : Contract S V} {w : World}
    → Inv b c w
    → (p : Task) → c.task ≡ p
    → Holds b (task_turn b p c)
unfolding task_turn
task_turn-Holds b v absent e = (_, v)
task_turn-Holds b {w = w} v submitted e = (w, ground arith)
task_turn-Holds b v called e = (_, task_calls b v e)
task_turn-Holds b {w = w} v (Task.answered r) e = (w, task_answered b v r e)
task_turn-Holds b v over e = (_, v)

pub turn-Holds :
    {S V : Type 0} (b : Behaviour S V) (a : Actor) {c : Contract S V}
    → Holds b c
    → Holds b (turn b a c)
unfolding turn
turn-Holds b (producer first) {c} (w, v) = first_turn-Holds b v c.first_phase refl
turn-Holds b (producer second) {c} (w, v) = second_turn-Holds b v c.second_phase refl
turn-Holds b consumer {c} (w, v) = consumer_turn-Holds b v c.consumer refl
turn-Holds b task {c} (w, v) = task_turn-Holds b v c.task refl

pub run-Holds :
    {S V : Type 0} (b : Behaviour S V) (xs : List Actor) (c : Contract S V)
    → Holds b c
    → Holds b (run b xs c)
unfolding run
run-Holds b [] c h = h
run-Holds b (x ∷ xs) c h = run-Holds b xs (turn b x c) (turn-Holds b x h)
