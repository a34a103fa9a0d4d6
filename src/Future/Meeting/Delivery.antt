-- ===== src/Future/Meeting/Delivery.antt =====
-- What every contract of two producers promises, whatever the order of the turns: one call of the
-- callback, one deletion at the very end, and a value read when a result is in its slots.
use dummy_concurrency.Base.{
  ℕ, ◌+◌, ◌≤◌, ◌==◌, ltb, ◌≡◌, ◌≢◌, ◌⊎◌, Bool, true, ◌||◌, List, length, arith,
}
use dummy_concurrency.Future.OneAll.{rendezvous, completed}
use dummy_concurrency.Future.OneAll.Protocol.{World, Reach, rendezvous_once, completed_once}
use dummy_concurrency.Future.Meeting.{
  first, second, Phase, storing, over, Task, absent, submitted, called, Contract, Actor, producer,
  consumer, task, Behaviour, create, turn, run, submit_on, delete_on, first_turn, second_turn,
  consumer_turn, task_turn,
}
use dummy_concurrency.Future.Meeting.Invariant.{
  flag, arrived, made, one_of, produced, arrivals, Inv, Holds, create-Inv, finished, present, ran,
  holds_rendezvous, holds_completed, task_completed,
}
use dummy_concurrency.Future.Meeting.Turns.{run-Holds}

completed_facts :
    {w : World}
    → Reach 2 w
    → (w.completions ≤ 1)
      × (1 ≤ w.completions → (w.finishes ≡ 1) × (w.produces ≡ 2))
      × (w.finishes ≡ 1 → w.produces ≡ 2 → w.completions ≡ 1)
completed_facts r = ground (arith, completed_once (omega arith) (omega arith) r)

rendezvous_facts :
    {w : World}
    → Reach 2 w
    → (w.rendezvouses ≤ 1)
      × (1 ≤ w.rendezvouses → (w.consumes ≡ 1) × ((1 ≤ w.ones) ⊎ (w.produces ≡ 2)))
      × (w.consumes ≡ 1 → w.produces ≡ 2 → w.rendezvouses ≡ 1)
rendezvous_facts r = ground (arith, rendezvous_once (omega arith) (omega arith) r)

ran-le : (t : Task) → ran t ≤ present t
ran-le absent = omega arith
ran-le submitted = omega arith
ran-le t = omega arith

pub arrived-le : (p : Phase) → arrived p ≤ 1
arrived-le (storing k) = omega arith
arrived-le p = omega arith

present_from_finished : (t : Task) → finished t ≡ 1 → 1 ≤ present t
present_from_finished absent h = absurd (omega arith)
present_from_finished t h = omega arith

arrived_set :
    (p : Phase) (callback : Bool) → arrived p ≡ 1 → flag callback ≡ made 1 p → callback ≡ true
arrived_set (storing k) callback h e = absurd (omega arith)
arrived_set (Phase.answered r) callback h e = ground arith
arrived_set over callback h e = ground arith

produced_true :
    (o p o' p' : ℕ) → o' ≡ o → p' ≡ p → (1 ≤ o') ⊎ (p' ≡ 2) → (flag (ltb 0 o) == 1 || p == 2) ≡ true
produced_true o p o' p' e f h = ground arith

-- A turn that leaves the contract itself alone.
pub record Untouched {S V : Type 0} (c c' : Contract S V) : Type 0 where
  pub machine : c'.machine ≡ c.machine
  pub slots : c'.slots ≡ c.slots
  pub callback : c'.callback ≡ c.callback
  pub calls : c'.calls ≡ c.calls
  pub deletions : c'.deletions ≡ c.deletions

module _ {S V : Type 0} (b : Behaviour S V) where
  run-create-Holds : (slots : S) (xs : List Actor) → Holds b (run b xs (create slots))
  run-create-Holds slots xs = run-Holds b xs (create slots) (_, create-Inv b slots)

  calls_le : {c : Contract S V} {w : World} → Inv b c w → length c.calls ≤ present c.task
  calls_le {c} v = omega (arith, v.run_once, ran-le c.task)

  deletions_le : {c : Contract S V} {w : World} → Inv b c w → c.deletions ≤ 1
  deletions_le v = omega (arith, v.ends, (completed_facts v.reached).0)

  called_met :
      {c : Contract S V} {w : World}
      → Inv b c w
      → 1 ≤ present c.task
      → (arrived c.consumer ≡ 1) × ((1 ≤ w.ones) ⊎ (w.produces ≡ 2))
  called_met v h =
      let (e, m) = (rendezvous_facts v.reached).1 (omega (arith, v.meets)) in
      (omega (arith, e, v.consumes), m)

  pub called_produced :
      {c : Contract S V} {w : World} → Inv b c w → 1 ≤ present c.task → produced b c ≡ true
  called_produced {c} {w} v h =
      produced_true (one_of (b.kind first) c.first_phase + one_of (b.kind second) c.second_phase)
        (arrivals b c) w.ones w.produces v.ones_made v.produces (called_met v h).1

  at_most : {c : Contract S V} {w : World} → Inv b c w → (length c.calls ≤ 1) × (c.deletions ≤ 1)
  at_most {c} v = (
    omega (arith, v.run_once, ran-le c.task, v.meets, (rendezvous_facts v.reached).0),
    deletions_le v,
  )

  -- In every order of the turns the callback is called at most once and the contract deleted at most
  -- once.
  pub called_once :
      (slots : S) (xs : List Actor)
      → let c = run b xs (create slots) in (length c.calls ≤ 1) × (c.deletions ≤ 1)
  called_once slots xs = at_most (run-create-Holds slots xs).1

  after_set :
      {c : Contract S V} {w : World}
      → Inv b c w
      → length c.calls ≡ 1
      → (c.callback ≡ true) × (produced b c ≡ true)
  after_set {c} v e = (
    arrived_set c.consumer c.callback (called_met v (omega (arith, calls_le v))).0 v.callback_set,
    called_produced v (omega (arith, calls_le v)),
  )

  -- When the callback is called, in any order of the turns, it has been set, and a producer that
  -- settles the contract alone, or both producers, have arrived.
  pub called_after :
      (slots : S) (xs : List Actor)
      → let c = run b xs (create slots) in
        length c.calls ≡ 1 → (c.callback ≡ true) × (produced b c ≡ true)
  called_after slots xs e = after_set (run-create-Holds slots xs).1 e

  deleted_facts :
      {c : Contract S V} {w : World}
      → Inv b c w
      → c.deletions ≡ 1
      → (arrived c.first_phase ≡ 1)
        × (arrived c.second_phase ≡ 1)
        × (arrived c.consumer ≡ 1)
        × (finished c.task ≡ 1)
        × (holds_rendezvous c.first_phase ≡ 0)
        × (holds_rendezvous c.second_phase ≡ 0)
        × (holds_rendezvous c.consumer ≡ 0)
        × (holds_completed c.first_phase ≡ 0)
        × (holds_completed c.second_phase ≡ 0)
        × (task_completed c.task ≡ 0)
  deleted_facts {c} {w} v e =
      let (fin, pro) = (completed_facts v.reached).1 (omega (arith, v.ends)) in
      let met = (rendezvous_facts v.reached).0 in
      let task_here : 1 ≤ present c.task =
        present_from_finished c.task (omega (arith, fin, v.finishes)) in
      let con = (called_met v task_here).0 in
      omega (
        arith,
        fin,
        pro,
        met,
        con,
        task_here,
        v.ends,
        v.meets,
        v.finishes,
        v.produces,
        arrived-le c.first_phase,
        arrived-le c.second_phase,
        (completed_facts v.reached).0,
      )

  quiet_first :
      (p : Phase) (c : Contract S V)
      → arrived p ≡ 1
      → holds_rendezvous p ≡ 0
      → holds_completed p ≡ 0
      → Untouched c (first_turn b p c)
  unfolding first_turn submit_on delete_on
  quiet_first (storing k) c h r d = absurd (omega arith)
  quiet_first (Phase.answered rendezvous) c h r d = absurd (omega arith)
  quiet_first (Phase.answered completed) c h r d = absurd (omega arith)
  quiet_first p c h r d = ground arith

  quiet_second :
      (p : Phase) (c : Contract S V)
      → arrived p ≡ 1
      → holds_rendezvous p ≡ 0
      → holds_completed p ≡ 0
      → Untouched c (second_turn b p c)
  unfolding second_turn submit_on delete_on
  quiet_second (storing k) c h r d = absurd (omega arith)
  quiet_second (Phase.answered rendezvous) c h r d = absurd (omega arith)
  quiet_second (Phase.answered completed) c h r d = absurd (omega arith)
  quiet_second p c h r d = ground arith

  quiet_consumer :
      (p : Phase) (c : Contract S V)
      → arrived p ≡ 1
      → holds_rendezvous p ≡ 0
      → Untouched c (consumer_turn b p c)
  unfolding consumer_turn submit_on
  quiet_consumer (storing k) c h r = absurd (omega arith)
  quiet_consumer (Phase.answered rendezvous) c h r = absurd (omega arith)
  quiet_consumer p c h r = ground arith

  quiet_task :
      (p : Task) (c : Contract S V)
      → finished p ≡ 1
      → task_completed p ≡ 0
      → Untouched c (task_turn b p c)
  unfolding task_turn delete_on
  quiet_task absent c h d = absurd (omega arith)
  quiet_task submitted c h d = absurd (omega arith)
  quiet_task called c h d = absurd (omega arith)
  quiet_task (Task.answered completed) c h d = absurd (omega arith)
  quiet_task p c h d = ground arith

  quiet :
      {c : Contract S V} {w : World}
      → Inv b c w
      → c.deletions ≡ 1
      → (a : Actor) → Untouched c (turn b a c)
  unfolding turn
  quiet {c} v e (producer first) =
      let f = deleted_facts v e in quiet_first c.first_phase c f.0 f.4 f.7
  quiet {c} v e (producer second) =
      let f = deleted_facts v e in quiet_second c.second_phase c f.1 f.5 f.8
  quiet {c} v e consumer = let f = deleted_facts v e in quiet_consumer c.consumer c f.2 f.6
  quiet {c} v e task = let f = deleted_facts v e in quiet_task c.task c f.3 f.9

  -- Once the contract is deleted no turn reads or writes its state machine, its slots or its
  -- callback, and none runs the callback or deletes it again.
  pub deleted_last :
      (slots : S) (xs : List Actor) (a : Actor)
      → let c = run b xs (create slots) in c.deletions ≡ 1 → Untouched c (turn b a c)
  deleted_last slots xs a e = quiet (run-create-Holds slots xs).1 e a

  done :
      {c : Contract S V} {w : World}
      → Inv b c w
      → c.first_phase ≡ over
      → c.second_phase ≡ over
      → c.consumer ≡ over
      → (c.task ≢ absent) × (c.task ≡ over → (length c.calls ≡ 1) × (c.deletions ≡ 1))
  done {c} {w} v p q r =
      let met : w.rendezvouses ≡ 1 =
        (rendezvous_facts v.reached).2 (ground (arith, v.consumes)) (ground (arith, v.produces)) in
      (
        λ e. ground (arith, v.meets),
        λ e. (
          ground (arith, v.run_once),
          let end : w.completions ≡ 1 =
                (completed_facts v.reached).2 (ground (arith, v.finishes))
                  (ground (arith, v.produces)) in
              ground (arith, v.ends),
        ),
      )

  -- When both producers and the consumer have returned, the task has been submitted.
  pub submitted_at_last :
      (slots : S) (xs : List Actor)
      → let c = run b xs (create slots) in
        c.first_phase ≡ over → c.second_phase ≡ over → c.consumer ≡ over → c.task ≢ absent
  submitted_at_last slots xs p q r = (done (run-create-Holds slots xs).1 p q r).0

  -- When both producers, the consumer and the task have returned, the callback has been called and
  -- the contract deleted, once each.
  pub all_returned :
      (slots : S) (xs : List Actor)
      → let c = run b xs (create slots) in
        c.first_phase ≡ over
        → c.second_phase ≡ over
        → c.consumer ≡ over
        → c.task ≡ over
        → (length c.calls ≡ 1) × (c.deletions ≡ 1)
  all_returned slots xs p q r e = (done (run-create-Holds slots xs).1 p q r).1 e
