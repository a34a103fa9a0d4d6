-- ===== src/Future/Meeting/Producers.antt =====
-- The turns of the producers keep the invariant.
use dummy_concurrency.Base.{ℕ, ◌+◌, ◌≤◌, ltb, ◌≡◌, refl, ◌⊎◌, inl, inr, Bool-cases, arith}
use dummy_concurrency.Future.OneAll.{Result, rendezvous, produce_all, produce_one}
use dummy_concurrency.Future.OneAll.Protocol.{
  World, produced_all, produced_one, call, Reach, next, rendezvous_once,
}
use dummy_concurrency.Future.Meeting.{
  first, second, Kind, one, all, Phase, storing, over, Contract, Behaviour, produce, turn,
  submit_on, delete_on, first_turn, second_turn,
}
use dummy_concurrency.Future.Meeting.Invariant.{Inv, Holds}

Kind-cases : (k : Kind) → (k ≡ one) ⊎ (k ≡ all)
Kind-cases one = inl refl
Kind-cases all = inr refl

-- At most one `Rendezvous` is out, held by an actor or turned into the task.
pub one_meeting : {w : World} → Reach 2 w → w.rendezvouses ≤ 1
one_meeting r = ground (arith, rendezvous_once (omega arith) (omega arith) r)

module _ {S V : Type 0} (b : Behaviour S V) {c : Contract S V} {w : World} (v : Inv b c w) (k : ℕ)
    (e : c.first_phase ≡ storing k) where
  first_writes :
      Inv b (record c { slots = b.write first k c.slots; first_phase = storing (k + 1) }) w
  first_writes = ground arith

  first_one :
      b.kind first ≡ one
      → Inv b
          (record c {
            machine = (produce_one c.machine).0;
            first_phase = Phase.answered (produce_one c.machine).1;
          })
          (call w produced_one)
  unfolding call
  first_one q = record {
    reached = next produced_one v.reached (ground arith);
    machine = ground arith;
    consumes = ground arith;
    finishes = ground arith;
    produces = ground arith;
    ones_made = ground arith;
    meets = ground arith;
    ends = ground arith;
    run_once = v.run_once;
    callback_set = v.callback_set;
  }

  first_all :
      b.kind first ≡ all
      → Inv b
          (record c {
            machine = (produce_all c.machine).0;
            first_phase = Phase.answered (produce_all c.machine).1;
          })
          (call w produced_all)
  unfolding call
  first_all q = record {
    reached = next produced_all v.reached (ground arith);
    machine = ground arith;
    consumes = ground arith;
    finishes = ground arith;
    produces = ground arith;
    ones_made = ground arith;
    meets = ground arith;
    ends = ground arith;
    run_once = v.run_once;
    callback_set = v.callback_set;
  }

  first_produces : Holds b (record c {
    machine = (produce (b.kind first) c.machine).0;
    first_phase = Phase.answered (produce (b.kind first) c.machine).1;
  })
  unfolding turn
  first_produces = elim (Kind-cases (b.kind first)) [
    | inl q ↦ rw q (call w produced_one, first_one q)
    | inr q ↦ rw q (call w produced_all, first_all q)
  ]

first_answered :
    {S V : Type 0} (b : Behaviour S V) {c : Contract S V} {w : World}
    → Inv b c w
    → (r : Result) → c.first_phase ≡ Phase.answered r
    → Inv b (first_turn b (Phase.answered r) c) w
unfolding first_turn submit_on delete_on
first_answered b v rendezvous e = ground (arith, one_meeting v.reached)
first_answered b v r e = ground arith

pub first_turn-Holds :
    {S V : Type 0} (b : Behaviour S V) {c : Contract S V} {w : World}
    → Inv b c w
    → (p : Phase) → c.first_phase ≡ p
    → Holds b (first_turn b p c)
unfolding first_turn
first_turn-Holds b v (storing k) e = elim (Bool-cases (ltb k (b.writes first))) [
  | inl q ↦ rw q (_, first_writes b v k e)
  | inr q ↦ rw q (first_produces b v k e)
]
first_turn-Holds b {w = w} v (Phase.answered r) e = (w, first_answered b v r e)
first_turn-Holds b v over e = (_, v)

module _ {S V : Type 0} (b : Behaviour S V) {c : Contract S V} {w : World} (v : Inv b c w) (k : ℕ)
    (e : c.second_phase ≡ storing k) where
  second_writes :
      Inv b (record c { slots = b.write second k c.slots; second_phase = storing (k + 1) }) w
  second_writes = ground arith

  second_one :
      b.kind second ≡ one
      → Inv b
          (record c {
            machine = (produce_one c.machine).0;
            second_phase = Phase.answered (produce_one c.machine).1;
          })
          (call w produced_one)
  unfolding call
  second_one q = record {
    reached = next produced_one v.reached (ground arith);
    machine = ground arith;
    consumes = ground arith;
    finishes = ground arith;
    produces = ground arith;
    ones_made = ground arith;
    meets = ground arith;
    ends = ground arith;
    run_once = v.run_once;
    callback_set = v.callback_set;
  }

  second_all :
      b.kind second ≡ all
      → Inv b
          (record c {
            machine = (produce_all c.machine).0;
            second_phase = Phase.answered (produce_all c.machine).1;
          })
          (call w produced_all)
  unfolding call
  second_all q = record {
    reached = next produced_all v.reached (ground arith);
    machine = ground arith;
    consumes = ground arith;
    finishes = ground arith;
    produces = ground arith;
    ones_made = ground arith;
    meets = ground arith;
    ends = ground arith;
    run_once = v.run_once;
    callback_set = v.callback_set;
  }

  second_produces : Holds b (record c {
    machine = (produce (b.kind second) c.machine).0;
    second_phase = Phase.answered (produce (b.kind second) c.machine).1;
  })
  unfolding turn
  second_produces = elim (Kind-cases (b.kind second)) [
    | inl q ↦ rw q (call w produced_one, second_one q)
    | inr q ↦ rw q (call w produced_all, second_all q)
  ]

second_answered :
    {S V : Type 0} (b : Behaviour S V) {c : Contract S V} {w : World}
    → Inv b c w
    → (r : Result) → c.second_phase ≡ Phase.answered r
    → Inv b (second_turn b (Phase.answered r) c) w
unfolding second_turn submit_on delete_on
second_answered b v rendezvous e = ground (arith, one_meeting v.reached)
second_answered b v r e = ground arith

pub second_turn-Holds :
    {S V : Type 0} (b : Behaviour S V) {c : Contract S V} {w : World}
    → Inv b c w
    → (p : Phase) → c.second_phase ≡ p
    → Holds b (second_turn b p c)
unfolding second_turn
second_turn-Holds b v (storing k) e = elim (Bool-cases (ltb k (b.writes second))) [
  | inl q ↦ rw q (_, second_writes b v k e)
  | inr q ↦ rw q (second_produces b v k e)
]
second_turn-Holds b {w = w} v (Phase.answered r) e = (w, second_answered b v r e)
second_turn-Holds b v over e = (_, v)
