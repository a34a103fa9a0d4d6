-- ===== src/Future/Meeting/Invariant.antt =====
-- The invariant of a contract under every interleaving of its turns.
use dummy_concurrency.Base.{ℕ, ◌+◌, ◌==◌, ltb, if◌then◌else◌, ◌≡◌, refl, Bool, ◌||◌, length, arith}
use dummy_concurrency.Future.OneAll.{rendezvous, completed, init}
use dummy_concurrency.Future.OneAll.Protocol.{World, start, Reach}
use dummy_concurrency.Future.Meeting.{
  first, second, Kind, one, all, Phase, storing, over, Task, absent, submitted, Contract, Behaviour,
  create,
}

abbrev pub flag : Bool → ℕ
flag b = if b then 1 else 0

-- 1 for an actor that has called the state machine.
abbrev pub arrived : Phase → ℕ
arrived (storing k) = 0
arrived _ = 1

-- 1 for an actor that holds the answer, and has not acted on it.
abbrev pub holds_rendezvous : Phase → ℕ
holds_rendezvous (Phase.answered rendezvous) = 1
holds_rendezvous _ = 0

abbrev pub holds_completed : Phase → ℕ
holds_completed (Phase.answered completed) = 1
holds_completed _ = 0

-- 1 for a producer that has called `ProduceOne`.
abbrev pub one_of : Kind → Phase → ℕ
one_of one p = arrived p
one_of all p = 0

abbrev pub present : Task → ℕ
present absent = 0
present _ = 1

abbrev pub ran : Task → ℕ
ran absent = 0
ran submitted = 0
ran _ = 1

abbrev pub finished : Task → ℕ
finished (Task.answered r) = 1
finished over = 1
finished _ = 0

abbrev pub task_completed : Task → ℕ
task_completed (Task.answered completed) = 1
task_completed _ = 0

abbrev pub made : ℕ → Phase → ℕ
made n (storing k) = k
made n _ = n

module _ {S V : Type 0} (b : Behaviour S V) where
  -- Whether a producer has arrived with `ProduceOne`.
  abbrev pub ones : Contract S V → ℕ
  ones c =
      flag (ltb 0 (one_of (b.kind first) c.first_phase + one_of (b.kind second) c.second_phase))

  abbrev pub arrivals : Contract S V → ℕ
  arrivals c = arrived c.first_phase + arrived c.second_phase

  -- Whether there is a result to deliver: one is enough, or all are in.
  abbrev pub produced : Contract S V → Bool
  produced c = ones c == 1 || arrivals c == 2

  -- The contract `c` has made the calls of the state machine that `w` counts.
  pub record Inv (c : Contract S V) (w : World) : Type 0 where
    pub reached : Reach 2 w
    pub machine : w.machine ≡ c.machine
    pub consumes : w.consumes ≡ arrived c.consumer
    pub finishes : w.finishes ≡ finished c.task
    pub produces : w.produces ≡ arrivals c
    pub ones_made :
        w.ones ≡ one_of (b.kind first) c.first_phase + one_of (b.kind second) c.second_phase
    pub meets :
        w.rendezvouses
        ≡ holds_rendezvous c.first_phase
          + holds_rendezvous c.second_phase
          + holds_rendezvous c.consumer
          + present c.task
    pub ends :
        w.completions
        ≡ holds_completed c.first_phase
          + holds_completed c.second_phase
          + task_completed c.task
          + c.deletions
    pub run_once : length c.calls ≡ ran c.task
    pub callback_set : flag (c.callback) ≡ made 1 c.consumer

  abbrev pub Holds : Contract S V → Type 0
  Holds c = (w : World) × Inv c w

  pub create-Inv : (s : S) → Inv (create s) (start 2)
  unfolding create start init
  create-Inv s = record {
    reached = Reach.here;
    machine = refl;
    consumes = refl;
    finishes = refl;
    produces = refl;
    ones_made = ground arith;
    meets = refl;
    ends = refl;
    run_once = refl;
    callback_set = refl;
  }
