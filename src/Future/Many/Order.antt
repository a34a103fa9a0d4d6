-- ===== src/Future/Many/Order.antt =====
-- The actors of a contract call its state machine as they are allowed to, and act in turn.
use dummy_concurrency.Base.{
  ℕ, ◌+◌, ◌^◌, ◌≤◌, ◌<◌, ◌==◌, ◌≡◌, refl, sym, ◌⊎◌, Bool, true, false, ◌&&◌, Option, none, some,
  update, arith,
}
use dummy_concurrency.Future.OneAll.{Result, rendezvous, completed, consume}
use dummy_concurrency.Future.OneAll.View.{consume-ne-completed, finish-ne-rendezvous}
use dummy_concurrency.Future.OneAll.Protocol.{
  World, Call, consumed, finished, produced_all, produced_one, Allowed, tally, call, start,
  rendezvous_once, completed_once, produced, flag,
}
use dummy_concurrency.Future.OneAll.Protocol
use dummy_concurrency.Future.Meeting.{Kind, one, all}
use dummy_concurrency.Future.Many.Sums.{sum, sum-update, sum-none, sum-missing}
use dummy_concurrency.Future.Many

abbrev pub is_rendezvous : Result → ℕ
is_rendezvous rendezvous = 1
is_rendezvous r = 0

abbrev pub is_completed : Result → ℕ
is_completed completed = 1
is_completed r = 0

-- Whether a producer has called the state machine.
abbrev pub made : {L : Type 0} → Many.Pc L → ℕ
made (Many.Pc.storing l) = 0
made p = 1

abbrev pub is_one : Kind → ℕ
is_one one = 1
is_one all = 0

-- Whether a producer has called `ProduceOne`.
abbrev pub made_one : {L : Type 0} → Kind → Many.Pc L → ℕ
made_one one p = made p
made_one all p = 0

abbrev pub meets : {L : Type 0} → Many.Pc L → ℕ
meets (Many.Pc.answered r) = is_rendezvous r
meets p = 0

abbrev pub completes : {L : Type 0} → Many.Pc L → ℕ
completes (Many.Pc.answered r) = is_completed r
completes p = 0

abbrev pub has_consumed : Many.Consumer → ℕ
has_consumed Many.Consumer.setting = 0
has_consumed Many.Consumer.consuming = 0
has_consumed c = 1

abbrev pub consumer_meets : Many.Consumer → ℕ
consumer_meets (Many.Consumer.answered r) = is_rendezvous r
consumer_meets c = 0

abbrev pub has_begun : {Q : Type 0} → Many.Task Q → ℕ
has_begun Many.Task.absent = 0
has_begun t = 1

abbrev pub has_finished : {Q : Type 0} → Many.Task Q → ℕ
has_finished (Many.Task.answered r) = 1
has_finished Many.Task.over = 1
has_finished t = 0

abbrev pub task_completes : {Q : Type 0} → Many.Task Q → ℕ
task_completes (Many.Task.answered r) = is_completed r
task_completes t = 0

abbrev pub has_died : {D : Type 0} → Many.Object D → ℕ
has_died Many.Object.alive = 0
has_died o = 1

-- What holds of the local and the store after an access, if there is one.
abbrev pub Next : {A B : Type 0} → (A → B → Type 0) → Option (A × B) → Type 0
Next P none = Unit {0}
Next P (some (a, b)) = P a b

-- What a call counts.
pub call-counts :
    (w : World) (c : Call)
    → ((call w c).rendezvouses ≡ w.rendezvouses + is_rendezvous (Many.answer w c))
      × ((call w c).completions ≡ w.completions + is_completed (Many.answer w c))
unfolding call Many.answer
call-counts w consumed = ground (arith, consume w.machine)
call-counts w finished = ground arith
call-counts w produced_all = ground arith
call-counts w produced_one = ground arith

-- The tallies of a call but those of its answers.
pub call-tallies :
    (w : World) (k : Kind)
    → ((call w (Many.call_of k)).consumes ≡ w.consumes)
      × ((call w (Many.call_of k)).finishes ≡ w.finishes)
      × ((call w (Many.call_of k)).produces ≡ w.produces + 1)
      × ((call w (Many.call_of k)).ones ≡ w.ones + is_one k)
unfolding call
call-tallies w one = ground arith
call-tallies w all = ground arith

pub consume-tallies :
    (w : World)
    → ((call w consumed).consumes ≡ w.consumes + 1)
      × ((call w consumed).finishes ≡ w.finishes)
      × ((call w consumed).produces ≡ w.produces)
      × ((call w consumed).ones ≡ w.ones)
unfolding call
consume-tallies w = ground arith

pub finish-tallies :
    (w : World)
    → ((call w finished).consumes ≡ w.consumes)
      × ((call w finished).finishes ≡ w.finishes + 1)
      × ((call w finished).produces ≡ w.produces)
      × ((call w finished).ones ≡ w.ones)
unfolding call
finish-tallies w = ground arith

pub no_completed : (w : World) → is_completed (Many.answer w consumed) ≡ 0
unfolding Many.answer
no_completed w = ground (arith, consume-ne-completed w.machine)

pub no_rendezvous : (w : World) → is_rendezvous (Many.answer w finished) ≡ 0
unfolding Many.answer
no_rendezvous w = ground (arith, finish-ne-rendezvous w.machine)

module _ {S L Q D : Type 0} (n : ℕ) (b : Many.Behaviour S L Q D) where
  pub record Core (s : Many.Contract S L Q D) : Type 0 where
    pub reached : Protocol.Reach n s.world
    pub consumes : s.world.consumes ≡ has_consumed s.consumer
    pub finishes : s.world.finishes ≡ has_finished s.task
    pub produces : s.world.produces ≡ sum n (λ i. made (s.pc i))
    pub ones : s.world.ones ≡ sum n (λ i. made_one (b.kind i) (s.pc i))
    pub met :
        s.world.rendezvouses
        ≡ sum n (λ i. meets (s.pc i)) + consumer_meets s.consumer + has_begun s.task
    pub ended :
        s.world.completions
        ≡ sum n (λ i. completes (s.pc i)) + task_completes s.task + has_died s.object

  pub create-Core : (store : S) → Core (Many.create n b store)
  unfolding start
  create-Core store = record {
    reached = Protocol.here;
    consumes = refl;
    finishes = refl;
    produces = sym (sum-none (λ i. 0) n (λ i lt. refl));
    ones = sym (
        sum-none (λ i. made_one (b.kind i) (Many.Pc.storing b.begin)) n
          (λ i lt. zero_at (b.kind i)));
    met = omega (arith, sum-none (λ i. 0) n (λ i lt. refl));
    ended = omega (arith, sum-none (λ i. 0) n (λ i lt. refl));
  }
    where
      zero_at : (k : Kind) → made_one k (Many.Pc.storing b.begin) ≡ 0
      zero_at one = refl
      zero_at all = refl

  -- A producer goes from one place of its code to another.
  pub sums :
      (pc : ℕ → Many.Pc L) (i : ℕ) (p : Many.Pc L)
      → i < n
      → (sum n (λ j. made (update pc i p j)) + made (pc i) ≡ sum n (λ j. made (pc j)) + made p)
        × (sum n (λ j. made_one (b.kind j) (update pc i p j)) + made_one (b.kind i) (pc i)
            ≡ sum n (λ j. made_one (b.kind j) (pc j)) + made_one (b.kind i) p)
        × (sum n (λ j. meets (update pc i p j)) + meets (pc i)
            ≡ sum n (λ j. meets (pc j)) + meets p)
        × (sum n (λ j. completes (update pc i p j)) + completes (pc i)
            ≡ sum n (λ j. completes (pc j)) + completes p)
  sums pc i p lt = (
    sum-update (λ j q. made q) pc i p n lt,
    sum-update (λ j q. made_one (b.kind j) q) pc i p n lt,
    sum-update (λ j q. meets q) pc i p n lt,
    sum-update (λ j q. completes q) pc i p n lt,
  )

  pub submit-counts :
      (r : Result) (t : Many.Task Q)
      → is_rendezvous r + has_begun t ≤ 1
      → (has_begun (Many.submit_on n b r t) ≡ is_rendezvous r + has_begun t)
        × (has_finished (Many.submit_on n b r t) ≡ has_finished t)
        × (task_completes (Many.submit_on n b r t) ≡ task_completes t)
  unfolding Many.submit_on
  submit-counts r t h = ground arith

  pub delete-counts :
      (r : Result) (store : S) (o : Many.Object D)
      → is_completed r + has_died o ≤ 1
      → has_died (Many.delete_on n b r store o) ≡ is_completed r + has_died o
  unfolding Many.delete_on
  delete-counts r store o h = ground arith

  flag_le : (c : Bool) → flag c ≤ 1
  flag_le true = omega arith
  flag_le false = omega arith

  module _ (pos : 0 < n) (few : n + 1 < 2 ^ 29) {s : Many.Contract S L Q D} (v : Core s) where
    pub met_once : s.world.rendezvouses ≤ 1
    met_once = omega (
      arith,
      rendezvous_once pos few v.reached,
      flag_le ((s.world.consumes == 1) && produced n s.world),
    )

    pub ended_once : s.world.completions ≤ 1
    ended_once = omega (
      arith,
      completed_once pos few v.reached,
      flag_le ((s.world.finishes == 1) && (s.world.produces == n)),
    )

    -- A task that has begun has a result to take.
    pub begun_produced : has_begun s.task ≡ 1 → (0 < s.world.ones) ⊎ (s.world.produces ≡ n)
    begun_produced e = ground (arith, rendezvous_once pos few v.reached, v.met)

    pub died_finished : has_died s.object ≡ 1 → (s.world.finishes ≡ 1) × (s.world.produces ≡ n)
    died_finished e = ground (arith, completed_once pos few v.reached, v.ended)

    pub died_consumed : has_died s.object ≡ 1 → s.world.consumes ≡ 1
    died_consumed e = ground (
      arith,
      completed_once pos few v.reached,
      rendezvous_once pos few v.reached,
      v.ended,
      v.met,
      v.finishes,
    )

    made_le : {L' : Type 0} (p : Many.Pc L') → made p ≤ 1
    made_le (Many.Pc.storing l) = omega arith
    made_le (Many.Pc.answered r) = omega arith
    made_le Many.Pc.over = omega arith

    pub storing_few : (i : ℕ) → i < n → made (s.pc i) ≡ 0 → sum n (λ j. made (s.pc j)) < n
    storing_few i lt e = sum-missing (λ j. made (s.pc j)) n i (λ j. made_le (s.pc j)) lt e

    -- While a producer stores or the task runs, the contract is not deleted.
    pub storing_alive : (i : ℕ) → i < n → made (s.pc i) ≡ 0 → has_died s.object ≡ 0
    storing_alive i lt e =
        let short = storing_few i lt e in
        ground (arith, completed_once pos few v.reached, v.ended, v.produces)

    pub running_alive : has_finished s.task ≡ 0 → has_died s.object ≡ 0
    running_alive e = ground (arith, completed_once pos few v.reached, v.ended, v.finishes)
