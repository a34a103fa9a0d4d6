-- ===== src/Future/Many.antt =====
-- The contracts of `producer_count` producers (FirstContract.hpp and TryFirstContract.hpp under
-- DummyConcurrency/Future/State) with their stores in every interleaving: each step is one access of
-- a producer, of the consumer in `SetCallback`, of the task in `Run`, or of the destructor.
pub mod Sums
pub mod Order
pub mod Steps
pub mod Untouched
pub mod Progress
pub mod Turns
pub mod TryFirst
pub mod PlainFirst
use dummy_concurrency.Base.{ℕ, ◌<◌, ◌≡◌, Option, none, some, update}
use dummy_concurrency.Future.OneAll.{
  Result, rendezvous, completed, consume, finish, produce_all, produce_one,
}
use dummy_concurrency.Future.OneAll.Protocol.{
  World, Call, consumed, finished, produced_all, produced_one, call, start,
}
use dummy_concurrency.Future.Meeting.{Kind, one, all}

-- A producer with the local of its stores, or after the call of the state machine.
pub data Pc (L : Type 0) : Type 0 where
  storing : (local : L) → Pc L
  answered : Result → Pc L
  over : Pc L

-- `SetCallback` before the callback is stored, and before `Consume`.
pub data Consumer : Type 0 where
  setting consuming : Consumer
  answered : Result → Consumer
  over : Consumer

-- The contract as a task: `Run` with its local, and after `Finish`.
pub data Task (Q : Type 0) : Type 0 where
  absent : Task Q
  running : (local : Q) → Task Q
  answered : Result → Task Q
  over : Task Q

-- The contract as an object: the destructor with its local.
pub data Object (D : Type 0) : Type 0 where
  alive : Object D
  deleting : (local : D) → Object D
  gone : Object D

-- What one kind of contract does with its store: an access of a producer, of `Run` and of the
-- destructor, `none` after the last one.
pub record Behaviour (S L Q D : Type 0) : Type 0 where
  pub begin : L
  pub writes : ℕ → L → S → Option (L × S)
  pub kind : ℕ → Kind
  pub run : Q
  pub runs : Q → S → Option (Q × S)
  pub destroy : S → D
  pub frees : D → S → Option (D × S)

-- `world` is the state machine with the tallies of its calls.
pub record Contract (S L Q D : Type 0) : Type 0 where
  pub world : World
  pub store : S
  pub pc : ℕ → Pc L
  pub consumer : Consumer
  pub task : Task Q
  pub object : Object D

-- What the state machine answers to a call.
unfoldable pub answer : World → Call → Result
answer w consumed = (consume w.machine).1
answer w finished = (finish w.machine).1
answer w produced_all = (produce_all w.machine).1
answer w produced_one = (produce_one w.machine).1

abbrev pub call_of : Kind → Call
call_of one = produced_one
call_of all = produced_all

module _ {S L Q D : Type 0} (n : ℕ) (b : Behaviour S L Q D) where
  abbrev pub create : S → Contract S L Q D
  create store = record {
    world = start n;
    store = store;
    pc = λ i. storing b.begin;
    consumer = setting;
    task = absent;
    object = alive;
  }

  -- `if (res == Rendezvous) SubmitContract();`
  unfoldable pub submit_on : Result → Task Q → Task Q
  submit_on rendezvous t = running b.run
  submit_on r t = t

  -- `if (res == Completed) delete this;`
  unfoldable pub delete_on : Result → S → Object D → Object D
  delete_on completed store o = deleting (b.destroy store)
  delete_on r store o = o

  pub data Step (s : Contract S L Q D) : Contract S L Q D → Type 0 where
    writes :
        (i : ℕ) (l l' : L) (store : S)
        → i < n
        → s.pc i ≡ storing l
        → b.writes i l s.store ≡ some (l', store)
        → Step s (record s { store = store; pc = update s.pc i (storing l') })
    produces :
        (i : ℕ) (l : L)
        → i < n
        → s.pc i ≡ storing l
        → b.writes i l s.store ≡ none
        → Step s (record s {
          world = call s.world (call_of (b.kind i));
          pc = update s.pc i (answered (answer s.world (call_of (b.kind i))));
        })
    returns :
        (i : ℕ) (r : Result)
        → i < n
        → s.pc i ≡ answered r
        → Step s (record s {
          pc = update s.pc i over;
          task = submit_on r s.task;
          object = delete_on r s.store s.object;
        })
    sets : s.consumer ≡ setting → Step s (record s { consumer = consuming })
    consumes :
        s.consumer ≡ consuming
        → Step s (record s {
          world = call s.world consumed;
          consumer = answered (answer s.world consumed);
        })
    consumer_returns :
        (r : Result)
        → s.consumer ≡ answered r
        → Step s (record s { consumer = over; task = submit_on r s.task })
    runs :
        (q q' : Q) (store : S)
        → s.task ≡ running q
        → b.runs q s.store ≡ some (q', store)
        → Step s (record s { store = store; task = running q' })
    finishes :
        (q : Q)
        → s.task ≡ running q
        → b.runs q s.store ≡ none
        → Step s
            (record s { world = call s.world finished; task = answered (answer s.world finished) })
    task_returns :
        (r : Result)
        → s.task ≡ answered r
        → Step s (record s { task = over; object = delete_on r s.store s.object })
    frees :
        (d d' : D) (store : S)
        → s.object ≡ deleting d
        → b.frees d s.store ≡ some (d', store)
        → Step s (record s { store = store; object = deleting d' })
    ends :
        (d : D)
        → s.object ≡ deleting d
        → b.frees d s.store ≡ none
        → Step s (record s { object = gone })

  pub data Reach (store : S) : Contract S L Q D → Type 0 where
    begins : Reach store (create store)
    later : {s t : Contract S L Q D} → Reach store s → Step s t → Reach store t
