-- ===== src/Future/OneAll/Protocol.antt =====
-- Every order in which the calls of a contract can reach its `OneAllStateMachine`.
use dummy_concurrency.Base.{
  ℕ, ◌+◌, ◌*◌, ◌^◌, ◌≤◌, ◌<◌, ◌==◌, ltb, if◌then◌else◌, ◌≡◌, ◌&&◌, ◌||◌, arith, Bool, ◌∙◌,
}
use dummy_concurrency.Future.OneAll.{
  OneAll, Result, in_progress, rendezvous, finishing, completed, init, consume, finish, produce_all,
  produce_one, is_ready,
}
use dummy_concurrency.Future.OneAll.View.{
  is_ready_parts, consume_parts, finish_parts, produce_all_parts, produce_one_parts,
}

-- What was called so far, and how often a call answered `Rendezvous` and `Completed`.
pub record World : Type 0 where
  pub machine : OneAll
  pub consumes : ℕ
  pub finishes : ℕ
  pub produces : ℕ
  pub ones : ℕ
  pub rendezvouses : ℕ
  pub completions : ℕ

pub data Call : Type 0 where
  consumed finished produced_all produced_one : Call

-- A future is consumed once, each producer sets its result once, and the task that a `Rendezvous`
-- submits calls `Finish` when it has run.
abbrev pub Allowed : ℕ → World → Call → Type 0
Allowed n w consumed = w.consumes ≡ 0
Allowed n w finished = w.finishes < w.rendezvouses
Allowed n w produced_all = w.produces < n
Allowed n w produced_one = w.produces < n

abbrev pub tally : World → OneAll × Result → World
tally w (m, in_progress) = record w { machine = m }
tally w (m, rendezvous) = record w { machine = m; rendezvouses = w.rendezvouses + 1 }
tally w (m, finishing) = record w { machine = m }
tally w (m, completed) = record w { machine = m; completions = w.completions + 1 }

unfoldable pub call : World → Call → World
call w consumed = tally (record w { consumes = w.consumes + 1 }) (consume w.machine)
call w finished = tally (record w { finishes = w.finishes + 1 }) (finish w.machine)
call w produced_all = tally (record w { produces = w.produces + 1 }) (produce_all w.machine)
call w produced_one =
    tally (record w { produces = w.produces + 1; ones = w.ones + 1 }) (produce_one w.machine)

unfoldable pub start : ℕ → World
start n = record {
  machine = init n;
  consumes = 0;
  finishes = 0;
  produces = 0;
  ones = 0;
  rendezvouses = 0;
  completions = 0;
}

pub data Reach (n : ℕ) : World → Type 0 where
  here : Reach n (start n)
  next : {w : World} (c : Call) → Reach n w → Allowed n w c → Reach n (call w c)

-- Whether a value, or all of them, has been produced.
abbrev pub produced : ℕ → World → Bool
produced n w = ltb 0 w.ones || w.produces == n

abbrev pub flag : Bool → ℕ
flag b = if b then 1 else 0

record Inv (n : ℕ) (w : World) : Type 0 where
  counted : w.machine.producer_count ≡ n
  word : w.machine.state ≡ w.consumes + 2 * w.finishes + 4 * flag (ltb 0 w.ones) + 8 * w.produces
  consumes_once : w.consumes ≤ 1
  finishes_once : w.finishes ≤ w.rendezvouses
  produces_all : w.produces ≤ n
  ones_le : w.ones ≤ w.produces
  met : w.rendezvouses ≡ flag (w.consumes == 1 && produced n w)
  ended : w.completions ≡ flag (w.finishes == 1 && w.produces == n)

start-Inv : (n : ℕ) → 0 < n → Inv n (start n)
unfolding start init
start-Inv n h = ground arith

module _ {n : ℕ} {w : World} (few : n + 1 < 2 ^ 29) (v : Inv n w) where
  abbrev one_flag : ℕ
  one_flag = flag (ltb 0 w.ones)

  call-Inv : (c : Call) → Allowed n w c → Inv n (call w c)
  unfolding call
  call-Inv consumed a = ground (arith, consume_parts w.machine 0 w.finishes one_flag w.produces)
  call-Inv finished a = ground (arith, finish_parts w.machine w.consumes 0 one_flag w.produces)
  call-Inv produced_all a =
      ground (arith, produce_all_parts w.machine w.consumes w.finishes one_flag w.produces)
  call-Inv produced_one a =
      ground (arith, produce_one_parts w.machine w.consumes w.finishes one_flag w.produces)

Reach-Inv : {n : ℕ} {w : World} → 0 < n → n + 1 < 2 ^ 29 → Reach n w → Inv n w
Reach-Inv {n} h few here = start-Inv n h
Reach-Inv h few (next c r a) = call-Inv few (Reach-Inv h few r) c a

last : {n : ℕ} {w : World} → Inv n w → w.completions ≡ 1 → (c : Call) → ¬ Allowed n w c
last v e consumed a = ground arith
last v e finished a = ground arith
last v e produced_all a = ground arith
last v e produced_one a = ground arith

all_made :
    {n : ℕ} {w : World}
    → 0 < n
    → Inv n w
    → ¬ (w.consumes ≡ 0)
    → ¬ (w.finishes < w.rendezvouses)
    → ¬ (w.produces < n)
    → (w.rendezvouses ≡ 1) × (w.completions ≡ 1)
all_made h v a b c = ground arith

ready : {n : ℕ} {w : World} → Inv n w → n + 1 < 2 ^ 29 → is_ready w.machine ≡ produced n w
ready {n} {w} v few =
    is_ready_parts w.machine w.consumes w.finishes (flag (ltb 0 w.ones)) w.produces v.word
      (ground arith) (ground arith) (ground arith) (ground arith) (ground arith)
    ∙ ground arith

-- In every order of the calls, with 0 < n < 2^29 - 1 producers: `Rendezvous` has been answered once
-- when the consumer and a result (one value, or all n results) have arrived, and never before.
pub rendezvous_once :
    {n : ℕ} {w : World}
    → 0 < n
    → n + 1 < 2 ^ 29
    → Reach n w
    → w.rendezvouses ≡ flag (w.consumes == 1 && produced n w)
rendezvous_once h few r = (Reach-Inv h few r).met

-- In every order of the calls, with 0 < n < 2^29 - 1 producers: `Completed` has been answered once
-- when the task has finished and all n producers have arrived, and never before.
pub completed_once :
    {n : ℕ} {w : World}
    → 0 < n
    → n + 1 < 2 ^ 29
    → Reach n w
    → w.completions ≡ flag (w.finishes == 1 && w.produces == n)
completed_once h few r = (Reach-Inv h few r).ended

-- With 0 < n < 2^29 - 1 producers, after `Completed` no call is left to make: the contract that is
-- deleted on it is not touched again.
pub completed_last :
    {n : ℕ} {w : World}
    → 0 < n
    → n + 1 < 2 ^ 29
    → Reach n w
    → w.completions ≡ 1
    → (c : Call) → ¬ Allowed n w c
completed_last h few r e c a = last (Reach-Inv h few r) e c a

-- With 0 < n < 2^29 - 1 producers, when no call is left to make, `Rendezvous` and `Completed` have
-- each been answered once.
pub none_left_completed :
    {n : ℕ} {w : World}
    → 0 < n
    → n + 1 < 2 ^ 29
    → Reach n w
    → ((c : Call) → ¬ Allowed n w c)
    → (w.rendezvouses ≡ 1) × (w.completions ≡ 1)
none_left_completed h few r none_left =
    all_made h (Reach-Inv h few r) (none_left consumed) (none_left finished)
      (none_left produced_all)

-- `IsReady` answers whether a result has arrived.
pub is_ready_iff :
    {n : ℕ} {w : World} → 0 < n → n + 1 < 2 ^ 29 → Reach n w → is_ready w.machine ≡ produced n w
is_ready_iff {n} {w} h few r = ready (Reach-Inv h few r) few
