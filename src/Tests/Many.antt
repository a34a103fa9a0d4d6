-- ===== src/Tests/Many.antt =====
-- Contracts with one and with two producers.
use dummy_concurrency.Base.{
  ℕ, ◌<◌, ◌≤◌, ◌==◌, if◌then◌else◌, ◌≡◌, ◌≢◌, refl, sym, subst, ◌⊎◌, List, [], ◌∷◌, some, arith,
}
use native.Mathlib.Decide.{ℕ_discrete}
use dummy_concurrency.Future.Expected.{Expected, ok, failure, has_value}
use dummy_concurrency.Future.OneAll.{
  init, consume, finish, produce_all, produce_one, has_consume, has_produced, is_completed,
}
use dummy_concurrency.Future.OneAll.Protocol.{start, call}
use dummy_concurrency.Future.Many
use dummy_concurrency.Future.Many.Order.{
  made, meets, completes, has_consumed, consumer_meets, has_finished, task_completes,
}
use dummy_concurrency.Future.Many.Untouched.{deleted_untouched}
use dummy_concurrency.Future.Many.Progress.{gone_stuck, stuck_gone}
use dummy_concurrency.Future.Many.Turns.{
  Actor, producer, consumer, task, destructor, run, run-Reach,
}
use dummy_concurrency.Future.Many.TryFirst as TryFirst
use dummy_concurrency.Future.Many.TryFirst.{try_first}
use dummy_concurrency.Future.Many.TryFirst.Chosen.{any_ok}
use dummy_concurrency.Future.Many.TryFirst.Freeing.{NodeContract}
use dummy_concurrency.Future.Many.TryFirst.Freed.{nodes_freed}
use dummy_concurrency.Future.Many.TryFirst.Delivery.{first_ok_chosen}
use dummy_concurrency.Future.Many.PlainFirst as PlainFirst
use dummy_concurrency.Future.Many.PlainFirst.{plain_first}
use dummy_concurrency.Future.Many.PlainFirst.Accesses.{ValueContract}
use dummy_concurrency.Future.Many.PlainFirst.Freed.{values_freed}

-- The producer 0 fails, and the producer 1 succeeds.
abbrev fails_first : ℕ → Expected ℕ ℕ
fails_first i = if i == 0 then failure 7 else ok 9

abbrev p0 : Actor 2
p0 = producer 0 (omega arith)

abbrev p1 : Actor 2
p1 = producer 1 (omega arith)

-- Both producers add their results before the future is consumed, and the exchange of the first fails.
abbrev try_turns : List (Actor 2)
try_turns =
    p0 ∷ p1 ∷ p1 ∷ p0 ∷ p0 ∷ p0 ∷ p0 ∷ p1 ∷ p1 ∷ p1 ∷ consumer ∷ consumer ∷ consumer ∷ task ∷ task
    ∷ task ∷ task ∷ destructor ∷ destructor ∷ destructor ∷ []

abbrev try_created : NodeContract
try_created = Many.create 2 (try_first fails_first) TryFirst.empty

abbrev try_done : NodeContract
try_done = run 2 (try_first fails_first) try_turns try_created

try_done_gone : (try_done.object ≡ Many.Object.gone) × (try_done.store.calls ≡ some 1 ∷ [])
unfolding run start Many.answer call TryFirst.add_result Many.submit_on consume has_consume
    TryFirst.kind_of produce_one produce_all is_completed init has_produced TryFirst.run
    Many.delete_on finish TryFirst.delete_results
try_done_gone = (refl, refl)

try_done-Reach : Many.Reach 2 (try_first fails_first) TryFirst.empty try_done
try_done-Reach = run-Reach 2 (try_first fails_first) try_turns Many.begins

nodes_freed_example :
    ((j : ℕ)
      → (has_finished try_done.task ≡ 0 → try_done.store.deleted j ≡ 0)
        × (try_done.store.deleted j ≤ 1))
    × (try_done.object ≡ Many.Object.gone → (j : ℕ) → j < 2 → try_done.store.deleted j ≡ 1)
nodes_freed_example = nodes_freed fails_first (omega arith) (omega arith) try_done-Reach

first_ok_chosen_example :
    ((try_done.store.calls ≡ []) × (try_done.object ≢ Many.Object.gone))
    ⊎ ((i : ℕ) × (try_done.store.calls ≡ some i ∷ [])
        × (i < 2)
        × (has_value (fails_first i) ≡ any_ok 2 fails_first))
first_ok_chosen_example = first_ok_chosen 2 fails_first (omega arith) (omega arith) try_done-Reach

deleted_untouched_example :
    ((i : ℕ)
      → i < 2
      → (made (try_done.pc i) ≡ 1) × (meets (try_done.pc i) ≡ 0) × (completes (try_done.pc i) ≡ 0))
    × (has_consumed try_done.consumer ≡ 1)
    × (consumer_meets try_done.consumer ≡ 0)
    × (has_finished try_done.task ≡ 1)
    × (task_completes try_done.task ≡ 0)
unfolding run start Many.answer call TryFirst.add_result Many.submit_on consume has_consume
    TryFirst.kind_of produce_one produce_all is_completed init has_produced TryFirst.run
    Many.delete_on finish TryFirst.delete_results
deleted_untouched_example = deleted_untouched (omega arith) (omega arith) try_done-Reach refl

-- Both values are set, of which the second is deleted by its producer.
abbrev plain_turns : List (Actor 2)
plain_turns =
    p0 ∷ p1 ∷ consumer ∷ consumer ∷ consumer ∷ p0 ∷ p0 ∷ p0 ∷ p1 ∷ p1 ∷ task ∷ task ∷ p1 ∷ p1 ∷ task
    ∷ task ∷ task ∷ destructor ∷ []

abbrev plain_done : ValueContract
plain_done = run 2 plain_first plain_turns (Many.create 2 plain_first PlainFirst.empty)

plain_done_gone : (plain_done.object ≡ Many.Object.gone) × (plain_done.store.calls ≡ some 0 ∷ [])
unfolding run start Many.answer call PlainFirst.set_value_ptr Many.submit_on produce_one has_consume
    consume init has_produced PlainFirst.run is_completed Many.delete_on finish
plain_done_gone = (refl, refl)

plain_done-Reach : Many.Reach 2 plain_first PlainFirst.empty plain_done
plain_done-Reach = run-Reach 2 plain_first plain_turns Many.begins

values_freed_example :
    ((j : ℕ)
      → (plain_done.store.allocated j ≤ 1)
        × (plain_done.store.deleted j ≤ plain_done.store.allocated j))
    × (plain_done.object ≡ Many.Object.gone
        → (j : ℕ) → j < 2
        → plain_done.store.deleted j ≡ plain_done.store.allocated j)
    × (((plain_done.store.calls ≡ []) × (plain_done.object ≢ Many.Object.gone))
        ⊎ ((i : ℕ) × (plain_done.store.calls ≡ some i ∷ []) × (i < 2)))
values_freed_example = values_freed (omega arith) (omega arith) plain_done-Reach

plain_done_pc : (i : ℕ) → i < 2 → plain_done.pc i ≡ Many.Pc.over
unfolding run start Many.answer call PlainFirst.set_value_ptr Many.submit_on produce_one has_consume
    consume init has_produced PlainFirst.run is_completed Many.delete_on finish
plain_done_pc i lt = elim (ℕ_discrete i 0) [
  | yes e ↦ subst (λ j. plain_done.pc j ≡ Many.Pc.over) (sym e) refl
  | no ne ↦ let last : 1 ≡ i = omega arith in subst (λ j. plain_done.pc j ≡ Many.Pc.over) last refl
]

stuck_gone_example : (plain_done.task ≡ Many.Task.over) × (plain_done.object ≡ Many.Object.gone)
unfolding run start Many.answer call PlainFirst.set_value_ptr Many.submit_on produce_one has_consume
    consume init has_produced PlainFirst.run is_completed Many.delete_on finish
stuck_gone_example =
    stuck_gone (gone_stuck plain_done_pc refl refl refl) (omega arith) (omega arith)
      plain_done-Reach
