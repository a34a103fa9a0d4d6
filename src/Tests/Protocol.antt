-- ===== src/Tests/Protocol.antt =====
-- The state machine of a contract with two producers: the consumer arrives, then both results, then
-- the task finishes.
use dummy_concurrency.Base.{◌≡◌, refl, ◌&&◌, ◌==◌, arith}
use dummy_concurrency.Future.OneAll.{
  init, consume, finish, produce_all, produce_one, has_produced, is_completed, has_consume,
}
use dummy_concurrency.Future.OneAll.Protocol.{
  World, consumed, finished, produced_all, produced_one, call, start, Reach, here, next, produced,
  flag, rendezvous_once, completed_once,
}

abbrev met : World
met = call (call (start 2) consumed) produced_one

abbrev ended : World
ended = call (call met produced_all) finished

met-Reach : Reach 2 met
unfolding start init call consume produce_one has_produced is_completed has_consume
met-Reach = next produced_one (next consumed here refl) (omega arith)

ended-Reach : Reach 2 ended
unfolding start init call consume produce_one produce_all has_produced is_completed has_consume
ended-Reach = next finished (next produced_all met-Reach (omega arith)) (omega arith)

ended_completed : ended.completions ≡ 1
unfolding start init call consume produce_one produce_all finish has_produced is_completed
    has_consume
ended_completed = refl

rendezvous_once_example : met.rendezvouses ≡ flag (met.consumes == 1 && produced 2 met)
rendezvous_once_example = rendezvous_once (omega arith) (omega arith) met-Reach

completed_once_example : ended.completions ≡ flag (ended.finishes == 1 && ended.produces == 2)
completed_once_example = completed_once (omega arith) (omega arith) ended-Reach
