-- ===== src/Tests/Counters.antt =====
-- An object that is stored, loaded, exchanged out, and released by everybody.
use dummy_concurrency.Base.{◌+◌, ◌==◌, ◌≡◌, refl, ◌&&◌, [], arith}
use dummy_concurrency.Structures.SharedPtr.{
  DiffCounted, create, call, exchange_out, modify_state, reset, load, raise, install, remove,
  release,
}
use dummy_concurrency.Structures.SharedPtr.Counted.{
  Reach, made, next, flag, references, deleted_unused, used_alive,
}

abbrev held : DiffCounted
held = call (call (call (call (call create raise) install) load) reset) remove

abbrev gone : DiffCounted
gone = call (call held (release [] 1 [])) reset

held-Reach : Reach held
unfolding call exchange_out modify_state
held-Reach =
    next remove
      (next reset
        (next load
          (next install (next raise made (omega arith) (omega arith, omega arith)) (omega arith)
            (omega arith, refl))
          (omega arith) (refl, omega arith, omega arith))
        (omega arith) (omega arith))
      (omega arith) refl

gone-Reach : Reach gone
unfolding call exchange_out modify_state
gone-Reach =
    next reset (next (release [] 1 []) held-Reach (omega arith) refl) (omega arith) (omega arith)

deleted_unused_example :
    gone.deletions ≡ flag (gone.handles + gone.foreign == 0 && references gone == 0)
deleted_unused_example = deleted_unused gone-Reach

used_alive_example : held.deletions ≡ 0
unfolding call exchange_out modify_state
used_alive_example = used_alive held-Reach (release [] 1 []) refl
