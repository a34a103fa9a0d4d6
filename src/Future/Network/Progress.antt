-- ===== src/Future/Network/Progress.antt =====
-- What a program does, and that no task of it is lost.
use dummy_concurrency.Base.{ℕ, [], ◌∷◌, ◌++◌}
use dummy_concurrency.Future.Meeting.{Side}
use dummy_concurrency.Future.Network.Cells.{Value, Slots}
use dummy_concurrency.Future.Network.Handles.{
  World, Callback, compute, create, put_value, set_callback, run_at, start,
}
use dummy_concurrency.Future.Network.Live.{Live}

-- What a program does with its contracts: it makes them, sets values and callbacks, submits
-- functions, and its schedulers run the tasks.
pub data Program : World → Type 0 where
  begins : Program start
  makes : {w : World} (s : Slots) → Program w → Program (create s w).1
  puts : {w : World} (side : Side) (c : ℕ) (v : Value) → Program w → Program (put_value side c v w)
  sets :
      {w : World} (c : ℕ) (cb : Callback) (scheduler : ℕ)
      → Program w
      → Program (set_callback c cb scheduler w)
  submits :
      {w : World} (scheduler : ℕ) (function : Value) (c : ℕ)
      → Program w
      → Program (record w { tasks = w.tasks ++ (scheduler, compute function c) ∷ [] })
  runs : {w : World} (i : ℕ) → Program w → Program (run_at i w)
