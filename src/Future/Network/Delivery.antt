-- ===== src/Future/Network/Delivery.antt =====
-- What a future delivers in the end, and what a consumed one does.
use dummy_concurrency.Base.{ℕ, ◌≡◌, ◌≢◌, refl, ap, Option, none, some, [], ◌∷◌, ◌>>=◌, length}
use dummy_concurrency.Future.Expected.{Expected}
use dummy_concurrency.Future.Network.Cells.{Value, ok, failure, Slots, single}
use dummy_concurrency.Future.Network.Handles.{
  World, Future, create, run_all, consume, consume_state, Callback, set_mapped, set_mapped_ok,
  and_then, or_else, flatten, inline_scheduler, set_scheduler,
}
use dummy_concurrency.Future.Network.Sequential.{
  chain, map, map_ok, and_then_future, or_else_future, flatten_future, try_flatten_future, flat_map,
  via, as_ok_future,
}
use dummy_concurrency.Future.Network.Pipes.{
  Pipe, pipe, map_pipe, flat_map_pipe, map_ok_pipe, and_then_pipe, or_else_pipe, via_pipe,
  as_try_future_pipe, as_ok_future_pipe, flatten_pipe,
}
use dummy_concurrency.Results as Results

-- A `Result` as the value that a future carries.
abbrev pub carried : Expected ℕ Value → Value
carried (Expected.ok v) = ok v
carried (Expected.failure e) = failure e

-- What the contract of the future holds that `p` makes of `f`, when two tasks submitted since have run.
unfoldable pub piped : Pipe → Future → World → Option Slots
unfolding pipe run_all
piped p f w = do
  (f', w') ← pipe p f w
  c ← f'.state
  let k = length w.tasks
  some ((run_all (k ∷ k ∷ []) w').slots c)

consumed :
    (callback : ℕ → Callback) (f : Future) (scheduler : ℕ) (w : World)
    → f.state ≡ none
    → chain callback f scheduler w ≡ none
unfolding chain consume consume_state create
consumed callback f scheduler w e =
    ap
      (λ st. consume_state st f (callback w.next) scheduler (create (single none) w).1 >>= λ p.
        some (record { state = some w.next; scheduler = p.0.scheduler }, p.1))
      e

-- A future that was consumed stops the program in every pipe but the one that leaves it alone.
pub consumed_stops :
    (p : Pipe) (f : Future) (w : World)
    → f.state ≡ none
    → p ≢ as_try_future_pipe
    → pipe p f w ≡ none
unfolding pipe map map_ok and_then_future or_else_future flatten_future try_flatten_future flat_map
    via as_ok_future set_scheduler
consumed_stops (map_pipe user) f w e ne = consumed (set_mapped user) f f.scheduler w e
consumed_stops (flat_map_pipe user) f w e ne =
    ap (λ r. r >>= λ q. flatten_future q.0 q.1) (consumed (set_mapped user) f f.scheduler w e)
consumed_stops (map_ok_pipe user) f w e ne = consumed (set_mapped_ok user) f f.scheduler w e
consumed_stops (and_then_pipe user) f w e ne = consumed (and_then user) f f.scheduler w e
consumed_stops (or_else_pipe user) f w e ne = consumed (or_else user) f f.scheduler w e
consumed_stops (via_pipe scheduler) f w e ne = rw e refl
consumed_stops as_try_future_pipe f w e ne = absurd (ne refl)
consumed_stops as_ok_future_pipe f w e ne = consumed (set_mapped ok) f f.scheduler w e
consumed_stops flatten_pipe f w e ne = consumed flatten f inline_scheduler w e
