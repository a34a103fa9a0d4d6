-- ===== src/Future/Network/Soundness.antt =====
-- What the contracts of a program carry, whatever the order in which the tasks run. `In c side` says
-- what may be put on a side of the contract `c`, `Out c` what its callback may get, and `Want k` what
-- the user may get under `k`.
pub mod Stored
pub mod Combinators
use dummy_concurrency.Base.{
  ℕ, zero, suc, ◌+◌, ◌<◌, ◌≤◌, ◌==◌, ◌≡◌, ◌≢◌, refl, sym, ap, subst, ◌∙◌, ◌⊎◌, inl, inr,
  if◌then◌else◌, Bool, true, false, not, ◌&&◌, List, [], ◌∷◌, ◌++◌, Option, none, some, update,
  update_eq, update_ne, arith,
}
use native.Mathlib.Decide.{ℕ_discrete}
use dummy_concurrency.Future.Meeting.{Side, first, second}
use dummy_concurrency.Future.Meeting.Values.{All}
use dummy_concurrency.Future.Network.Cells.{Value, ok, failure, future, Slots, put, result}
use dummy_concurrency.Future.Network.Handles.{
  World, Task, Callback, set_value, set_mapped, set_mapped_ok, and_then, or_else, flatten,
  try_flatten, set_ok, discard, deliver, contract, compute, create, is_some, submit_if_met,
  put_value, set_callback, invoke, run_contract, run_task, take_at, run_taken, run_at, run_all,
  inline_scheduler,
}
use dummy_concurrency.Future.Network.Soundness.Stored.{Holds, put-Holds, result-Holds}

module _ (In : ℕ → Side → Value → Type 0) (Out : ℕ → Value → Type 0)
    (Want : ℕ → Value → Type 0) where
  -- A callback may be set on a contract whose callback gets `P`.
  abbrev pub Fits : (Value → Type 0) → Callback → Type 0
  Fits P (set_value side c) = (v : Value) → P v → In c side v
  Fits P (set_mapped user c) = (v : Value) → P v → In c first (user v)
  Fits P (set_mapped_ok user c) =
      ((v : Value) → P (ok v) → In c first (ok (user v)))
      × ((e : ℕ) → P (failure e) → In c first (failure e))
  Fits P (and_then user c) =
      ((v w : Value) → P (ok v) → Out (user v) w → In c first w)
      × ((e : ℕ) → P (failure e) → In c first (failure e))
  Fits P (or_else user c) =
      ((v : Value) → P (ok v) → In c first (ok v))
      × ((e : ℕ) (w : Value) → P (failure e) → Out (user e) w → In c first w)
  Fits P (flatten c) = (d : ℕ) (w : Value) → P (future d) → Out d w → In c first w
  Fits P (try_flatten c) =
      ((d : ℕ) (w : Value) → P (ok (future d)) → Out d w → In c first (ok w))
      × ((e : ℕ) → P (failure e) → In c first (failure e))
  Fits P (set_ok c) = (v : Value) → P v → In c first (ok v)
  Fits P discard = Unit
  Fits P (deliver k) = (v : Value) → P v → Want k v

  abbrev pub FitsIf : (Value → Type 0) → Option Callback → Type 0
  FitsIf P none = Unit
  FitsIf P (some cb) = Fits P cb

  abbrev pub TaskFits : Task → Type 0
  TaskFits (contract c) = Unit
  TaskFits (compute function c) = In c first function

  pub record Sound (w : World) : Type 0 where
    pub slots : (c : ℕ) → Holds (In c) (Out c) (w.slots c)
    pub callbacks : (c : ℕ) → FitsIf (Out c) (w.callbacks c)
    pub tasks : All (λ t. TaskFits t.1) w.tasks
    pub delivered : All (λ d. Want d.0 d.1) w.delivered

  All-end :
      (t : ℕ × Task) (xs : List (ℕ × Task))
      → TaskFits t.1
      → All (λ t. TaskFits t.1) xs
      → All (λ t. TaskFits t.1) (xs ++ t ∷ [])
  All-end t [] h k = (h, tt)
  All-end t (x ∷ xs) h k = (k.0, All-end t xs h k.1)

  submit_if_met-Sound : (c : ℕ) (w : World) → Sound w → Sound (submit_if_met c w)
  unfolding submit_if_met
  submit_if_met-Sound c w s =
      submitted (is_some (result (w.slots c)) && is_some (w.callbacks c) && not (w.submitted c))
    where
      w' : World
      w' = record w {
        submitted = update w.submitted c true;
        tasks = w.tasks ++ (w.schedulers c, contract c) ∷ [];
      }

      submitted : (b : Bool) → Sound (if b then w' else w)
      submitted true = record {
        slots = s.slots;
        callbacks = s.callbacks;
        tasks = All-end (w.schedulers c, contract c) w.tasks tt s.tasks;
        delivered = s.delivered;
      }
      submitted false = s

  pub put_value-Sound :
      (side : Side) (c : ℕ) (v : Value) (w : World)
      → In c side v
      → Sound w
      → Sound (put_value side c v w)
  unfolding put_value
  put_value-Sound side c v w i s =
      submit_if_met-Sound c (record w { slots = update w.slots c (put side v (w.slots c)) })
        (record {
          slots = λ d. elim (ℕ_discrete c d) [
            | yes e ↦
                subst (λ x. Holds (In x) (Out x) (update w.slots c (put side v (w.slots c)) x)) e
                  (rw (update_eq w.slots c (put side v (w.slots c)))
                    (put-Holds (In c) (Out c) side v (w.slots c) i (s.slots c)))
            | no ne ↦ rw (update_ne w.slots c (put side v (w.slots c)) d ne) (s.slots d)
          ];
          callbacks = s.callbacks;
          tasks = s.tasks;
          delivered = s.delivered;
        })

  pub set_callback-Sound :
      (c : ℕ) (cb : Callback) (scheduler : ℕ) (w : World)
      → Fits (Out c) cb
      → Sound w
      → Sound (set_callback c cb scheduler w)
  unfolding set_callback
  set_callback-Sound c cb scheduler w f s =
      submit_if_met-Sound c
        (record w {
          callbacks = update w.callbacks c (some cb);
          schedulers = update w.schedulers c scheduler;
        })
        (record {
          slots = s.slots;
          callbacks = λ d. elim (ℕ_discrete c d) [
            | yes e ↦
                subst (λ x. FitsIf (Out x) (update w.callbacks c (some cb) x)) e
                  (rw (update_eq w.callbacks c (some cb)) f)
            | no ne ↦ rw (update_ne w.callbacks c (some cb) d ne) (s.callbacks d)
          ];
          tasks = s.tasks;
          delivered = s.delivered;
        })

  invoke-Sound :
      (cb : Callback) (P : Value → Type 0) (v : Value) (w : World)
      → Fits P cb
      → P v
      → Sound w
      → Sound (invoke cb v w)
  unfolding invoke
  invoke-Sound (set_value side c) P v w f p s = put_value-Sound side c v w (f v p) s
  invoke-Sound (set_mapped user c) P v w f p s = put_value-Sound first c (user v) w (f v p) s
  invoke-Sound (set_mapped_ok user c) P (ok v) w f p s =
      put_value-Sound first c (ok (user v)) w (f.0 v p) s
  invoke-Sound (set_mapped_ok user c) P (failure e) w f p s =
      put_value-Sound first c (failure e) w (f.1 e p) s
  invoke-Sound (set_mapped_ok user c) P v w f p s = s
  invoke-Sound (and_then user c) P (ok v) w f p s =
      set_callback-Sound (user v) (set_value first c) inline_scheduler w (λ x. f.0 v x p) s
  invoke-Sound (and_then user c) P (failure e) w f p s =
      put_value-Sound first c (failure e) w (f.1 e p) s
  invoke-Sound (and_then user c) P v w f p s = s
  invoke-Sound (or_else user c) P (ok v) w f p s = put_value-Sound first c (ok v) w (f.0 v p) s
  invoke-Sound (or_else user c) P (failure e) w f p s =
      set_callback-Sound (user e) (set_value first c) inline_scheduler w (λ x. f.1 e x p) s
  invoke-Sound (or_else user c) P v w f p s = s
  invoke-Sound (flatten c) P (future d) w f p s =
      set_callback-Sound d (set_value first c) inline_scheduler w (λ x. f d x p) s
  invoke-Sound (flatten c) P v w f p s = s
  invoke-Sound (try_flatten c) P (ok (future d)) w f p s =
      set_callback-Sound d (set_ok c) inline_scheduler w (λ x. f.0 d x p) s
  invoke-Sound (try_flatten c) P (failure e) w f p s =
      put_value-Sound first c (failure e) w (f.1 e p) s
  invoke-Sound (try_flatten c) P v w f p s = s
  invoke-Sound (set_ok c) P v w f p s = put_value-Sound first c (ok v) w (f v p) s
  invoke-Sound discard P v w f p s = s
  invoke-Sound (deliver k) P v w f p s = record {
    slots = s.slots;
    callbacks = s.callbacks;
    tasks = s.tasks;
    delivered = (f v p, s.delivered);
  }

  run_contract-Sound :
      (c : ℕ) (v : Option Value) (cb : Option Callback) (w : World)
      → ((x : Value) → v ≡ some x → Out c x)
      → FitsIf (Out c) cb
      → Sound w
      → Sound (run_contract v cb w)
  unfolding run_contract
  run_contract-Sound c (some v) (some cb) w h f s = invoke-Sound cb (Out c) v w f (h v refl) s
  run_contract-Sound c (some v) none w h f s = s
  run_contract-Sound c none cb w h f s = s

  run_task-Sound : (t : Task) (w : World) → TaskFits t → Sound w → Sound (run_task t w)
  unfolding run_task
  run_task-Sound (contract c) w f s =
      run_contract-Sound c (result (w.slots c)) (w.callbacks c)
        (record w { ran = update w.ran c (w.ran c + 1) })
        (λ x e. result-Holds (In c) (Out c) x (w.slots c) (s.slots c) e) (s.callbacks c)
        (record {
          slots = s.slots;
          callbacks = s.callbacks;
          tasks = s.tasks;
          delivered = s.delivered;
        })
  run_task-Sound (compute function c) w f s = put_value-Sound first c function w f s

  Taken : Option ((ℕ × Task) × List (ℕ × Task)) → Type 0
  Taken none = Unit
  Taken (some (t, rest)) = TaskFits t.1 × All (λ u. TaskFits u.1) rest

  take_at-Taken : (i : ℕ) (xs : List (ℕ × Task)) → All (λ u. TaskFits u.1) xs → Taken (take_at i xs)
  unfolding take_at Taken
  take_at-Taken i [] h = tt
  take_at-Taken zero (x ∷ xs) h = h
  take_at-Taken (suc i) (x ∷ xs) h = put_back x (take_at i xs) h.0 (take_at-Taken i xs h.1)
    where
      put_back :
          (x : ℕ × Task) (r : Option ((ℕ × Task) × List (ℕ × Task)))
          → TaskFits x.1
          → Taken r
          → Taken (elim r [ none ↦ none | some (y, ys) ↦ some (y, x ∷ ys) ])
      put_back x none g k = tt
      put_back x (some (y, ys)) g k = (k.0, (g, k.1))

  run_taken-Sound :
      (r : Option ((ℕ × Task) × List (ℕ × Task))) (w : World)
      → Taken r
      → Sound w
      → Sound (run_taken r w)
  unfolding run_taken Taken
  run_taken-Sound none w k s = s
  run_taken-Sound (some ((scheduler, t), rest)) w k s =
      run_task-Sound t (record w { tasks = rest }) k.0
        (record { slots = s.slots; callbacks = s.callbacks; tasks = k.1; delivered = s.delivered })

  -- If all that the contracts, callbacks and tasks of a program may carry is allowed, then after any
  -- tasks have run, in any order, it still is, and all that was delivered is wanted.
  pub run_all-Sound : (places : List ℕ) (w : World) → Sound w → Sound (run_all places w)
  unfolding run_all run_at
  run_all-Sound [] w s = s
  run_all-Sound (i ∷ places) w s =
      run_all-Sound places (run_taken (take_at i w.tasks) w)
        (run_taken-Sound (take_at i w.tasks) w (take_at-Taken i w.tasks s.tasks) s)
