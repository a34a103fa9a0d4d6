-- ===== src/Future/Network/Chained.antt =====
-- What a future holds that is chained to one whose contract has a value, when its tasks have run.
use dummy_concurrency.Base.{
  ℕ, ◌+◌, ◌<◌, ◌≡◌, ◌≢◌, refl, sym, ap, ◌∙◌, true, false, none, some, List, [], ◌∷◌, ◌++◌, ◌>>=◌,
  length, update, update_eq, update_ne, arith,
}
use dummy_concurrency.Future.Meeting.{first}
use dummy_concurrency.Future.Network.Cells.{Value, result, put, single}
use dummy_concurrency.Future.Network.Handles.{
  World, Future, create, put_value, set_callback, submit_if_met, invoke, run_contract, run_task,
  take_at, run_taken, run_at, run_all, consume, consume_state, Callback, Task, contract, set_value,
  inline_scheduler,
}
use dummy_concurrency.Future.Network.Sequential.{chain}

-- The contract `c` has the value `v`, and was not submitted, since it was not consumed.
pub record Ready (w : World) (c : ℕ) (v : Value) : Type 0 where
  pub made : c < w.next
  pub value : w.slots c ≡ single (some v)
  pub unconsumed : w.submitted c ≡ false

take_last : {A : Type 0} (xs : List A) (x : A) → take_at (length xs) (xs ++ x ∷ []) ≡ some (x, xs)
unfolding take_at
take_last [] x = refl
take_last (y ∷ xs) x = rw (take_last xs x) refl

take_none : {A : Type 0} (xs : List A) → take_at (length xs) xs ≡ none
unfolding take_at
take_none [] = refl
take_none (y ∷ xs) = rw (take_none xs) refl

run_at-last :
    (w : World) (xs : List (ℕ × Task)) (scheduler : ℕ) (t : Task)
    → run_at (length xs) (record w { tasks = xs ++ (scheduler, t) ∷ [] })
      ≡ run_task t (record w { tasks = xs })
unfolding run_at run_taken
run_at-last w xs scheduler t = rw (take_last xs (scheduler, t)) refl

run_at-none : (w : World) → run_at (length w.tasks) w ≡ w
unfolding run_at run_taken
run_at-none w = rw (take_none w.tasks) refl

-- A callback that comes to a value submits the contract, which calls it.
set_callback-submits :
    (c : ℕ) (cb : Callback) (scheduler : ℕ) (w : World) (v : Value)
    → w.slots c ≡ single (some v)
    → w.submitted c ≡ false
    → set_callback c cb scheduler w ≡ record w {
      callbacks = update w.callbacks c (some cb);
      schedulers = update w.schedulers c scheduler;
      submitted = update w.submitted c true;
      tasks = w.tasks ++ (update w.schedulers c scheduler c, contract c) ∷ [];
    }
unfolding set_callback submit_if_met result
set_callback-submits c cb scheduler w v e e' = rw (e, e', update_eq w.callbacks c (some cb)) refl

set_callback-last :
    (c : ℕ) (cb : Callback) (scheduler : ℕ) (w : World) (v : Value)
    → w.slots c ≡ single (some v)
    → w.submitted c ≡ false
    → run_at (length w.tasks) (set_callback c cb scheduler w)
      ≡ invoke cb v (record w {
        callbacks = update w.callbacks c (some cb);
        schedulers = update w.schedulers c scheduler;
        submitted = update w.submitted c true;
        ran = update w.ran c (w.ran c + 1);
      })
unfolding run_task run_contract result
set_callback-last c cb scheduler w v e e' =
    ap (run_at (length w.tasks)) (set_callback-submits c cb scheduler w v e e')
    ∙ run_at-last
        (record w {
          callbacks = update w.callbacks c (some cb);
          schedulers = update w.schedulers c scheduler;
          submitted = update w.submitted c true;
        })
        w.tasks (update w.schedulers c scheduler c) (contract c)
    ∙ rw (e, update_eq w.callbacks c (some cb)) refl

-- A contract that nobody has consumed takes a value, and no task is submitted.
put_value-quiet :
    (n : ℕ) (v : Value) (w : World)
    → w.slots n ≡ single none
    → w.callbacks n ≡ none
    → put_value first n v w ≡ record w { slots = update w.slots n (single (some v)) }
unfolding put_value submit_if_met put result
put_value-quiet n v w e e' = rw (e', update_eq w.slots n (put first v (w.slots n)), e) refl

put_value-last :
    (n : ℕ) (v : Value) (w : World)
    → w.slots n ≡ single none
    → w.callbacks n ≡ none
    → (run_at (length w.tasks) (put_value first n v w)).slots n ≡ single (some v)
put_value-last n v w e e' =
    ap (λ u. (run_at (length w.tasks) u).slots n) (put_value-quiet n v w e e')
    ∙ ap (λ u. u.slots n) (run_at-none (record w { slots = update w.slots n (single (some v)) }))
    ∙ update_eq w.slots n (single (some v))

-- The program in which the callback of the contract `c` is called, after a contract was made for it.
pub called : ℕ → (ℕ → Callback) → ℕ → World → World
unfolding create
called c callback scheduler w =
    let w' = (create (single none) w).1 in
    record w' {
      callbacks = update w'.callbacks c (some (callback w.next));
      schedulers = update w'.schedulers c scheduler;
      submitted = update w'.submitted c true;
      ran = update w'.ran c (w'.ran c + 1);
    }

module _ {w : World} {c : ℕ} {v : Value} (callback : ℕ → Callback) (scheduler : ℕ)
    (ready : Ready w c v) where
  n_ne : w.next ≢ c
  n_ne e = absurd (omega (arith, ready.made, e))

  -- What the contract of the chained future holds, when two tasks have run.
  pub chain-runs :
      (f : Future)
      → f.state ≡ some c
      → (chain callback f scheduler w >>= λ p.
          p.0.state >>= λ n. some ((run_all (length w.tasks ∷ length w.tasks ∷ []) p.1).slots n))
        ≡ some (
            (run_at
                (length w.tasks)
                (invoke (callback w.next) v (called c callback scheduler w))).slots
              w.next)
  unfolding chain consume consume_state create run_all called
  chain-runs f e = rw e (
      ap (λ u. some ((run_at (length w.tasks) u).slots w.next))
        (set_callback-last c (callback w.next) scheduler (create (single none) w).1 v
          (update_ne w.slots w.next (single none) c n_ne ∙ ready.value)
          (update_ne w.submitted w.next false c n_ne ∙ ready.unconsumed)))

  no_callback : (called c callback scheduler w).callbacks w.next ≡ none
  unfolding called create
  no_callback =
      update_ne (update w.callbacks w.next none) c (some (callback w.next)) w.next
        (λ e. n_ne (sym e))
      ∙ update_eq w.callbacks w.next none

  -- Its callback sets the value at once.
  pub puts :
      (u : Value)
      → (run_at (length w.tasks) (put_value first w.next u (called c callback scheduler w))).slots
          w.next
        ≡ single (some u)
  unfolding called create
  puts u =
      put_value-last w.next u (called c callback scheduler w)
        (update_eq w.slots w.next (single none)) no_callback

  -- Its callback consumes the future of another contract, which sets the value.
  pub consumes :
      (d : ℕ) (u : Value)
      → c ≢ d
      → Ready w d u
      → (run_at (length w.tasks) (
            set_callback d
              (set_value first w.next)
              inline_scheduler
              (called c callback scheduler w))).slots
          w.next
        ≡ single (some u)
  unfolding called create invoke
  consumes d u ne other =
      let w' = called c callback scheduler w in
      let far : w.next ≢ d = λ e. absurd (omega (arith, other.made, e)) in
      ap (λ x. x.slots w.next)
        (set_callback-last d (set_value first w.next) inline_scheduler w' u
          (update_ne w.slots w.next (single none) d far ∙ other.value)
          (update_ne (update w.submitted w.next false) c true d ne
            ∙ update_ne w.submitted w.next false d far
            ∙ other.unconsumed))
      ∙ ap (λ x. x.slots w.next)
          (put_value-quiet w.next u
            (record w' {
              callbacks = update w'.callbacks d (some (set_value first w.next));
              schedulers = update w'.schedulers d inline_scheduler;
              submitted = update w'.submitted d true;
              ran = update w'.ran d (w'.ran d + 1);
            })
            (update_eq w.slots w.next (single none))
            (update_ne w'.callbacks d (some (set_value first w.next)) w.next (λ e. far (sym e))
              ∙ no_callback))
      ∙ update_eq w'.slots w.next (single (some u))
