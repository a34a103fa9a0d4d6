-- ===== src/Future/Network/Composing.antt =====
-- The combinators make programs of programs, so that what holds of every program holds of what they give.
use dummy_concurrency.Base.{ℕ, Option, none, some, ◌>>=◌}
use dummy_concurrency.Future.Meeting.{first, second}
use dummy_concurrency.Future.Network.Cells.{Value, ok, Slots, single}
use dummy_concurrency.Future.Network.Handles.{
  World, Future, Callback, set_value, set_mapped, set_mapped_ok, and_then, or_else, flatten,
  deliver, inline_scheduler, create, consume, consume_state, set_scheduler,
}
use dummy_concurrency.Future.Network.Make.{
  Promise, ready, make_contract, submit, set, set_state, get,
}
use dummy_concurrency.Future.Network.Sequential.{
  chain, map, map_ok, and_then_future, or_else_future, flatten_future, try_flatten_future, flat_map,
  via, as_try_future, as_ok_future,
}
use dummy_concurrency.Future.Network.Concurrent.{join}
use dummy_concurrency.Future.Network.Pipes.{
  Pipe, pipe, map_pipe, flat_map_pipe, map_ok_pipe, and_then_pipe, or_else_pipe, via_pipe,
  as_try_future_pipe, as_ok_future_pipe, flatten_pipe,
}
use dummy_concurrency.Future.Network.Progress.{Program, makes, sets, puts, submits}

-- What comes back, if anything does, is a program.
abbrev pub Programs : Option (Future × World) → Type 0
Programs none = Unit
Programs (some (f, w)) = Program w

abbrev pub SetPrograms : Option (Promise × World) → Type 0
SetPrograms none = Unit
SetPrograms (some (q, w)) = Program w

abbrev pub GetPrograms : Option World → Type 0
GetPrograms none = Unit
GetPrograms (some w) = Program w

consume-Programs :
    (st : Option ℕ) (f : Future) (cb : Callback) (scheduler : ℕ) (w : World)
    → Program w
    → Programs (consume_state st f cb scheduler w)
unfolding consume_state
consume-Programs none f cb scheduler w p = tt
consume-Programs (some c) f cb scheduler w p = sets c cb scheduler p

bind-Programs :
    (r : Option (Future × World)) (next : Future × World → Option (Future × World))
    → Programs r
    → ((f : Future) (w : World) → Program w → Programs (next (f, w)))
    → Programs (r >>= next)
bind-Programs none next p h = tt
bind-Programs (some (f, w)) next p h = h f w p

chain-Programs :
    (callback : ℕ → Callback) (f : Future) (scheduler : ℕ) (w : World)
    → Program w
    → Programs (chain callback f scheduler w)
unfolding chain consume create
chain-Programs callback f scheduler w p =
    bind-Programs (consume_state f.state f (callback w.next) scheduler (create (single none) w).1)
      (λ q. some (record { state = some w.next; scheduler = q.0.scheduler }, q.1))
      (consume-Programs f.state f (callback w.next) scheduler (create (single none) w).1
        (makes (single none) p))
      (λ f' w' p'. p')

-- A future of a program that is piped into any combinator gives, if it was not consumed before, a
-- program again.
pub pipe-Programs : (q : Pipe) (f : Future) (w : World) → Program w → Programs (pipe q f w)
unfolding pipe map map_ok and_then_future or_else_future flatten_future try_flatten_future flat_map
    via as_try_future as_ok_future set_scheduler
pipe-Programs (map_pipe user) f w p = chain-Programs (set_mapped user) f f.scheduler w p
pipe-Programs (flat_map_pipe user) f w p =
    bind-Programs (chain (set_mapped user) f f.scheduler w) (λ r. flatten_future r.0 r.1)
      (chain-Programs (set_mapped user) f f.scheduler w p)
      (λ f' w' p'. chain-Programs flatten f' inline_scheduler w' p')
pipe-Programs (map_ok_pipe user) f w p = chain-Programs (set_mapped_ok user) f f.scheduler w p
pipe-Programs (and_then_pipe user) f w p = chain-Programs (and_then user) f f.scheduler w p
pipe-Programs (or_else_pipe user) f w p = chain-Programs (or_else user) f f.scheduler w p
pipe-Programs (via_pipe scheduler) f w p = through f.state
  where
    through :
        (st : Option ℕ)
        → Programs (
            (elim st [ none ↦ none | some c ↦ some (record f { scheduler = scheduler }) ])
            >>= (λ f'. some (f', w)))
    through none = tt
    through (some c) = p
pipe-Programs as_try_future_pipe f w p = p
pipe-Programs as_ok_future_pipe f w p = chain-Programs (set_mapped ok) f f.scheduler w p
pipe-Programs flatten_pipe f w p = chain-Programs flatten f inline_scheduler w p

-- A future that is made from two futures of a program gives, if they were not consumed before, a
-- program again.
pub join-Programs :
    (slots : Slots) (a b : Future) (w : World) → Program w → Programs (join slots a b w)
unfolding join consume create
join-Programs slots a b w p =
    let n = w.next in
    let w1 : World = (create slots w).1 in
    bind-Programs (consume_state a.state a (set_value first n) inline_scheduler w1)
      (λ r. consume b (set_value second n) inline_scheduler r.1 >>= λ q.
        some (record { state = some n; scheduler = inline_scheduler }, q.1))
      (consume-Programs a.state a (set_value first n) inline_scheduler w1 (makes slots p))
      (λ a' w2 p2.
        bind-Programs (consume_state b.state b (set_value second n) inline_scheduler w2)
          (λ q. some (record { state = some n; scheduler = inline_scheduler }, q.1))
          (consume-Programs b.state b (set_value second n) inline_scheduler w2 p2) (λ b' w3 p3. p3))

-- What begins and ends a chain of futures makes programs of programs: `Ready`, `Contract`, `Submit` to a
-- scheduler, `Set` of a promise, and `Get`.
pub ends-Programs :
    (w : World)
    → Program w
    → ((v : Value) → Program (ready v w).1)
      × Program (make_contract w).1
      × ((scheduler : ℕ) (function : Value) → Program (submit scheduler function w).1)
      × ((p : Promise) (v : Value) → SetPrograms (set p v w))
      × ((k : ℕ) (f : Future) → GetPrograms (get k f w))
unfolding ready make_contract submit create set set_state get consume
ends-Programs w p = (
  λ v. puts first w.next v (makes (single none) p),
  makes (single none) p,
  λ scheduler function. submits scheduler function w.next (makes (single none) p),
  λ q v. set_it q.state v,
  λ k f.
      got (consume_state f.state f (deliver k) inline_scheduler w)
        (consume-Programs f.state f (deliver k) inline_scheduler w p),
)
  where
    set_it : (st : Option ℕ) (v : Value) → SetPrograms (set_state st v w)
    set_it none v = tt
    set_it (some c) v = puts first c v p

    got : (r : Option (Future × World)) → Programs r → GetPrograms (r >>= λ q. some q.1)
    got none h = tt
    got (some (f, w')) h = h
