-- ===== src/Future/Network/Soundness/Combinators.antt =====
-- Each combinator keeps a program sound, if what its new contract may carry is what the combinator
-- makes of what the old one may.
use dummy_concurrency.Base.{
  ℕ, ◌≡◌, refl, ap, subst, ◌∙◌, Option, none, some, update, update_eq, update_ne, ◌>>=◌,
}
use native.Mathlib.Decide.{ℕ_discrete}
use dummy_concurrency.Future.Meeting.{Side, first, second}
use dummy_concurrency.Future.Network.Cells.{Value, ok, failure, future, Slots, single}
use dummy_concurrency.Future.Network.Handles.{
  World, start, Future, Callback, set_value, set_mapped, set_mapped_ok, and_then, or_else, flatten,
  deliver, inline_scheduler, create, put_value, set_callback, consume, consume_state,
}
use dummy_concurrency.Future.Network.Make.{Promise, set, set_state, get}
use dummy_concurrency.Future.Network.Sequential.{
  chain, map, map_ok, and_then_future, or_else_future, flatten_future, try_flatten_future,
  as_ok_future,
}
use dummy_concurrency.Future.Network.Concurrent.{join}
use dummy_concurrency.Future.Network.Pipes.{
  Pipe, pipe, map_pipe, flat_map_pipe, map_ok_pipe, and_then_pipe, or_else_pipe, via_pipe,
  as_try_future_pipe, as_ok_future_pipe, flatten_pipe,
}
use dummy_concurrency.Future.Network.Soundness.Stored.{Holds}
use dummy_concurrency.Future.Network.Soundness.{
  Sound, Fits, FitsIf, put_value-Sound, set_callback-Sound,
}

module _ (In : ℕ → Side → Value → Type 0) (Out : ℕ → Value → Type 0)
    (Want : ℕ → Value → Type 0) where
  -- Before anything is made, all is sound.
  pub start-Sound : Sound In Out Want start
  start-Sound = record { slots = λ c. tt; callbacks = λ c. tt; tasks = tt; delivered = tt }

  pub create-Sound :
      (s : Slots) (w : World)
      → Holds (In w.next) (Out w.next) s
      → Sound In Out Want w
      → Sound In Out Want (create s w).1
  unfolding create
  create-Sound s w h k = record {
    slots = λ d. elim (ℕ_discrete w.next d) [
      | yes e ↦
          subst (λ x. Holds (In x) (Out x) (update w.slots w.next s x)) e
            (rw (update_eq w.slots w.next s) h)
      | no ne ↦ rw (update_ne w.slots w.next s d ne) (k.slots d)
    ];
    callbacks = λ d. elim (ℕ_discrete w.next d) [
      | yes e ↦
          subst (λ x. FitsIf In Out Want (Out x) (update w.callbacks w.next none x)) e
            (rw (update_eq w.callbacks w.next none) tt)
      | no ne ↦ rw (update_ne w.callbacks w.next none d ne) (k.callbacks d)
    ];
    tasks = k.tasks;
    delivered = k.delivered;
  }

  -- What a combinator gives: a future of the contract `n`, in a sound program.
  abbrev pub Gives : ℕ → Option (Future × World) → Type 0
  Gives n r =
      (f : Future) × (w : World) × (r ≡ some (f, w)) × (f.state ≡ some n) × Sound In Out Want w

  consume_lem :
      (f : Future) (cb : Callback) (c scheduler : ℕ) (w : World)
      → f.state ≡ some c
      → consume f cb scheduler w ≡ some (record f { state = none }, set_callback c cb scheduler w)
  unfolding consume consume_state
  consume_lem f cb c scheduler w e = ap (λ st. consume_state st f cb scheduler w) e

  chain-Sound :
      (callback : ℕ → Callback) (f : Future) (c scheduler : ℕ) (w : World)
      → f.state ≡ some c
      → Holds (In w.next) (Out w.next) (single none)
      → Fits In Out Want (Out c) (callback w.next)
      → Sound In Out Want w
      → Gives w.next (chain callback f scheduler w)
  unfolding chain create
  chain-Sound callback f c scheduler w e h k s =
      let w1 : World = (create (single none) w).1 in
      (
        record { state = some w.next; scheduler = f.scheduler },
        set_callback c (callback w.next) scheduler w1,
        ap (λ r. r >>= λ p. some (record { state = some w.next; scheduler = p.0.scheduler }, p.1))
            (consume_lem f (callback w.next) c scheduler w1 e),
        refl,
        set_callback-Sound In Out Want c (callback w.next) scheduler w1 k
            (create-Sound (single none) w h s),
      )

  -- What a pipe makes of what the contract `c` may give, at the new contract `n`.
  abbrev pub Makes : Pipe → ℕ → ℕ → Type 0
  Makes (map_pipe user) c n = (v : Value) → Out c v → In n first (user v)
  Makes (map_ok_pipe user) c n =
      ((v : Value) → Out c (ok v) → In n first (ok (user v)))
      × ((e : ℕ) → Out c (failure e) → In n first (failure e))
  Makes (and_then_pipe user) c n =
      ((v w : Value) → Out c (ok v) → Out (user v) w → In n first w)
      × ((e : ℕ) → Out c (failure e) → In n first (failure e))
  Makes (or_else_pipe user) c n =
      ((v : Value) → Out c (ok v) → In n first (ok v))
      × ((e : ℕ) (w : Value) → Out c (failure e) → Out (user e) w → In n first w)
  Makes flatten_pipe c n = (d : ℕ) (w : Value) → Out c (future d) → Out d w → In n first w
  Makes as_ok_future_pipe c n = (v : Value) → Out c v → In n first (ok v)
  Makes (flat_map_pipe user) c n = ⊥
  Makes (via_pipe scheduler) c n = ⊥
  Makes as_try_future_pipe c n = ⊥

  -- A future of the contract `c`, not consumed yet, that is piped into one of the combinators that
  -- make one contract, gives a future of the next contract; and the program stays sound, if that
  -- contract may carry what the combinator makes of what `c` may give.
  pub pipe-Sound :
      (p : Pipe) (f : Future) (c : ℕ) (w : World)
      → f.state ≡ some c
      → Holds (In w.next) (Out w.next) (single none)
      → Makes p c w.next
      → Sound In Out Want w
      → Gives w.next (pipe p f w)
  unfolding pipe map map_ok and_then_future or_else_future flatten_future try_flatten_future
      as_ok_future
  pipe-Sound (map_pipe user) f c w e h m s = chain-Sound (set_mapped user) f c f.scheduler w e h m s
  pipe-Sound (map_ok_pipe user) f c w e h m s =
      chain-Sound (set_mapped_ok user) f c f.scheduler w e h m s
  pipe-Sound (and_then_pipe user) f c w e h m s =
      chain-Sound (and_then user) f c f.scheduler w e h m s
  pipe-Sound (or_else_pipe user) f c w e h m s =
      chain-Sound (or_else user) f c f.scheduler w e h m s
  pipe-Sound flatten_pipe f c w e h m s = chain-Sound flatten f c inline_scheduler w e h m s
  pipe-Sound (flat_map_pipe user) f c w e h m s = elim m [ ]
  pipe-Sound (via_pipe scheduler) f c w e h m s = elim m [ ]
  pipe-Sound as_try_future_pipe f c w e h m s = elim m [ ]
  pipe-Sound as_ok_future_pipe f c w e h m s = chain-Sound (set_mapped ok) f c f.scheduler w e h m s

  -- A future made from two futures, not consumed yet, of the contracts `c` and `d`: the program stays
  -- sound, if the new contract may carry on its sides what `c` and `d` may give.
  pub join-Sound :
      (slots : Slots) (a b : Future) (c d : ℕ) (w : World)
      → a.state ≡ some c
      → b.state ≡ some d
      → Holds (In w.next) (Out w.next) slots
      → ((v : Value) → Out c v → In w.next first v)
      → ((v : Value) → Out d v → In w.next second v)
      → Sound In Out Want w
      → Gives w.next (join slots a b w)
  unfolding join create
  join-Sound slots a b c d w e e' h k l s =
      let n = w.next in
      let w1 : World = (create slots w).1 in
      let w2 : World = set_callback c (set_value first n) inline_scheduler w1 in
      let out : Future = record { state = some n; scheduler = inline_scheduler } in
      (
        out,
        set_callback d (set_value second n) inline_scheduler w2,
        ap
              (λ r. r >>= λ p.
                consume b (set_value second n) inline_scheduler p.1 >>= λ q. some (out, q.1))
              (consume_lem a (set_value first n) c inline_scheduler w1 e)
            ∙ ap (λ r. r >>= λ q. some (out, q.1))
                (consume_lem b (set_value second n) d inline_scheduler w2 e'),
        refl,
        set_callback-Sound In Out Want d (set_value second n) inline_scheduler w2 l (
            set_callback-Sound In Out Want c (set_value first n) inline_scheduler w1 k
              (create-Sound slots w h s)),
      )

  -- A promise, not fulfilled yet, of the contract `c` may be set to what `c` may carry, and a future of
  -- `c` may be delivered where all that `c` may give is wanted.
  pub set-Sound :
      (p : Promise) (c : ℕ) (v : Value) (w : World)
      → p.state ≡ some c
      → In c first v
      → Sound In Out Want w
      → (q : Promise) × (w' : World) × (set p v w ≡ some (q, w'))
        × (q.state ≡ none)
        × Sound In Out Want w'
  unfolding set set_state
  set-Sound p c v w e i s = (
    record { state = none },
    put_value first c v w,
    ap (λ st. set_state st v w) e,
    refl,
    put_value-Sound In Out Want first c v w i s,
  )

  pub get-Sound :
      (k : ℕ) (f : Future) (c : ℕ) (w : World)
      → f.state ≡ some c
      → ((v : Value) → Out c v → Want k v)
      → Sound In Out Want w
      → (w' : World) × (get k f w ≡ some w') × Sound In Out Want w'
  unfolding get
  get-Sound k f c w e h s = (
    set_callback c (deliver k) inline_scheduler w,
    ap (λ r. r >>= λ p. some p.1) (consume_lem f (deliver k) c inline_scheduler w e),
    set_callback-Sound In Out Want c (deliver k) inline_scheduler w h s,
  )
