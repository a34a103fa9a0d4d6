-- ===== src/Tests/Contexts.antt =====
-- A coroutine on one thread: it is set up and run with an exception in flight, and exits.
use dummy_concurrency.Base.{ℕ, ◌+◌, ◌<◌, ◌≡◌, refl, none, some, update, arith}
use dummy_concurrency.Context.{
  Globals, no_exceptions, switch_to, exit_to, setup, ended, thread, context, System, create, throws,
  setups, switches, exits, Reach, begins, later,
}
use dummy_concurrency.Context.Flows.{is_ended}
use dummy_concurrency.Context.Carried.{exceptions_carried}

abbrev in_flight : Globals
in_flight = record { caught_exceptions = 0; uncaught_exceptions = 1 }

abbrev set_up : System
set_up = record (create 1) {
  machine = setup 0 1 (create 1).machine;
  made = 1 + 1;
  held = update (create 1).held 0 (some 1);
  home = update (create 1).home 1 (some 0);
  place = update (create 1).place 1 (context 0);
  own = update (create 1).own 1 no_exceptions;
}

abbrev thrown : System
thrown = record set_up {
  machine = record set_up.machine { globals = update set_up.machine.globals 0 in_flight };
  own = update set_up.own 0 in_flight;
}

abbrev entered : System
entered = record thrown {
  machine = switch_to 0 1 0 thrown.machine;
  running = update thrown.running 0 1;
  held = update (update thrown.held 0 none) 1 (some 0);
  place = update (update thrown.place 0 (context 1)) 1 (thread 0);
}

abbrev left : System
left = record entered {
  machine = exit_to 0 0 1 entered.machine;
  running = update entered.running 0 0;
  held = update entered.held 1 none;
  place = update (update entered.place 1 ended) 0 (thread 0);
}

set_up-Reach : Reach 1 set_up
set_up-Reach = later begins (setups 0 refl (λ f e. absurd (ground (arith, e))) refl)

thrown-Reach : Reach 1 thrown
thrown-Reach = later set_up-Reach (throws 0 in_flight (omega arith))

entered-Reach : Reach 1 entered
entered-Reach =
    later thrown-Reach
      (switches 0 1 0 1 (omega arith) refl refl (λ g e. absurd (ground (arith, e))))

left-Reach : Reach 1 left
left-Reach = later entered-Reach (exits 0 0 1 0 (omega arith) refl refl refl)

left_restored : (left.machine.globals 0 ≡ in_flight) × (left.machine.destroyed 1 ≡ 1)
unfolding switch_to exit_to setup
left_restored = (refl, refl)

exceptions_carried_example :
    ((t : ℕ)
      → t < 1
      → (left.machine.globals t ≡ left.own (left.running t))
        × (left.machine.current_fiber t ≡ left.running t))
    × ((c f : ℕ)
        → left.held c ≡ some f
        → (left.machine.buffer c ≡ left.own f) × (left.machine.fiber c ≡ f))
    × ((f : ℕ) → left.machine.destroyed f ≡ is_ended (left.place f))
exceptions_carried_example = exceptions_carried left-Reach
