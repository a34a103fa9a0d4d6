-- ===== src/Context.antt =====
-- DummyConcurrency/Context: the switch between execution contexts, with the exceptions of a thread
-- (Exceptions/Unix) and the fibers of the thread sanitizer (Sanitizer/Thread).
pub mod Flows
pub mod Carried
use dummy_concurrency.Base.{ℕ, ◌+◌, ◌<◌, ◌≡◌, ◌≢◌, if◌then◌else◌, ltb, Option, none, some, update}

-- The two words that `__cxa_get_globals` points to.
pub record Globals : Type 0 where
  pub caught_exceptions : ℕ
  pub uncaught_exceptions : ℕ

abbrev pub no_exceptions : Globals
no_exceptions = record { caught_exceptions = 0; uncaught_exceptions = 0 }

-- What the machine has: of each thread its exception globals and the sanitizer's current fiber, of
-- each `ExecutionContext` its members, and of each fiber of the sanitizer how often it was destroyed.
pub record Machine : Type 0 where
  pub globals : ℕ → Globals
  pub current_fiber : ℕ → ℕ
  pub buffer : ℕ → Globals
  pub fiber : ℕ → ℕ
  pub exit_from : ℕ → Option ℕ
  pub destroyed : ℕ → ℕ

-- `ExceptionsContext::SwitchTo` on a thread.
unfoldable pub switch_exceptions : (thread this target : ℕ) → Machine → Machine
switch_exceptions thread this target m = record m {
  buffer = update m.buffer this (m.globals thread);
  globals = update m.globals thread (m.buffer target);
}

-- `SanitizerContext::BeforeSwitch`
unfoldable pub before_switch : (thread this target : ℕ) → Machine → Machine
before_switch thread this target m = record m {
  fiber = update m.fiber this (m.current_fiber thread);
  current_fiber = update m.current_fiber thread (m.fiber target);
}

-- `SanitizerContext::BeforeExit`
unfoldable pub before_exit : (thread this target : ℕ) → Machine → Machine
before_exit thread this target m = record m {
  exit_from = update m.exit_from target (some this);
  current_fiber = update m.current_fiber thread (m.fiber target);
}

-- `SanitizerContext::After`, on the context that goes on.
unfoldable pub after : Option ℕ → (this : ℕ) → Machine → Machine
after none this m = m
after (some x) this m = record m {
  destroyed = update m.destroyed (m.fiber x) (m.destroyed (m.fiber x) + 1);
  exit_from = update m.exit_from this none;
}

-- `ExecutionContext::SwitchTo` up to the return of the `SwitchTo` of the target, or to its `Run`.
unfoldable pub switch_to : (thread this target : ℕ) → Machine → Machine
unfolding switch_exceptions before_switch after
switch_to thread this target m =
    let m' = before_switch thread this target (switch_exceptions thread this target m) in
    after (m'.exit_from target) target m'

-- `ExecutionContext::ExitTo` up to there.
unfoldable pub exit_to : (thread this target : ℕ) → Machine → Machine
unfolding switch_exceptions before_exit after
exit_to thread this target m =
    let m' = before_exit thread this target (switch_exceptions thread this target m) in
    after (m'.exit_from target) target m'

-- `ExecutionContext::Setup`, of which the sanitizer makes a new fiber.
unfoldable pub setup : (this fiber : ℕ) → Machine → Machine
setup this fiber m = record m { fiber = update m.fiber this fiber }

-- Where a flow of control is.
pub data Place : Type 0 where
  unmade ended : Place
  thread : ℕ → Place
  context : ℕ → Place

-- A flow of control is a number, and so is its fiber of the sanitizer. `running` is the flow of each
-- thread, `held` the one that is suspended in a context, `home` the context that a flow was set up
-- in, and `own` the exceptions of the code of each flow.
pub record System : Type 0 where
  pub machine : Machine
  pub made : ℕ
  pub running : ℕ → ℕ
  pub held : ℕ → Option ℕ
  pub home : ℕ → Option ℕ
  pub place : ℕ → Place
  pub own : ℕ → Globals

-- `n` threads, each with its own flow.
abbrev pub create : ℕ → System
create n = record {
  machine = record {
    globals = λ t. no_exceptions;
    current_fiber = λ t. t;
    buffer = λ c. no_exceptions;
    fiber = λ c. 0;
    exit_from = λ c. none;
    destroyed = λ f. 0;
  };
  made = n;
  running = λ t. t;
  held = λ c. none;
  home = λ f. none;
  place = λ f. if ltb f n then thread f else unmade;
  own = λ f. no_exceptions;
}

pub data Step (n : ℕ) (s : System) : System → Type 0 where
  -- The code throws or catches.
  throws :
      (t : ℕ) (e : Globals)
      → t < n
      → Step n s (record s {
        machine = record s.machine { globals = update s.machine.globals t e };
        own = update s.own (s.running t) e;
      })
  -- A context is set up once.
  setups :
      (c : ℕ)
      → s.held c ≡ none
      → ((f : ℕ) → s.home f ≢ some c)
      → s.machine.buffer c ≡ no_exceptions
      → Step n s (record s {
        machine = setup c s.made s.machine;
        made = s.made + 1;
        held = update s.held c (some s.made);
        home = update s.home s.made (some c);
        place = update s.place s.made (context c);
        own = update s.own s.made no_exceptions;
      })
  -- A flow saves itself in a context that no other flow was set up in.
  switches :
      (t c d f : ℕ)
      → t < n
      → s.held c ≡ none
      → s.held d ≡ some f
      → ((g : ℕ) → s.home g ≡ some c → g ≡ s.running t)
      → Step n s (record s {
        machine = switch_to t c d s.machine;
        running = update s.running t f;
        held = update (update s.held d none) c (some (s.running t));
        place = update (update s.place (s.running t) (context c)) f (thread t);
      })
  exits :
      (t c d f : ℕ)
      → t < n
      → s.held c ≡ none
      → s.held d ≡ some f
      → s.home (s.running t) ≡ some c
      → Step n s (record s {
        machine = exit_to t c d s.machine;
        running = update s.running t f;
        held = update s.held d none;
        place = update (update s.place (s.running t) ended) f (thread t);
      })

pub data Reach (n : ℕ) : System → Type 0 where
  begins : Reach n (create n)
  later : {s t : System} → Reach n s → Step n s t → Reach n t
