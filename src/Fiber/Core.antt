-- ===== src/Fiber/Core.antt =====
-- DummyConcurrency/Fiber/Core and Fiber/Scheduling, and the awaiters of fibers under
-- DummyConcurrency/Synchronization: which fiber runs on which thread, and who holds the others. Fibers,
-- threads and awaiters are named by numbers; what a fiber does between two calls is not looked at.
pub mod Places
pub mod Returning
pub mod Keeping
pub mod Switching
pub mod Reachable
pub mod Safety
use dummy_concurrency.Base.{
  ℕ, ◌+◌, ◌==◌, ◌≡◌, if◌then◌else◌, Bool, true, false, not, ◌&&◌, Option, none, some, List, [], ◌∷◌,
  ◌++◌, ◌>>=◌, update, length,
}

pub record System : Type 0 where
  pub current : ℕ → Option ℕ  -- `gCurrentFiber` of each thread
  pub buffer : ℕ → Option ℕ  -- `gSwitchFiberBuffer` of each thread
  pub frames : ℕ → List (Option ℕ)  -- `initial` of the calls of `Run` on each thread, the last first
  pub caller : ℕ → Option (ℕ × ℕ)  -- `caller_context_` of each fiber: which call on which thread
  pub suspend_awaiter : ℕ → Option ℕ  -- of each fiber
  pub completed : ℕ → Bool  -- of each fiber
  pub destroyed : ℕ → ℕ  -- how often each fiber was destroyed
  pub handle : ℕ → Option ℕ  -- `handle_` of each awaiter
  pub queue : List ℕ  -- submitted to the schedulers
  pub fresh : ℕ

-- Before any fiber is made.
abbrev pub start : System
start = record {
  current = λ t. none;
  buffer = λ t. none;
  frames = λ t. [];
  caller = λ f. none;
  suspend_awaiter = λ f. none;
  completed = λ f. false;
  destroyed = λ f. 0;
  handle = λ a. none;
  queue = [];
  fresh = 0;
}

-- `Fiber::Schedule`
unfoldable pub schedule_fiber : ℕ → System → System
schedule_fiber f s = record s { queue = s.queue ++ f ∷ [] }

-- `Fiber::Create`: the fiber and the system afterwards.
unfoldable pub create : System → ℕ × System
create s = (
  s.fresh,
  record s {
    caller = update s.caller s.fresh none;
    suspend_awaiter = update s.suspend_awaiter s.fresh none;
    completed = update s.completed s.fresh false;
    fresh = s.fresh + 1;
  },
)

unfoldable pub go : System → System
unfolding create schedule_fiber
go s = let (f, s') = create s in schedule_fiber f s'

unfoldable pub destroy : ℕ → System → System
destroy f s = record s { destroyed = update s.destroyed f (s.destroyed f + 1) }

-- `IAwaiter::Suspend` of the awaiter that a fiber has named; without one, a null pointer is used.
unfoldable pub hand_over : ℕ → Option ℕ → System → Option System
hand_over f none s = none
hand_over f (some a) s = some (record s { handle = update s.handle a (some f) })

-- `ICoroutine::Resume` sets `caller_context_` to a local of the call.
abbrev pub resumed : ℕ → ℕ × ℕ → (ℕ → Option (ℕ × ℕ)) → ℕ → Option (ℕ × ℕ)
resumed f call caller = update caller f (some call)

-- `Run` up to the start of the coroutine, with `Resume`.
unfoldable pub run : ℕ → ℕ → System → System
run f t s = record s {
  frames = update s.frames t (s.current t ∷ s.frames t);
  current = update s.current t (some f);
  suspend_awaiter = update s.suspend_awaiter f none;
  caller = resumed f (t, length (s.frames t)) s.caller;
}

-- `Run` after `Resume`, in the last call on the thread; `none` where the assertion fails.
unfoldable pub come_back : List (Option ℕ) → Option ℕ → ℕ → System → Option System
unfolding destroy hand_over
come_back [] returned t s = none
come_back (initial ∷ frames) none t s = none
come_back (initial ∷ frames) (some f) t s =
    let s' : System = record s {
      current = update s.current t initial;
      frames = update s.frames t frames;
    } in
    if s.completed f then some (destroy f s') else hand_over f (s.suspend_awaiter f) s'

-- A switch to `caller_context_`. The call that it belongs to must be the last one on the thread.
unfoldable pub leave : Option (ℕ × ℕ) → ℕ → System → Option System
unfolding come_back
leave none t s = none
leave (some (thread, depth)) t s =
    if thread == t && depth + 1 == length (s.frames t)
    then come_back (s.frames t) (s.current t) t s
    else none

-- `Suspend` of the fiber that runs; `none` where an assertion fails.
unfoldable pub suspend_fiber : Option ℕ → ℕ → ℕ → System → Option System
unfolding leave
suspend_fiber none a t s = none
suspend_fiber (some f) a t s =
    leave (s.caller f) t (record s { suspend_awaiter = update s.suspend_awaiter f (some a) })

unfoldable pub suspend : ℕ → ℕ → System → Option System
unfolding suspend_fiber
suspend a t s = suspend_fiber (s.current t) a t s

-- The end of the body of the coroutine that runs.
unfoldable pub finish_fiber : Option ℕ → ℕ → System → Option System
unfolding leave
finish_fiber none t s = none
finish_fiber (some f) t s =
    leave (s.caller f) t (record s { completed = update s.completed f true })

unfoldable pub finish : ℕ → System → Option System
unfolding finish_fiber
finish t s = finish_fiber (s.current t) t s

-- `IAwaiter::Schedule`, which releases the handle.
unfoldable pub schedule_handle : Option ℕ → ℕ → System → Option System
unfolding schedule_fiber
schedule_handle none a s = none
schedule_handle (some f) a s =
    some (schedule_fiber f (record s { handle = update s.handle a none }))

unfoldable pub schedule : ℕ → System → Option System
unfolding schedule_handle
schedule a s = schedule_handle (s.handle a) a s

-- `ICoroutine::SwitchTo` swaps the `caller_context_` of two coroutines.
abbrev pub swapped : ℕ → ℕ → (ℕ → Option (ℕ × ℕ)) → ℕ → Option (ℕ × ℕ)
swapped f g caller = if f == g then caller else update (update caller f (caller g)) g (caller f)

-- `Fiber::SwitchTo` from the fiber `f`, which runs on the thread, to `g`.
unfoldable pub switch_to : ℕ → ℕ → ℕ → System → System
switch_to f g t s = record s {
  current = update s.current t (some g);
  caller = swapped f g s.caller;
}

-- `IAwaiter::Switch` to `gSwitchFiberBuffer`.
unfoldable pub switch_handle : Option ℕ → Option ℕ → ℕ → ℕ → System → Option System
unfolding switch_to
switch_handle none g a t s = none
switch_handle (some f) none a t s = none
switch_handle (some f) (some g) a t s = some (
    switch_to f g t
      (record s { buffer = update s.buffer t (some f); handle = update s.handle a none }))

-- `AfterSuspend`, which the fiber that is switched to calls first.
unfoldable pub after_suspend_of : Option ℕ → ℕ → System → System
unfolding schedule_fiber
after_suspend_of none t s = s
after_suspend_of (some f) t s = schedule_fiber f (record s { buffer = update s.buffer t none })

unfoldable pub after_suspend : ℕ → System → System
unfolding after_suspend_of
after_suspend t s = after_suspend_of (s.buffer t) t s

abbrev pub is_some : {A : Type 0} → Option A → Bool
is_some none = false
is_some (some a) = true

-- `IFiberAwaiter::Wake`, with `symmetric_switch_`.
unfoldable pub wake : Bool → ℕ → ℕ → System → Option System
unfolding switch_handle after_suspend schedule
wake symmetric a t s =
    if symmetric && is_some (s.current t)
    then (switch_handle (s.current t) (s.handle a) a t s >>= (λ s'. some (after_suspend t s')))
    else schedule a s

-- `Yield`, where `allowed` is what `ContextSwitchAwailable` answers in a fiber.
unfoldable pub yield_fiber : Option ℕ → Bool → ℕ → ℕ → System → Option System
unfolding suspend schedule
yield_fiber none allowed a t s = none
yield_fiber (some f) false a t s = some s
yield_fiber (some f) true a t s = suspend a t s >>= schedule a

unfoldable pub yield : Bool → ℕ → ℕ → System → Option System
unfolding yield_fiber
yield allowed a t s = yield_fiber (s.current t) allowed a t s

-- `DoAwait`, whose function answers whether it has queued the awaiter. A thread without a fiber waits by
-- itself.
unfoldable pub do_await_fiber : Option ℕ → Bool → ℕ → ℕ → System → Option System
unfolding suspend schedule
do_await_fiber none queued a t s = some s
do_await_fiber (some f) true a t s = suspend a t s
do_await_fiber (some f) false a t s = suspend a t s >>= schedule a

unfoldable pub do_await : Bool → ℕ → ℕ → System → Option System
unfolding do_await_fiber
do_await queued a t s = do_await_fiber (s.current t) queued a t s

-- What the threads do: a scheduler runs a task that was submitted, and an awaiter that a fiber is
-- suspended with holds no other one.
pub data Step (s : System) : System → Type 0 where
  goes : Step s (go s)
  runs :
      (t f : ℕ) (before after : List ℕ)
      → s.queue ≡ before ++ f ∷ after
      → Step s (run f t (record s { queue = before ++ after }))
  suspends : {s' : System} (t a : ℕ) → s.handle a ≡ none → suspend a t s ≡ some s' → Step s s'
  finishes : {s' : System} (t : ℕ) → finish t s ≡ some s' → Step s s'
  wakes : {s' : System} (symmetric : Bool) (a t : ℕ) → wake symmetric a t s ≡ some s' → Step s s'

pub data Reach : System → Type 0 where
  begins : Reach start
  later : {s s' : System} → Reach s → Step s s' → Reach s'
