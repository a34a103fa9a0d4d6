-- ===== src/Runtime/FiberInvoker/Serving.antt =====
-- The invoker runs every task to its end.
use dummy_concurrency.Base.{
  ℕ, zero, suc, ◌+◌, ◌<◌, ◌≤◌, ◌==◌, if◌then◌else◌, ◌≡◌, ◌≢◌, refl, sym, ap, subst, ◌∙◌, Bool, true,
  false, none, some, List, [], ◌∷◌, ◌++◌, length, count, arith,
}
use dummy_concurrency.Runtime.FiberInvoker.{
  Task, job, resume, Invoker, is_current, create_fiber, end_task, run_task, fiber_body, invoke,
}

-- The rounds that a task stands for.
abbrev pub rounds : List Task → ℕ
rounds [] = 0
rounds (job name k ∷ ts) = k + 1 + rounds ts
rounds (resume f name k ∷ ts) = k + 1 + rounds ts

abbrev pub named : ℕ → List Task → ℕ
named x [] = 0
named x (job name k ∷ ts) = (if name == x then 1 else 0) + named x ts
named x (resume f name k ∷ ts) = (if name == x then 1 else 0) + named x ts

abbrev pub suspended : List Task → ℕ
suspended [] = 0
suspended (job name k ∷ ts) = suspended ts
suspended (resume f name k ∷ ts) = 1 + suspended ts

-- The fibers that wait in the queue are older than `fresh`, and none of them is `self`.
abbrev pub Waiting : ℕ → ℕ → List Task → Type 0
Waiting fresh self [] = Unit
Waiting fresh self (job name k ∷ ts) = Waiting fresh self ts
Waiting fresh self (resume f name k ∷ ts) = (f < fresh) × (f ≢ self) × Waiting fresh self ts

rounds-append : (ts : List Task) (f x k : ℕ) → rounds (ts ++ resume f x k ∷ []) ≡ rounds ts + k + 1
rounds-append [] f x k = omega arith
rounds-append (job y l ∷ ts) f x k = omega (arith, rounds-append ts f x k)
rounds-append (resume g y l ∷ ts) f x k = omega (arith, rounds-append ts f x k)

suspended-append :
    (ts : List Task) (f x k : ℕ) → suspended (ts ++ resume f x k ∷ []) ≡ suspended ts + 1
suspended-append [] f x k = refl
suspended-append (job y l ∷ ts) f x k = suspended-append ts f x k
suspended-append (resume g y l ∷ ts) f x k = omega (arith, suspended-append ts f x k)

named-append :
    (z : ℕ) (ts : List Task) (f x k : ℕ)
    → named z (ts ++ resume f x k ∷ []) ≡ named z ts + (if x == z then 1 else 0)
named-append z [] f x k = omega arith
named-append z (job y l ∷ ts) f x k = omega (arith, named-append z ts f x k)
named-append z (resume g y l ∷ ts) f x k = omega (arith, named-append z ts f x k)

Waiting-append :
    (fresh fresh' self self' f x k : ℕ) (ts : List Task)
    → fresh ≤ fresh'
    → ((g : ℕ) → g < fresh → g ≢ self → g ≢ self')
    → f < fresh'
    → f ≢ self'
    → Waiting fresh self ts
    → Waiting fresh' self' (ts ++ resume f x k ∷ [])
Waiting-append fresh fresh' self self' f x k [] le h l ne w = (l, ne, tt)
Waiting-append fresh fresh' self self' f x k (job y m ∷ ts) le h l ne w =
    Waiting-append fresh fresh' self self' f x k ts le h l ne w
Waiting-append fresh fresh' self self' f x k (resume g y m ∷ ts) le h l ne w =
    (omega (arith, w.0), h g w.0 w.1, Waiting-append fresh fresh' self self' f x k ts le h l ne w.2)

-- In the loop of the fiber `self`.
record Looping (self : ℕ) (s : Invoker) : Type 0 where
  here : s.current ≡ some self
  older : self < s.fresh
  waiting : Waiting s.fresh self s.queue
  alive : length s.destroyed + suspended s.queue + 1 ≡ s.fresh

-- What a round makes of `s`, of which `t` was taken.
record Round (t : Task) (s : Invoker) (self' : ℕ) (s' : Invoker) : Type 0 where
  looping : Looping self' s'
  fewer : rounds s'.queue + 1 ≡ rounds (t ∷ s.queue)
  kept :
      (x : ℕ) → count x s'.finished + named x s'.queue ≡ count x s.finished + named x (t ∷ s.queue)

-- Which fiber goes on after a task.
end_task_lem :
    (name f self : ℕ) (b : Bool) (s : Invoker)
    → is_current s.current f ≡ b
    → end_task name f self s ≡ (
        if b
        then (f, record s { finished = name ∷ s.finished })
        else (self, record s { finished = name ∷ s.finished; destroyed = f ∷ s.destroyed }))
unfolding end_task
end_task_lem name f self b s e =
    ap
      (λ c.
        if c
        then (f, record s { finished = name ∷ s.finished })
        else (self, record s { finished = name ∷ s.finished; destroyed = f ∷ s.destroyed }))
      e

run_task-Round :
    (t : Task) (self : ℕ) (s : Invoker)
    → s.current ≡ some self
    → self < s.fresh
    → Waiting s.fresh self (t ∷ s.queue)
    → length s.destroyed + suspended (t ∷ s.queue) + 1 ≡ s.fresh
    → let (self', s') = run_task t self s in Round t s self' s'
unfolding run_task end_task create_fiber
run_task-Round (job name zero) self s e l w a =
    subst (λ q. Round (job name 0) s q.0 q.1)
      (sym (end_task_lem name self self true s (ap (λ o. is_current o self) e ∙ ground arith)))
      (record {
        looping = record { here = e; older = l; waiting = w; alive = a };
        fewer = omega arith;
        kept = λ x. omega arith;
      })
run_task-Round (job name (suc k)) self s e l w a = record {
  looping = record {
    here = refl;
    older = omega arith;
    waiting =
        Waiting-append s.fresh (s.fresh + 1) self s.fresh self name k s.queue (omega arith)
          (λ g h ne. omega arith) (omega arith) (omega arith) w;
    alive = omega (arith, suspended-append s.queue self name k);
  };
  fewer = omega (arith, rounds-append s.queue self name k);
  kept = λ x. omega (arith, named-append x s.queue self name k);
}
run_task-Round (resume f name zero) self s e l w a =
    subst (λ q. Round (resume f name 0) s q.0 q.1)
      (sym (end_task_lem name f self false s (ap (λ o. is_current o f) e ∙ ground (arith, w.1))))
      (record {
        looping = record { here = e; older = l; waiting = w.2; alive = omega (arith, a) };
        fewer = omega arith;
        kept = λ x. omega arith;
      })
run_task-Round (resume f name (suc k)) self s e l w a = record {
  looping = record {
    here = e;
    older = l;
    waiting =
        Waiting-append s.fresh s.fresh self self f name k s.queue (omega arith) (λ g h ne. ne) w.0
          w.1 w.2;
    alive = omega (arith, suspended-append s.queue f name k);
  };
  fewer = omega (arith, rounds-append s.queue f name k);
  kept = λ x. omega (arith, named-append x s.queue f name k);
}

-- The invoker has come to its end, with `finished` and `named` as at `s`.
record Ended (s s' : Invoker) : Type 0 where
  gone : s'.current ≡ none
  empty : s'.queue ≡ []
  all_destroyed : length s'.destroyed ≡ s'.fresh
  all_finished : (x : ℕ) → count x s'.finished ≡ count x s.finished + named x s.queue

fiber_body-Ended :
    (n self : ℕ) (s : Invoker)
    → rounds s.queue < n
    → Looping self s
    → (s' : Invoker) × (fiber_body n (self, s) ≡ some s') × Ended s s'
unfolding fiber_body
fiber_body-Ended zero self s h l = absurd (omega arith)
fiber_body-Ended (suc n) self s h l = split s.queue refl (λ q k m. fiber_body-Ended n q.0 q.1 k m)
  where
    split :
        (ts : List Task)
        → s.queue ≡ ts
        → ((q : ℕ × Invoker)
            → rounds q.1.queue < n
            → Looping q.0 q.1
            → (s' : Invoker) × (fiber_body n q ≡ some s') × Ended q.1 s')
        → (s' : Invoker) × (fiber_body (suc n) (self, s) ≡ some s') × Ended s s'
    split [] e go_on = (
      record s { current = none; destroyed = self ∷ s.destroyed },
      rw e (
          ap (λ ts. some (record s { current = none; queue = ts; destroyed = self ∷ s.destroyed }))
            e),
      record {
        gone = refl;
        empty = e;
        all_destroyed = omega (arith, l.alive, ap suspended e);
        all_finished = λ x. omega (arith, ap (named x) e);
      },
    )
    split (t ∷ rest) e go_on =
        let q = run_task t self (record s { queue = rest }) in
        let r =
          run_task-Round t self (record s { queue = rest }) l.here l.older
            (subst (Waiting s.fresh self) e l.waiting)
            (ap (λ ts. length s.destroyed + suspended ts + 1) (sym e) ∙ l.alive) in
        let (s', ran, d) = go_on q (omega (arith, h, r.fewer, ap rounds e)) r.looping in
        (
          s',
          rw e refl ∙ ran,
          record {
            gone = d.gone;
            empty = d.empty;
            all_destroyed = d.all_destroyed;
            all_finished = λ x. omega (arith, d.all_finished x, r.kept x, ap (named x) e);
          },
        )

-- With more fuel than the rounds that the submitted tasks stand for, and one: an invocation of tasks
-- none of which has begun comes to an end, with no fiber as the current one, and nothing submitted.
-- Each task has been finished as often as it was submitted, and as many fibers have been destroyed as
-- were made.
pub invoke_ends :
    (s : Invoker) (n : ℕ)
    → rounds s.queue < n
    → suspended s.queue ≡ 0
    → length s.destroyed ≡ s.fresh
    → (s' : Invoker) × (invoke n s ≡ some s')
      × (s'.current ≡ none)
      × (s'.queue ≡ [])
      × (length s'.destroyed ≡ s'.fresh)
      × ((x : ℕ) → count x s'.finished ≡ count x s.finished + named x s.queue)
unfolding invoke create_fiber
invoke_ends s n h z d =
    let (s', ran, e) = fiber_body-Ended n s.fresh (create_fiber s) h (record {
      here = refl;
      older = omega arith;
      waiting = jobs_wait s.queue z;
      alive = omega (arith, z, d);
    }) in
    (s', ran, e.gone, e.empty, e.all_destroyed, e.all_finished)
  where
    jobs_wait : (ts : List Task) → suspended ts ≡ 0 → Waiting (s.fresh + 1) s.fresh ts
    jobs_wait [] e = tt
    jobs_wait (job x k ∷ ts) e = jobs_wait ts e
    jobs_wait (resume f x k ∷ ts) e = absurd (omega arith)
